-- ===== src/Rpc/Reader/Args.antt =====
-- `rpc_parse_req_args` hands the arguments over that a message holds.
use demo.Common.{
  ℕ, ◌+◌, ◌<◌, ◌≡◌, refl, arith, ap, sym, ◌∙◌, Bool, true, false, ◌||◌, List, [], ◌∷◌, ◌++◌, length,
  append_assoc, some, lt→ltb, if◌then◌else◌,
}
use demo.Common.Int.{ℤ, pos}
use demo.Common.Effect.{pure, ◌>>=◌, ◌>>◌, assert, >>=-cong, >>=-assoc, >>=-split}
use demo.Rpc.{DataType, code, from_code, width, is_text, is_pb, is_nonzero}
use demo.Rpc.Bytes.{le_bytes, length-le_bytes, from_le, from_le-le_bytes}
use demo.Common.Alloc.{Heap, M, malloc}
use demo.Rpc.Buffer.{number, text, message}
use demo.Rpc.Reader.{
  Reader, Handle, parse_number, parse_sized, parse_block, parse_typed, parse_arg, parse_args,
  rpc_parse_req_args, handled,
}
use demo.Rpc.Reader.Laws.{Ahead, advance, advance-Ahead, reader_read_bytes-some}
use demo.Rpc.Args.{Arg, IsArg, AllArgs, payload, arg_bytes, args_bytes, hand_over, feed}

no_width_text : (dt : DataType) → is_text dt ≡ true → width dt ≡ 0
no_width_text dt e = ground arith

no_width_pb : (dt : DataType) → is_pb dt ≡ true → width dt ≡ 0
no_width_pb dt e = ground arith

text_is_block : (dt : DataType) → is_text dt ≡ true → (is_pb dt || is_text dt) ≡ true
text_is_block dt e = ground arith

pb_is_block : (dt : DataType) → is_pb dt ≡ true → (is_pb dt || is_text dt) ≡ true
pb_is_block dt e = ground arith

from_code-code : (dt : DataType) → from_code (code dt) ≡ some dt
from_code-code dt = ground arith

code-lt : (dt : DataType) → code dt < 256
code-lt dt = ground arith

known : (dt : DataType) → from_code (from_le (le_bytes 1 (code dt))) ≡ some dt
known dt =
    ap from_code (from_le-le_bytes 1 (code dt) (omega (arith, code-lt dt))) ∙ from_code-code dt

block-Ahead :
    (bs : List ℕ) (r : Reader) (rest : List ℕ)
    → Ahead r (le_bytes 2 (length bs) ++ (bs ++ rest))
    → Ahead (advance (advance r 2) (length bs)) rest
block-Ahead bs r rest a =
    advance-Ahead (advance r 2) bs rest
      (advance-Ahead r (le_bytes 2 (length bs)) (bs ++ rest) a 2 refl) (length bs) refl

module _ {U : Type 0} (handler : Handle U) where
  typed_block :
      (dt : DataType) (r : Reader) (u : U) (h : Heap)
      → width dt ≡ 0
      → (is_pb dt || is_text dt) ≡ true
      → parse_typed handler (some dt) r u h ≡ parse_block handler dt r u h
  unfolding parse_typed
  typed_block dt r u h e block = rw (e, block) refl

  -- What the parser does with a number whose bytes are ahead.
  parse_number_lem :
      (dt : DataType) (v : ℕ) (r : Reader) (rest : List ℕ) (u : U) (h : Heap)
      → Ahead r (le_bytes (width dt) v ++ rest)
      → parse_number handler dt r u h
        ≡ (hand_over handler (dt, number v) u >>= handled handler (advance r (width dt))) h
  unfolding parse_number
  parse_number_lem dt v r rest u h a =
      rw
        (
          ◌>>=◌,
          reader_read_bytes-some r (le_bytes (width dt) v) rest a (width dt) h
              (length-le_bytes (width dt) v),
        )
        refl

  -- A block handed over, in memory that `malloc` grants.
  abbrev hand_block : DataType → List ℕ → U → M (ℤ × U)
  hand_block dt bs u = do
    granted ← malloc
    assert granted
    handler dt (bs ++ (0 ∷ [])) (length bs) u

  parse_sized_lem :
      (dt : DataType) (bs : List ℕ) (r : Reader) (rest : List ℕ) (u : U) (h : Heap)
      → Ahead r (bs ++ rest)
      → parse_sized handler dt (length bs) r u h
        ≡ (hand_block dt bs u >>= handled handler (advance r (length bs))) h
  unfolding parse_sized
  parse_sized_lem dt bs r rest u h a =
      >>=-cong malloc _ _ h (λ granted h'.
        >>=-cong (assert granted) _ _ h'
          (λ _ h''. rw (◌>>=◌, reader_read_bytes-some r bs rest a (length bs) h'' refl) refl)
        ∙ sym (>>=-assoc (assert granted) _ _ h'))
      ∙ sym (>>=-assoc malloc _ _ h)

  parse_block_lem :
      (dt : DataType) (bs : List ℕ) (r : Reader) (rest : List ℕ) (u : U) (h : Heap)
      → length bs < 65536
      → Ahead r (le_bytes 2 (length bs) ++ (bs ++ rest))
      → parse_block handler dt r u h
        ≡ (hand_block dt bs u >>= handled handler (advance (advance r 2) (length bs))) h
  unfolding parse_block
  parse_block_lem dt bs r rest u h lt a =
      let size : from_le (le_bytes 2 (length bs)) ≡ length bs =
        from_le-le_bytes 2 (length bs) (omega arith) in
      let a' = advance-Ahead r (le_bytes 2 (length bs)) (bs ++ rest) a 2 refl in
      rw (◌>>=◌, reader_read_bytes-some r (le_bytes 2 (length bs)) (bs ++ rest) a 2 h refl)
        (ap (λ n. parse_sized handler dt n (advance r 2) u h) size
          ∙ parse_sized_lem dt bs (advance r 2) rest u h a')

  -- The length of an argument in the message.
  abbrev size_of : Arg → ℕ
  size_of v = length (payload v)

  parse_typed_lem :
      (v : Arg) (r : Reader) (rest : List ℕ) (u : U) (h : Heap)
      → IsArg v
      → Ahead r (payload v ++ rest)
      → (r' : Reader) × (parse_typed handler (some v.0) r u h
          ≡ (hand_over handler v u >>= handled handler r') h)
        × Ahead r' rest
  unfolding parse_typed
  parse_typed_lem (dt, number v) r rest u h p a = (
    advance r (width dt),
    rw (lt→ltb 0 (width dt) p.0) (parse_number_lem dt v r rest u h a),
    advance-Ahead r (le_bytes (width dt) v) rest a (width dt) (length-le_bytes (width dt) v),
  )
  parse_typed_lem (dt, text s) r rest u h p a =
      let a' : Ahead r (le_bytes 2 (length s) ++ (s ++ rest)) = a in
      (
        advance (advance r 2) (length s),
        typed_block dt r u h (no_width_text dt p.0) (text_is_block dt p.0)
            ∙ parse_block_lem dt s r rest u h p.1 a',
        block-Ahead s r rest a',
      )
  parse_typed_lem (dt, message s) r rest u h p a =
      let a' : Ahead r (le_bytes 2 (length s) ++ (s ++ rest)) = a in
      (
        advance (advance r 2) (length s),
        typed_block dt r u h (no_width_pb dt p.0) (pb_is_block dt p.0)
            ∙ parse_block_lem dt s r rest u h p.1 a',
        block-Ahead s r rest a',
      )

  parse_arg_lem :
      (v : Arg) (r : Reader) (rest : List ℕ) (u : U) (h : Heap)
      → IsArg v
      → Ahead r (arg_bytes v ++ rest)
      → (r' : Reader) × (parse_arg handler r u h ≡ (hand_over handler v u >>= handled handler r') h)
        × Ahead r' rest
  unfolding parse_arg
  parse_arg_lem v r rest u h p a =
      let read = reader_read_bytes-some r (le_bytes 1 (code v.0)) (payload v ++ rest) a 1 h refl in
      let a' = advance-Ahead r (le_bytes 1 (code v.0)) (payload v ++ rest) a 1 refl in
      let (r', e, a'') = parse_typed_lem v (advance r 1) rest u h p a' in
      (
        r',
        rw (◌>>=◌, read) (ap (λ t. parse_typed handler t (advance r 1) u h) (known v.0) ∙ e),
        a'',
      )

  -- The result without the reader.
  abbrev pub outcome : ℤ × Reader × U → M (ℤ × U)
  outcome (ret, r, u) = pure (ret, u)

  -- What follows an argument that was handed over.
  parse_rest :
      (vs : List Arg) (i : ℕ) (r : Reader) (rest : List ℕ) (result : ℤ × U) (h : Heap) (stop : Bool)
      → is_nonzero result.0 ≡ stop
      → ((u' : U)
          → (parse_args handler (length vs) (i + 1) r u' >>= outcome) h
            ≡ feed handler vs (i + 1) u' h)
      → ((handled handler r result >>= λ x.
              if is_nonzero x.0
              then pure (pos (i + 1), x.1, x.2)
              else parse_args handler (length vs) (i + 1) x.1 x.2)
            >>= outcome)
          h
        ≡ (if is_nonzero result.0
              then pure (pos (i + 1), result.1)
              else feed handler vs (i + 1) result.1)
            h
  parse_rest vs i r rest result h true e ih = rw e refl
  parse_rest vs i r rest result h false e ih = rw e (ih result.1)

  pub parse_args-feed :
      (vs : List Arg) (i : ℕ) (r : Reader) (rest : List ℕ) (u : U) (h : Heap)
      → AllArgs vs
      → Ahead r (args_bytes vs ++ rest)
      → (parse_args handler (length vs) i r u >>= outcome) h ≡ feed handler vs i u h
  unfolding parse_args feed
  parse_args-feed [] i r rest u h p a = refl
  parse_args-feed (v ∷ vs) i r rest u h p a =
      let (r', e, a') = parse_arg_lem v r (args_bytes vs ++ rest) u h p.0 (rw (← append_assoc) a) in
      >>=-assoc (parse_arg handler r u) _ _ h
      ∙ >>=-split (parse_arg handler r u) (hand_over handler v u) (handled handler r') _ h e
      ∙ >>=-cong (hand_over handler v u) _ _ h (λ result h'.
        parse_rest vs i r' rest result h' (is_nonzero result.0) refl
          (λ u'. parse_args-feed vs (i + 1) r' rest u' h' p.1 a'))

  -- `rpc_parse_req_args` of a message does what handing its arguments over one by one does, in
  -- their order and each once, up to the first one that is refused, whose number is the result; for
  -- at most 255 arguments.
  pub rpc_parse_req_args-feed :
      (vs : List Arg) (r : Reader) (rest : List ℕ) (u : U) (h : Heap)
      → AllArgs vs
      → length vs < 256
      → Ahead r (le_bytes 1 (length vs) ++ (args_bytes vs ++ rest))
      → (rpc_parse_req_args handler r u >>= outcome) h ≡ feed handler vs 0 u h
  unfolding rpc_parse_req_args
  rpc_parse_req_args-feed vs r rest u h p lt a =
      let count : from_le (le_bytes 1 (length vs)) ≡ length vs =
        from_le-le_bytes 1 (length vs) (omega arith) in
      let read =
        reader_read_bytes-some r (le_bytes 1 (length vs)) (args_bytes vs ++ rest) a 1 h refl in
      let a' = advance-Ahead r (le_bytes 1 (length vs)) (args_bytes vs ++ rest) a 1 refl in
      rw (◌>>=◌, read)
        (ap (λ n. (parse_args handler n 0 (advance r 1) u >>= outcome) h) count
          ∙ parse_args-feed vs 0 (advance r 1) rest u h p a')
