-- ===== src/Rpc/Demo/Sum.antt =====
-- The call of `sum`, from the client to the server and back.
use demo.Common.{
  ℕ, ◌+◌, ◌-◌, ◌%◌, ◌^◌, ◌≤◌, ◌<◌, ◌≡◌, refl, arith, ap, sym, ◌∙◌, List, [], ◌∷◌, ◌++◌, length,
  take, take-short, length-append, append-nil, some, if◌then◌else◌, lt→ltb, lt→leb,
}
use demo.Common.Int.{ℤ}
use demo.Common.Effect.{◌>>=◌, >>=-assoc}
use demo.Rpc.{DataType, s8, s16, s32, s64, width, success, rpc_ok, rpc_err, s8cp, is_nonzero}
use demo.Rpc.Bytes.{
  le_bytes, length-le_bytes, from_le, from_le-le_bytes, from_le-append_zeros, zeros, length-zeros,
  span,
}
use demo.Common.Alloc.{IsPlenty, Heap, M}
use demo.Rpc.Buffer.{Buffer, number, text, message, rpc_make_rsp}
use demo.Rpc.Buffer.Laws.{IsValid}
use demo.Rpc.Buffer.Macros.{Wrote, Wrote-same, rpc_make_rsp-Wrote}
use demo.Rpc.Args.{Arg, IsArg, AllArgs, feed, args_bytes, hand_over}
use demo.Rpc.Message.{counted_bytes, result_bytes}
use demo.Rpc.Reader.{Reader, rpc_parse_req_args}
use demo.Rpc.Reader.Laws.{Ahead}
use demo.Rpc.Reader.Args.{outcome, rpc_parse_req_args-feed}
use demo.Rpc.Demo.{add_s64, add, sum_handler, add_failed}

-- A number that is not negative in its type.
abbrev pub IsNatural : DataType → ℕ → Type 0
IsNatural s8 v = v < 2 ^ 7
IsNatural s16 v = v < 2 ^ 15
IsNatural s32 v = v < 2 ^ 31
IsNatural s64 v = v < 2 ^ 63
IsNatural _ v = Unit

-- Numbers, none of them negative, and what they add up to.
abbrev pub AllNumbers : List Arg → Type 0
AllNumbers [] = Unit
AllNumbers ((dt, number v) ∷ vs) = IsNatural dt v × AllNumbers vs
AllNumbers ((dt, text s) ∷ vs) = ⊥
AllNumbers ((dt, message s) ∷ vs) = ⊥

abbrev pub total : List Arg → ℕ
total [] = 0
total ((dt, number v) ∷ vs) = v + total vs
total ((dt, text s) ∷ vs) = total vs
total ((dt, message s) ∷ vs) = total vs

add_s64-plain : (a b : ℕ) (h : Heap) → a + b < 2 ^ 63 → add_s64 a b h ≡ some (a + b, h)
unfolding add_s64
add_s64-plain a b h lt =
    let wrap : (a + b) % 2 ^ 64 ≡ a + b = omega (arith, lt) in
    rw
      (
        wrap,
        lt→leb (2 ^ 63) a (omega (arith, lt)),
        lt→leb (2 ^ 63) b (omega (arith, lt)),
        lt→leb (2 ^ 63) (a + b) lt,
      )
      refl

-- A number in eight bytes.
pub eight : (w v : ℕ) → w ≤ 8 → v < span w → from_le (take 8 (le_bytes w v ++ zeros (8 - w))) ≡ v
eight w v le lt =
    let bytes = le_bytes w v ++ zeros (8 - w) in
    let size : length bytes ≤ 8 = omega (
      arith,
      length-append (le_bytes w v) (zeros (8 - w)),
      length-le_bytes w v,
      length-zeros (8 - w),
    ) in
    ap from_le (take-short 8 bytes size)
    ∙ from_le-append_zeros (le_bytes w v) (8 - w)
    ∙ from_le-le_bytes w v lt

width-le : (dt : DataType) → width dt ≤ 8
width-le dt = ground arith

hand_over-add :
    (dt : DataType) (v acc : ℕ) (h : Heap)
    → IsArg (dt, number v)
    → acc + v < 2 ^ 63
    → hand_over add (dt, number v) acc h ≡ some ((success, acc + v), h)
unfolding add
hand_over-add dt v acc h p lt =
    rw
      (
        lt→ltb 0 (width dt) p.0,
        ◌>>=◌,
        eight (width dt) v (width-le dt) p.1,
        add_s64-plain acc v h lt,
      )
      refl

-- The arguments are added up.
feed-add :
    (vs : List Arg) (i acc : ℕ) (h : Heap)
    → AllArgs vs
    → AllNumbers vs
    → acc + total vs < 2 ^ 63
    → feed add vs i acc h ≡ some ((success, acc + total vs), h)
unfolding feed
feed-add [] i acc h q k lt = ap (λ n. some ((success, n), h)) (omega arith)
feed-add ((dt, number v) ∷ vs) i acc h q k lt =
    rw (◌>>=◌, hand_over-add dt v acc h q.0 (omega arith))
      (feed-add vs (i + 1) (acc + v) h q.1 k.1 (omega arith)
        ∙ ap (λ n. some ((success, n), h)) (omega arith))
feed-add ((dt, text s) ∷ vs) i acc h q k lt = absurd k
feed-add ((dt, message s) ∷ vs) i acc h q k lt = absurd k

-- The answer of `sum`.
abbrev pub sum_values : List Arg → List Arg
sum_values vs = (s64, number (total vs)) ∷ []

abbrev pub sum_answer : List Arg → List ℕ
sum_answer vs = result_bytes rpc_ok (sum_values vs)

-- What `sum_handler` does after the parsing.
abbrev respond_sum : Buffer → ℤ × ℕ → M Buffer
respond_sum buf (res, result) =
    if is_nonzero res
    then rpc_make_rsp buf rpc_err ((s8cp, text add_failed) ∷ [])
    else rpc_make_rsp buf rpc_ok ((s64, number result) ∷ [])

sum_handler-feed :
    (vs : List Arg) (r : Reader) (buf : Buffer) (h : Heap)
    → AllArgs vs
    → length vs < 256
    → Ahead r (counted_bytes vs)
    → sum_handler r buf h ≡ (feed add vs 0 0 >>= respond_sum buf) h
unfolding sum_handler
sum_handler-feed vs r buf h q few a =
    let a' : Ahead r (le_bytes 1 (length vs) ++ (args_bytes vs ++ [])) =
      rw (append-nil (args_bytes vs)) a in
    sym (>>=-assoc (rpc_parse_req_args add r 0) (outcome add) (respond_sum buf) h)
    ∙ rw (◌>>=◌, rpc_parse_req_args-feed add vs r [] 0 h q few a') refl

module _ (vs : List Arg) (q : AllArgs vs) (k : AllNumbers vs) (lt : total vs < 2 ^ 63) where
  pub sum_values-AllArgs : AllArgs (sum_values vs)
  sum_values-AllArgs = ((omega arith, omega (arith, lt)), tt)

  zero_add : 0 + total vs ≡ total vs
  zero_add = omega arith

  -- `sum_handler` answers with what its arguments add up to.
  pub sum_handler-Wrote :
      (r : Reader) (buf : Buffer) (h : Heap)
      → length vs < 256
      → IsPlenty h
      → IsValid buf
      → length buf.bytes < 2 ^ 63
      → Ahead r (counted_bytes vs)
      → Wrote h buf (sum_answer vs) (sum_handler r buf h)
  sum_handler-Wrote r buf h few plenty valid small a =
      Wrote-same h buf (sum_answer vs)
        (sum_handler-feed vs r buf h q few a
          ∙ rw (◌>>=◌, feed-add vs 0 0 h q k (omega arith))
              (ap (λ n. respond_sum buf (success, n) h) zero_add))
        (rpc_make_rsp-Wrote buf h rpc_ok (sum_values vs) plenty valid sum_values-AllArgs
          (omega (arith, small)))
