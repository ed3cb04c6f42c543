-- ===== src/Rpc/Client/Laws.antt =====
-- An answer as the client reads it, and a call as the client sends it.
use demo.Common.{
  ℕ, suc, ◌+◌, ◌^◌, ◌<◌, ◌≡◌, refl, arith, ap, sym, ◌∙◌, Bool, true, List, [], ◌++◌, length,
  append_assoc, append-nil, Option, some, ◌==◌, eq→==,
}
use demo.Common.Int.{ℤ}
use demo.Common.Effect.{pure, ◌>>=◌, ◌>>◌, >>=-assoc}
use demo.Rpc.{magic_num}
use demo.Rpc.Bytes.{le_bytes, from_le, from_le-le_bytes}
use demo.Common.Alloc.{IsPlenty, malloc_grants, free_one, Heap, M, free}
use demo.Rpc.Buffer.{Buffer, buffer_free}
use demo.Rpc.Args.{Arg, AllArgs, feed, args_bytes}
use demo.Rpc.Reader.{Reader, reader_init, reader_read_uint8, rpc_parse_req_args}
use demo.Rpc.Reader.Laws.{Ahead, advance, reader_init-Ahead, advance-Ahead, reader_read_bytes-some}
use demo.Rpc.Reader.Args.{outcome, rpc_parse_req_args-feed}
use demo.Rpc.Net.{Net, write_sock, write_sock-write}
use demo.Rpc.Net.Stream.{Stream, Whole, After, After-then, rpc_read_u32-word, read_sock_until-some}
use demo.Rpc.Net.Sent.{sent_on, word-lt}
use demo.Rpc.Server.Ended.{one_more}
use demo.Rpc.Message.{word, counted_bytes, result_bytes, framed}
use demo.Rpc.Client.{
  Obj, RpcRsp, rsp_base_data, parse_result, read_result, content, get_content, got_word, get_word,
  rpc_get_rsp, on_sock, put, call_on,
}

-- What `parse_result` does after the parsing.
abbrev finish : ℕ → ℤ × Obj → M (ℤ × RpcRsp)
finish res (ret, obj) = do free; pure (ret, record { res = res; data_of = obj })

parse_result-feed :
    (res : ℕ) (vs : List Arg) (r : Reader) (rsp : RpcRsp) (h : Heap)
    → AllArgs vs
    → length vs < 256
    → Ahead r (counted_bytes vs)
    → parse_result true res r rsp h ≡ (feed rsp_base_data vs 0 rsp.data_of >>= finish res) h
unfolding parse_result
parse_result-feed res vs r rsp h q few a =
    let a' : Ahead r (le_bytes 1 (length vs) ++ (args_bytes vs ++ [])) =
      rw (append-nil (args_bytes vs)) a in
    sym (
      >>=-assoc (rpc_parse_req_args rsp_base_data r rsp.data_of) (outcome rsp_base_data)
        (finish res) h)
    ∙ rw (◌>>=◌, rpc_parse_req_args-feed rsp_base_data vs r [] rsp.data_of h q few a') refl

read_result-feed :
    (res : ℕ) (vs : List Arg) (rsp : RpcRsp) (h : Heap)
    → res < 256
    → AllArgs vs
    → length vs < 256
    → length (args_bytes vs) < 2 ^ 32
    → read_result true (result_bytes res vs) rsp h
      ≡ (feed rsp_base_data vs 0 rsp.data_of >>= finish res) h
unfolding read_result reader_read_uint8
read_result-feed res vs rsp h lt q few small =
    let msg = result_bytes res vs in
    let r = reader_init msg (length msg) in
    let a = reader_init-Ahead msg (omega arith) in
    let a' = advance-Ahead r (le_bytes 1 res) (counted_bytes vs) a 1 refl in
    let read = reader_read_bytes-some r (le_bytes 1 res) (counted_bytes vs) a 1 h refl in
    let value : from_le (le_bytes 1 res) ≡ res = from_le-le_bytes 1 res (omega arith) in
    rw (◌>>=◌, read)
      (ap (λ n. parse_result true n (advance r 1) rsp h) value
        ∙ parse_result-feed res vs (advance r 1) rsp h q few a')

module _ (net : Net) (st : Stream net) (whole : Whole net st) where
  open net use {Sock, read, write, close}

  -- The result of a call with the socket it came from.
  abbrev pub Got : Type 0
  Got = (ℤ × RpcRsp) × Sock

  get_word-next :
      (sock : Sock) (v : ℕ) (rest : List ℕ)
      → v < 2 ^ 32
      → st.incoming sock ≡ word v ++ rest
      → (sock' : Sock) × ((rsp : RpcRsp) (next : ℕ → Sock → M Got) (h : Heap)
          → get_word net sock rsp next h ≡ next v sock' h)
        × After net st sock rest sock'
  unfolding get_word
  get_word-next sock v rest lt e =
      let (sock', got, after) = rpc_read_u32-word net st whole sock v rest lt e in
      (
        sock',
        (λ rsp next h. ap (λ (x : Option ℕ × Sock). got_word net x.0 x.1 rsp next h) got),
        after,
      )

  get_content-content :
      (same : Bool) (sock : Sock) (msg rest : List ℕ) (rsp : RpcRsp) (h : Heap)
      → IsPlenty h
      → length msg < 2 ^ 31
      → st.incoming sock ≡ msg ++ rest
      → (sock' : Sock) × (get_content net same (length msg) sock rsp h
          ≡ (read_result same msg rsp >>= λ result. pure (on_sock sock' result)) (one_more h))
        × After net st sock rest sock'
  unfolding get_content
  get_content-content same sock msg rest rsp h plenty lt e =
      let (sock', got, after) = read_sock_until-some net st sock msg rest lt e in
      (
        sock',
        rw (◌>>=◌, malloc_grants h plenty) refl
            ∙ ap (λ (x : Option (List ℕ) × Sock). content net same x.0 x.1 rsp (one_more h)) got,
        after,
      )

  rpc_get_rsp-content :
      (sn required : ℕ) (msg rest : List ℕ) (sock : Sock) (rsp : RpcRsp) (h : Heap)
      → sn < 2 ^ 32
      → length msg < 2 ^ 31
      → IsPlenty h
      → st.incoming sock ≡ word magic_num ++ (word sn ++ (word (length msg) ++ (msg ++ rest)))
      → (sock' : Sock) × (rpc_get_rsp net sock rsp required h
          ≡ (read_result (required == sn) msg rsp >>= λ result. pure (on_sock sock' result))
              (one_more h))
        × After net st sock rest sock'
  unfolding rpc_get_rsp
  rpc_get_rsp-content sn required msg rest sock rsp h sn_lt lt plenty e =
      let (s1, first, a1) =
        get_word-next sock magic_num (word sn ++ (word (length msg) ++ (msg ++ rest))) (omega arith)
          e in
      let (s2, second, a2) =
        get_word-next s1 sn (word (length msg) ++ (msg ++ rest)) sn_lt a1.left in
      let (s3, third, a3) =
        get_word-next s2 (length msg) (msg ++ rest) (omega (arith, lt)) a2.left in
      let (s4, fourth, a4) =
        get_content-content (required == sn) s3 msg rest rsp h plenty lt a3.left in
      (
        s4,
        first rsp _ h ∙ second rsp _ h ∙ third rsp _ h ∙ fourth,
        After-then net st (After-then net st a1 a2) (After-then net st a3 a4),
      )

  -- What the parsing of an answer came to, as the result of `rpc_get_rsp`.
  kept :
      (res : ℕ) (vs : List Arg) (rsp : RpcRsp) (sock : Sock) (h h2 : Heap) (ret : ℤ) (obj : Obj)
      (live : ℕ)
      → feed rsp_base_data vs 0 rsp.data_of h ≡ some ((ret, obj), h2)
      → h2.live ≡ suc live
      → ((feed rsp_base_data vs 0 rsp.data_of >>= finish res) >>= λ result.
            pure (on_sock sock result))
          h
        ≡ some (((ret, record { res = res; data_of = obj }), sock), record h2 { live = live })
  kept res vs rsp sock h h2 ret obj live e one = rw (◌>>=◌, e, free_one h2 live one) refl

  -- An answer to the call is read whole and its values are taken over; the message's memory is given
  -- back.
  pub rpc_get_rsp-result :
      (sn res : ℕ) (vs : List Arg) (rest : List ℕ) (sock : Sock) (rsp : RpcRsp) (h h2 : Heap)
      (ret : ℤ) (obj : Obj) (live : ℕ)
      → sn < 2 ^ 32
      → res < 256
      → AllArgs vs
      → length vs < 256
      → length (result_bytes res vs) < 2 ^ 31
      → IsPlenty h
      → st.incoming sock ≡ framed sn (result_bytes res vs) ++ rest
      → feed rsp_base_data vs 0 rsp.data_of (one_more h) ≡ some ((ret, obj), h2)
      → h2.live ≡ suc live
      → (sock' : Sock) × (rpc_get_rsp net sock rsp sn h
          ≡ some (((ret, record { res = res; data_of = obj }), sock'), record h2 { live = live }))
        × After net st sock rest sock'
  unfolding framed
  rpc_get_rsp-result sn res vs rest sock rsp h h2 ret obj live sn_lt lt q few small plenty e fed
        one =
      let msg = result_bytes res vs in
      let (sock', got, after) =
        rpc_get_rsp-content sn sn msg rest sock rsp h sn_lt small plenty
          (e ∙ rw append_assoc refl) in
      (
        sock',
        got
            ∙ rw
                (
                  eq→== sn sn refl,
                  ◌>>=◌,
                  read_result-feed res vs rsp (one_more h) lt q few (omega (arith, small)),
                )
                refl
            ∙ kept res vs rsp sock' (one_more h) h2 ret obj live fed one,
        after,
      )

  put-next :
      (bytes : List ℕ) (buf : Buffer) (sock : Sock) (rsp : RpcRsp) (next : Sock → M Got) (h : Heap)
      → length bytes < 2 ^ 31
      → put net bytes buf sock rsp next h ≡ next (write_sock net bytes sock).1 h
  unfolding put
  put-next bytes buf sock rsp next h few =
      let count =
        ap (λ (x : ℕ × Sock). x.0) (write_sock-write net bytes sock few)
        ∙ whole.write_count bytes sock in
      rw (eq→== (write_sock net bytes sock).0 (length bytes) count) refl

  -- A call on a connection: the request goes out with its header, the buffer is given back, the answer
  -- is what `rpc_get_rsp` makes of it, and the connection is closed.
  pub call_on-sent :
      (sn : ℕ) (buf : Buffer) (sock : Sock) (rsp : RpcRsp) (h : Heap) (live : ℕ)
      → h.live ≡ live + 2
      → length buf.bytes < 2 ^ 31
      → call_on net sn buf sock rsp h
        ≡ (rpc_get_rsp net (sent_on net sn buf.bytes sock) rsp sn >>= λ x. pure (x.0, close x.1))
            (record h { live = live })
  unfolding call_on buffer_free sent_on
  call_on-sent sn buf sock rsp h live two few =
      let s1 = (write_sock net (word magic_num) sock).1 in
      let s2 = (write_sock net (word sn) s1).1 in
      let s3 = (write_sock net (word (length buf.bytes)) s2).1 in
      put-next (word magic_num) buf sock rsp _ h (word-lt magic_num)
      ∙ put-next (word sn) buf s1 rsp _ h (word-lt sn)
      ∙ put-next (word (length buf.bytes)) buf s2 rsp _ h (word-lt (length buf.bytes))
      ∙ put-next buf.bytes buf s3 rsp _ h few
      ∙ rw
          (
            ◌>>=◌,
            free_one h (live + 1) (omega (arith, two)),
            free_one (record h { live = live + 1 }) live (omega arith),
          )
          refl
