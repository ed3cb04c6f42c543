-- ===== src/Rpc/Demo/Exchange.antt =====
-- A call of `sum` from its request to the result that the client is given.
use demo.Common.{
  ℕ, ◌+◌, ◌^◌, ◌<◌, ◌≡◌, refl, arith, ap, ◌∙◌, List, [], ◌∷◌, ◌++◌, length, Option, some,
}
use demo.Rpc.{s64, success, rpc_ok}
use demo.Rpc.Bytes.{IsText}
use demo.Common.Alloc.{IsPlenty, Heap}
use demo.Rpc.Buffer.{Buffer, number}
use demo.Rpc.Buffer.Macros.{Wrote, Wrote-same, empty_buffer, two_more}
use demo.Rpc.Args.{Arg, AllArgs, feed}
use demo.Rpc.Message.{counted_bytes, call_message, framed}
use demo.Rpc.Net.{Net}
use demo.Rpc.Net.Stream.{Stream, Whole}
use demo.Rpc.Server.{find_handler, answer, handle_client, rpc_server_register}
use demo.Rpc.Server.Ended.{one_more, Ended}
use demo.Rpc.Server.Call.{at_args, at_args-Ahead, handle_client-Ended}
use demo.Rpc.Client.{Obj, RpcRsp, ll, rsp_base_data, call_on}
use demo.Rpc.Client.Call.{Called, with_live, call_on-Called}
use demo.Rpc.Demo.{ReqLogin, server, sum_name, sum_handler}
use demo.Rpc.Demo.Sum.{
  AllNumbers, total, eight, sum_values, sum_answer, sum_values-AllArgs, sum_handler-Wrote,
}

find-sum :
    (unpack : List ℕ → Option ReqLogin) → find_handler (server unpack) sum_name ≡ some sum_handler
unfolding find_handler server rpc_server_register
find-sum unpack = refl

sum-IsText : IsText sum_name
sum-IsText =
    ((λ e. absurd (omega arith)), ((λ e. absurd (omega arith)), ((λ e. absurd (omega arith)), tt)))

-- The client takes the number of the answer over.
feed-total :
    (n : ℕ) (obj : Obj) (h : Heap)
    → n < 2 ^ 63
    → feed rsp_base_data ((s64, number n) ∷ []) 0 obj h
      ≡ some ((success, record { type = s64; v = ll n }), h)
unfolding feed rsp_base_data
feed-total n obj h lt =
    ap (λ v. some ((success, record { type = s64; v = ll v }), h))
      (eight 8 n (omega arith) (omega (arith, lt)))

-- What the client is given.
abbrev pub sum_result : List Arg → RpcRsp
sum_result vs = record { res = rpc_ok; data_of = record { type = s64; v = ll (total vs) } }

module _ (net : Net) (st : Stream net) (whole : Whole net st)
    (unpack : List ℕ → Option ReqLogin) where
  open net use {Sock}

  -- The answer that the function makes, in the server's buffer.
  sum_answer-Wrote :
      (vs : List Arg) (h : Heap)
      → AllArgs vs
      → AllNumbers vs
      → total vs < 2 ^ 63
      → length vs < 256
      → length (counted_bytes vs) < 65000
      → IsPlenty h
      → Wrote h (empty_buffer 256) (sum_answer vs) (
          answer
            (find_handler (server unpack) sum_name)
            (at_args sum_name (counted_bytes vs))
            (empty_buffer 256)
            h)
  unfolding answer
  sum_answer-Wrote vs h q k lt few small plenty =
      Wrote-same h (empty_buffer 256) (sum_answer vs)
        (ap (λ f. answer f (at_args sum_name (counted_bytes vs)) (empty_buffer 256) h)
          (find-sum unpack))
        (sum_handler-Wrote vs q k lt (at_args sum_name (counted_bytes vs)) (empty_buffer 256) h few
          plenty (record { fits = omega arith }) (omega arith)
          (at_args-Ahead net st whole (server unpack) sum_name (counted_bytes vs) sum-IsText
            (omega arith) (omega (arith, small))))

  sum-Ended :
      (vs : List Arg) (sn : ℕ) (s : Sock) (rest : List ℕ) (h : Heap)
      → AllArgs vs
      → AllNumbers vs
      → total vs < 2 ^ 63
      → length vs < 256
      → length (counted_bytes vs) < 65000
      → sn < 2 ^ 32
      → IsPlenty h
      → st.incoming s ≡ framed sn (call_message sum_name (counted_bytes vs)) ++ rest
      → Ended net st
          (server unpack)
          s
          (framed sn (sum_answer vs))
          h.live
          (handle_client net (server unpack) s h)
  sum-Ended vs sn s rest h q k lt few small sn_lt plenty e =
      let h3 = two_more (one_more h) in
      let plenty3 : IsPlenty h3 = record { plenty = plenty.plenty } in
      let w = sum_answer-Wrote vs h3 q k lt few small plenty3 in
      let ended =
        handle_client-Ended net st whole (server unpack) sn sum_name (counted_bytes vs) rest s h
          w.heap w.buffer h.live sn_lt sum-IsText (omega arith) small plenty e w.returns
          (omega (arith, w.live)) (omega (arith, ap length w.bytes)) in
      rw (← w.bytes) ended

  -- A call of `sum`. Where the server reads what the client wrote and the client reads what the
  -- server wrote, the client is given `RPC_OK` and the sum of its arguments, both connections are
  -- closed, and all memory is given back; for at most 255 arguments, all numbers that are not negative,
  -- of less than 65000 bytes and a sum below 2^63, where memory is granted on both sides, each word of a
  -- header comes in one piece and each write goes out whole.
  pub sum-exchange :
      (vs : List Arg) (sn : ℕ) (s c : Sock) (buf : Buffer) (rsp : RpcRsp) (h hc : Heap)
      (rest rest' : List ℕ) (live : ℕ)
      → AllArgs vs
      → AllNumbers vs
      → total vs < 2 ^ 63
      → length vs < 256
      → length (counted_bytes vs) < 65000
      → sn < 2 ^ 32
      → IsPlenty h
      → IsPlenty hc
      → buf.bytes ≡ call_message sum_name (counted_bytes vs)
      → hc.live ≡ live + 2
      → st.incoming s ≡ framed sn buf.bytes ++ rest
      → st.incoming c ≡ framed sn (sum_answer vs) ++ rest'
      → Ended net st
          (server unpack)
          s
          (framed sn (sum_answer vs))
          h.live
          (handle_client net (server unpack) s h)
        × Called net st c
            (framed sn buf.bytes)
            success
            (sum_result vs)
            live
            (call_on net sn buf c rsp hc)
  sum-exchange vs sn s c buf rsp h hc rest rest' live q k lt few small sn_lt plenty plenty' e two es
        ec =
      (
        sum-Ended vs sn s rest h q k lt few small sn_lt plenty
            (es ∙ ap (λ bs. framed sn bs ++ rest) e),
        call_on-Called net st whole sn rpc_ok (sum_values vs) rest' buf c rsp hc
            (one_more (with_live hc live)) success (sum_result vs).data_of live live sn_lt
            (omega arith) (sum_values-AllArgs vs q k lt) (omega arith) (omega arith) plenty' two
            (omega (arith, ap length e)) ec
            (feed-total (total vs) rsp.data_of (one_more (with_live hc live)) lt) refl,
      )
