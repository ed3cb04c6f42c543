-- ===== src/Rpc/Client/Call.antt =====
-- A call, from the client's side, that is answered.
use demo.Common.{ℕ, suc, ◌+◌, ◌^◌, ◌<◌, ◌≡◌, refl, ◌∙◌, true, List, ◌++◌, length, Option, some}
use demo.Common.Int.{ℤ}
use demo.Common.Effect.{pure, ◌>>=◌}
use demo.Common.Alloc.{IsPlenty, Heap, M}
use demo.Rpc.Buffer.{Buffer}
use demo.Rpc.Args.{Arg, AllArgs, feed}
use demo.Rpc.Net.{Net}
use demo.Rpc.Net.Stream.{Stream, Whole}
use demo.Rpc.Net.Sent.{sent_on, sent_on-outgoing, sent_on-incoming}
use demo.Rpc.Server.Ended.{one_more}
use demo.Rpc.Message.{result_bytes, framed}
use demo.Rpc.Client.{Obj, RpcRsp, rsp_base_data, rpc_get_rsp, call_on}
use demo.Rpc.Client.Laws.{rpc_get_rsp-result, call_on-sent}

abbrev pub with_live : Heap → ℕ → Heap
with_live h n = record h { live = n }

module _ (net : Net) (st : Stream net) where
  open net use {Sock, close}

  -- A call that was sent with its bytes `sent` and closed, with its result.
  pub record Called (s : Sock) (sent : List ℕ) (ret : ℤ) (rsp : RpcRsp) (live : ℕ)
      (result : Option (((ℤ × RpcRsp) × Sock) × Heap)) : Type 0 where
    pub sock : Sock
    pub heap : Heap
    pub returns : result ≡ some (((ret, rsp), sock), heap)
    pub out : st.outgoing sock ≡ st.outgoing s ++ sent
    pub shut : st.closed sock ≡ true
    pub freed : heap.live ≡ live

  then_close :
      (m : M ((ℤ × RpcRsp) × Sock)) (h h' : Heap) (result : ℤ × RpcRsp) (sock : Sock)
      → m h ≡ some ((result, sock), h')
      → ◌>>=◌ {B = (ℤ × RpcRsp) × Sock} m (λ x. pure (x.0, close x.1)) h
        ≡ some ((result, close sock), h')
  then_close m h h' result sock e = rw (◌>>=◌, e) refl

module _ (net : Net) (st : Stream net) (whole : Whole net st) where
  open net use {Sock, close}

  -- `rpc_call` on a connection sends the request with its header, gives the request's buffer back,
  -- takes the result and the values of the answer over and closes the connection, where memory is
  -- granted, the request and the answer have less than 2^31 bytes each, each word of the answer's header
  -- comes in one piece, each write goes out whole, and the answer to this call, of at most 255 values,
  -- is what comes.
  pub call_on-Called :
      (sn res : ℕ) (vs : List Arg) (rest : List ℕ) (buf : Buffer) (sock : Sock) (rsp : RpcRsp)
      (h h2 : Heap) (ret : ℤ) (obj : Obj) (before live : ℕ)
      → sn < 2 ^ 32
      → res < 256
      → AllArgs vs
      → length vs < 256
      → length (result_bytes res vs) < 2 ^ 31
      → IsPlenty h
      → h.live ≡ before + 2
      → length buf.bytes < 2 ^ 31
      → st.incoming sock ≡ framed sn (result_bytes res vs) ++ rest
      → feed rsp_base_data vs 0 rsp.data_of (one_more (with_live h before)) ≡ some ((ret, obj), h2)
      → h2.live ≡ suc live
      → Called net st sock
          (framed sn buf.bytes)
          ret
          (record { res = res; data_of = obj })
          live
          (call_on net sn buf sock rsp h)
  call_on-Called sn res vs rest buf sock rsp h h2 ret obj before live sn_lt lt q few small plenty
        two sendable e fed one =
      let sock1 = sent_on net sn buf.bytes sock in
      let plenty' : IsPlenty (with_live h before) = record { plenty = plenty.plenty } in
      let (sock2, got, after) =
        rpc_get_rsp-result net st whole sn res vs rest sock1 rsp (with_live h before) h2 ret obj
          live sn_lt lt q few small plenty' (sent_on-incoming net st sn buf.bytes sock ∙ e) fed
          one in
      record {
        sock = close sock2;
        heap = record h2 { live = live };
        returns =
            call_on-sent net st whole sn buf sock rsp h before two sendable
            ∙ then_close net st (rpc_get_rsp net sock1 rsp sn) (with_live h before)
                (record h2 { live = live }) (ret, record { res = res; data_of = obj }) sock2 got;
        out =
            st.close_quiet sock2
            ∙ after.quiet
            ∙ sent_on-outgoing net st whole sn buf.bytes sock sendable;
        shut = st.closes sock2;
        freed = refl;
      }
