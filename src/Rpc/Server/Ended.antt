-- ===== src/Rpc/Server/Ended.antt =====
-- How a connection to the server ends.
use demo.Common.{
  ℕ, suc, ◌^◌, ◌<◌, length, ◌+◌, ◌≡◌, refl, arith, ◌∙◌, true, false, List, ◌++◌, Option, some,
}
use demo.Common.Effect.{◌>>=◌}
use demo.Common.Alloc.{IsPlenty, free_one, Heap}
use demo.Rpc.Buffer.{Buffer, buffer_free}
use demo.Rpc.Buffer.Macros.{empty_buffer, two_more, buffer_new-granted}
use demo.Rpc.Reader.{Reader}
use demo.Rpc.Net.{Net}
use demo.Rpc.Net.Stream.{Stream, Whole, After}
use demo.Rpc.Server.{Table, find_handler, answer, hang_up, send_answer, respond}
use demo.Rpc.Net.Sent.{sent_on, sent_on-outgoing}
use demo.Rpc.Message.{framed}

abbrev pub one_more : Heap → Heap
one_more h = record h { calls = suc h.calls; live = suc h.live }

module _ (net : Net) (st : Stream net) (table : Table) where
  open net use {Sock, write, close}

  -- How a connection ends: closed, with `sent` written to it.
  pub record Ended (s : Sock) (sent : List ℕ) (live : ℕ) (result : Option (Sock × Heap))
      : Type 0 where
    pub sock : Sock
    pub heap : Heap
    pub returns : result ≡ some (sock, heap)
    pub out : st.outgoing sock ≡ st.outgoing s ++ sent
    pub shut : st.closed sock ≡ true
    pub freed : heap.live ≡ live

  -- A call that is refused: nothing is written, the connection is closed, and the heap is the one
  -- before, so that no memory was asked for.
  pub record Rejected (s : Sock) (h : Heap) (result : Option (Sock × Heap)) : Type 0 where
    pub sock : Sock
    pub returns : result ≡ some (sock, h)
    pub out : st.outgoing sock ≡ st.outgoing s
    pub shut : st.closed sock ≡ true

  pub refused :
      (s s' : Sock) (rest : List ℕ) (h : Heap)
      → After net st s rest s'
      → Rejected s h (hang_up net table false s' h)
  unfolding hang_up
  refused s s' rest h a = record {
    sock = close s';
    returns = refl;
    out = st.close_quiet s' ∙ a.quiet;
    shut = st.closes s';
  }

  pub Rejected-of :
      (s : Sock) (h : Heap) {r r' : Option (Sock × Heap)}
      → r' ≡ r
      → Rejected s h r
      → Rejected s h r'
  Rejected-of s h e d = record {
    sock = d.sock;
    returns = e ∙ d.returns;
    out = d.out;
    shut = d.shut;
  }

module _ (net : Net) (st : Stream net) (whole : Whole net st) (table : Table) where
  open net use {Sock, close}

  send_answer-outgoing :
      (sn : ℕ) (out : List ℕ) (s : Sock)
      → length out < 2 ^ 31
      → st.outgoing (send_answer net table sn out s) ≡ st.outgoing s ++ framed sn out
  unfolding send_answer sent_on
  send_answer-outgoing sn out s few = sent_on-outgoing net st whole sn out s few

  -- An answer that the handler makes is sent whole, and what the server took is given back.
  pub respond-Ended :
      (sn : ℕ) (name : List ℕ) (r : Reader) (s : Sock) (h h2 : Heap) (out : Buffer) (live : ℕ)
      → IsPlenty h
      → answer (find_handler table name) r (empty_buffer 256) (two_more h) ≡ some (out, h2)
      → h2.live ≡ live + 3
      → length out.bytes < 2 ^ 31
      → Ended net st table s (framed sn out.bytes) live (respond net table sn name r s h)
  unfolding respond buffer_free
  respond-Ended sn name r s h h2 out live p e three few = record {
    sock = close (send_answer net table sn out.bytes s);
    heap = record h2 { live = live };
    returns =
        rw
          (
            ◌>>=◌,
            buffer_new-granted h 256 p,
            e,
            free_one h2 (live + 2) (omega (arith, three)),
            free_one (record h2 { live = live + 2 }) (live + 1) (omega arith),
            free_one (record h2 { live = live + 1 }) live (omega arith),
          )
          refl;
    out =
        st.close_quiet (send_answer net table sn out.bytes s)
        ∙ send_answer-outgoing sn out.bytes s few;
    shut = st.closes (send_answer net table sn out.bytes s);
    freed = refl;
  }
