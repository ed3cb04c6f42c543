-- ===== src/Rpc/Server/Cut.antt =====
-- A call whose message breaks off.
use demo.Common.{
  ℕ, zero, suc, ◌+◌, ◌-◌, ◌^◌, ◌≤◌, ◌<◌, ◌≡◌, refl, arith, ap, sym, ◌∙◌, List, [], ◌++◌, length,
  length-append, append-nil, Option, none, some, ◌==◌, eq→==, ne→==, Bool-cases, ==→eq, ==→ne, inl,
  inr,
}
use demo.Common.Effect.{◌>>=◌}
use demo.Common.Alloc.{Heap, IsPlenty, malloc_grants, free_one}
use demo.Rpc.{magic_num, max_msg_len}
use demo.Rpc.Message.{word}
use demo.Rpc.Net.{Net, read_sock-read}
use demo.Rpc.Net.Read.{read_loop, read_sock_until}
use demo.Rpc.Net.Stream.{Stream, Whole}
use demo.Rpc.Server.{Table, hang_up, received, receive, handle_client}
use demo.Rpc.Server.Ended.{one_more, Ended}
use demo.Rpc.Server.Header.{handle_client-receive}

module _ (net : Net) (st : Stream net) where
  open net use {Sock, read}

  -- The read failed, and nothing was written.
  pub record Failed (s : Sock) (result : Option (List ℕ) × Sock) : Type 0 where
    pub sock : Sock
    pub returns : result ≡ (none, sock)
    pub quiet : st.outgoing sock ≡ st.outgoing s

  -- A round in which bytes come, before a read that fails.
  round_none :
      (rounds n : ℕ) (s : Sock)
      → 0 < n
      → n < 2 ^ 31
      → 0 < length (read n s).0
      → Failed (read n s).1 (read_loop net rounds (n - length (read n s).0) (read n s).1)
      → Failed s (read_loop net (suc rounds) n s)
  unfolding read_loop
  round_none rounds n s lt few come f = record {
    sock = f.sock;
    returns =
        rw
          (
            read_sock-read net n s few,
            ne→== n 0 (λ z. absurd (omega arith)),
            ne→== (length (read n s).0) 0 (λ z. absurd (omega arith)),
            f.returns,
          )
          refl;
    quiet = f.quiet ∙ st.read_quiet n s;
  }

  round_stop :
      (rounds n : ℕ) (s : Sock)
      → 0 < n
      → n < 2 ^ 31
      → length (read n s).0 ≡ 0
      → Failed s (read_loop net (suc rounds) n s)
  unfolding read_loop
  round_stop rounds n s lt few e = record {
    sock = (read n s).1;
    returns =
        rw
          (
            read_sock-read net n s few,
            ne→== n 0 (λ z. absurd (omega arith)),
            eq→== (length (read n s).0) 0 e,
          )
          refl;
    quiet = st.read_quiet n s;
  }

  read_loop-Failed :
      (rounds n : ℕ) (s : Sock)
      → n ≤ rounds
      → n < 2 ^ 31
      → length (st.incoming s) < n
      → Failed s (read_loop net rounds n s)
  read_loop-Failed zero n s le few lt = absurd (omega arith)
  read_loop-Failed (suc rounds) n s le few lt =
      let got = (read n s).0 in
      let left : length (st.incoming s) ≡ length got + length (st.incoming (read n s).1) =
        ap length (st.read_front n s) ∙ length-append got (st.incoming (read n s).1) in
      elim (Bool-cases (length got == 0)) [
        | inl e ↦ round_stop rounds n s (omega arith) few (==→eq (length got) 0 e)
        | inr e ↦
            let some_bytes = ==→ne (length got) 0 e in
            round_none rounds n s (omega arith) few (omega (arith, some_bytes)) (
              read_loop-Failed rounds (n - length got) (read n s).1 (omega (arith, some_bytes, le))
                (omega (arith, few)) (omega (arith, left, lt)))
      ]

  read_sock_until-Failed :
      (n : ℕ) (s : Sock)
      → n < 2 ^ 31
      → length (st.incoming s) < n
      → Failed s (read_sock_until net n s)
  unfolding read_sock_until
  read_sock_until-Failed n s few lt = read_loop-Failed n n s (omega arith) few lt

module _ (net : Net) (st : Stream net) (whole : Whole net st) (table : Table) where
  open net use {Sock, close}

  receive-none :
      (sn len : ℕ) (s s' : Sock) (h : Heap)
      → IsPlenty h
      → read_sock_until net len s ≡ (none, s')
      → receive net table sn len s h ≡ some (close s', record (one_more h) { live = h.live })
  unfolding receive hang_up
  receive-none sn len s s' h plenty got =
      rw (◌>>=◌, malloc_grants h plenty) refl
      ∙ ap (λ (x : Option (List ℕ) × Sock). received net table sn x.0 x.1 (one_more h)) got
      ∙ rw (◌>>=◌, free_one (one_more h) h.live refl) refl

  -- A call whose header is right and whose message breaks off is given up, where memory is granted and
  -- each word of the header comes in one piece: nothing is written, the connection is closed, and the memory for the message is given back.
  pub handle_client-cut :
      (sn len : ℕ) (part : List ℕ) (s : Sock) (h : Heap)
      → sn < 2 ^ 32
      → len ≤ max_msg_len
      → length part < len
      → IsPlenty h
      → st.incoming s ≡ word magic_num ++ (word sn ++ (word len ++ part))
      → Ended net st table s [] h.live (handle_client net table s h)
  handle_client-cut sn len part s h sn_lt le short plenty e =
      let (s1, first, a) =
        handle_client-receive net st whole table sn len s part sn_lt (omega arith) le e in
      let f =
        read_sock_until-Failed net st len s1 (omega (arith, le))
          (omega (arith, ap length a.left, short)) in
      record {
        sock = close f.sock;
        heap = record (one_more h) { live = h.live };
        returns = first h ∙ receive-none sn len s1 f.sock h plenty f.returns;
        out = st.close_quiet f.sock ∙ f.quiet ∙ a.quiet ∙ sym (append-nil (st.outgoing s));
        shut = st.closes f.sock;
        freed = refl;
      }
