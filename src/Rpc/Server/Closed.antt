-- ===== src/Rpc/Server/Closed.antt =====
-- How `handle_client` leaves a connection, whatever comes on it.
use demo.Common.{
  ℕ, suc, ◌≡◌, refl, true, false, List, [], ◌∷◌, ◌++◌, ltb, leb, ◌==◌, ◌||◌, not, length, Option,
  none, some,
}
use demo.Common.Effect.{Holds, >>=-Holds, ◌>>=◌, pure}
use demo.Common.Alloc.{Heap, M, malloc, free}
use demo.Rpc.Bytes.{from_le, c_string}
use demo.Rpc.{magic_num, max_msg_len, max_func_name_len}
use demo.Rpc.Buffer.{Buffer, buffer_new, buffer_free}
use demo.Rpc.Reader.{Reader, reader_init, reader_read_bytes}
use demo.Rpc.Net.{Net}
use demo.Rpc.Net.Read.{rpc_read_u32, read_sock_until}
use demo.Rpc.Net.Stream.{Stream}
use demo.Rpc.Server.{
  Table, find_handler, answer, hang_up, send_answer, respond, serve_name, serve, received, receive,
  word_read, header_word, header_length, handle_client,
}
use demo.Rpc.Server.Balance.{
  Live, free-Live, Granted, malloc-Granted, Made, buffer_new-Made, if-Holds, granted-Holds,
  some-Holds, made-Holds, reader_read_bytes-Live, find_handler-Found, answer-Live, AllThrifty,
}

module _ (net : Net) (st : Stream net) (table : Table) where
  open net use {Sock, close}

  -- Closed, with as many blocks as `live`.
  abbrev pub Closed : ℕ → Sock → Heap → Type 0
  Closed live s h = (st.closed s ≡ true) × (h.live ≡ live)

  hang_up_free :
      (s : Sock) (live : ℕ) (h : Heap)
      → h.live ≡ suc live
      → Holds (Closed live) (hang_up net table true s h)
  unfolding hang_up
  hang_up_free s live h e =
      >>=-Holds free (λ _. pure (close s)) (Live live) (Closed live) h (free-Live h live e)
        (λ _ h' e'. (st.closes s, e'))

  hang_up_only :
      (s : Sock) (live : ℕ) (h : Heap)
      → h.live ≡ live
      → Holds (Closed live) (hang_up net table false s h)
  unfolding hang_up
  hang_up_only s live h e = (st.closes s, e)

  -- The functions of the table keep no memory.
  module _ (thrifty : AllThrifty table) where
    -- From the call of the function on.
    answered-Closed :
        (sn : ℕ) (name : List ℕ) (r : Reader) (s : Sock) (live : ℕ) (out0 : Buffer) (h : Heap)
        → h.live ≡ suc (suc (suc live))
        → Holds (Closed live) (
            (answer (find_handler table name) r out0 >>= λ out. free >>= λ _.
            (free >>= λ _. free) >>= λ _. pure (close (send_answer net table sn out.bytes s)))
              h)
    answered-Closed sn name r s live out0 h p =
        >>=-Holds (answer (find_handler table name) r out0) _ (Live (suc (suc (suc live))))
          (Closed live) h
          (answer-Live (find_handler table name) r out0 (suc (suc (suc live))) h
            (find_handler-Found table name thrifty) p)
          (λ out h1 e.
            >>=-Holds free _ (Live (suc (suc live))) (Closed live) h1
              (free-Live h1 (suc (suc live)) e)
              (λ _ h2 e2.
                >>=-Holds (free >>= λ _. free) _ (Live live) (Closed live) h2
                  (>>=-Holds free _ (Live (suc live)) (Live live) h2 (free-Live h2 (suc live) e2)
                    (λ _ h3 e3. free-Live h3 live e3))
                  (λ _ h4 e4. (st.closes (send_answer net table sn out.bytes s), e4))))

    respond-Closed :
        (sn : ℕ) (name : List ℕ) (r : Reader) (s : Sock) (live : ℕ) (h : Heap)
        → h.live ≡ suc live
        → Holds (Closed live) (respond net table sn name r s h)
    unfolding respond buffer_free
    respond-Closed sn name r s live h e =
        >>=-Holds (buffer_new 256) _ (Made (suc live)) (Closed live) h
          (buffer_new-Made 256 (suc live) h e)
          (λ b h1 p.
            made-Holds (Closed live) b (suc live) _ h1 p
              (λ out0 l. answered-Closed sn name r s live out0 h1 l))

    serve_name-Closed :
        (sn size : ℕ) (r : Reader) (s : Sock) (live : ℕ) (h : Heap)
        → h.live ≡ suc live
        → Holds (Closed live) (serve_name net table sn size r s h)
    unfolding serve_name
    serve_name-Closed sn size r s live h e =
        if-Holds (Closed live) (leb max_func_name_len size) _ _ h (λ long. hang_up_free s live h e)
          (λ fits.
            >>=-Holds (reader_read_bytes r size) _ (Live (suc live)) (Closed live) h
              (reader_read_bytes-Live r size (suc live) h e)
              (λ got h1 e1.
                some-Holds (Closed live) got.0 _ _ h1 (hang_up_free s live h1 e1)
                  (λ bs. respond-Closed sn (c_string (bs ++ (0 ∷ []))) got.1 s live h1 e1)))

    serve-Closed :
        (sn : ℕ) (msg : List ℕ) (s : Sock) (live : ℕ) (h : Heap)
        → h.live ≡ suc live
        → Holds (Closed live) (serve net table sn msg s h)
    unfolding serve
    serve-Closed sn msg s live h e =
        >>=-Holds (reader_read_bytes (reader_init msg (length msg)) 2) _ (Live (suc live))
          (Closed live) h (reader_read_bytes-Live _ 2 (suc live) h e)
          (λ got h1 e1.
            some-Holds (Closed live) got.0 _ _ h1 (hang_up_free s live h1 e1)
              (λ bs. serve_name-Closed sn (from_le bs) got.1 s live h1 e1))

    received-Closed :
        (sn : ℕ) (got : Option (List ℕ)) (s : Sock) (live : ℕ) (h : Heap)
        → h.live ≡ suc live
        → Holds (Closed live) (received net table sn got s h)
    received-Closed sn none s live h e = hang_up_free s live h e
    received-Closed sn (some msg) s live h e = serve-Closed sn msg s live h e

    receive-Closed :
        (sn len : ℕ) (s : Sock) (h : Heap) → Holds (Closed h.live) (receive net table sn len s h)
    unfolding receive
    receive-Closed sn len s h =
        >>=-Holds malloc _ (Granted h.live) (Closed h.live) h (malloc-Granted h.live h refl)
          (λ b h1 p.
            granted-Holds (Closed h.live) b h.live _ _ h1 p (λ l. hang_up_only s h.live h1 l)
              (λ l.
                received-Closed sn (read_sock_until net len s).0 (read_sock_until net len s).1
                  h.live h1 l))

    header_word-Closed :
        (s : Sock) (next : ℕ → Sock → M Sock) (h : Heap)
        → ((v : ℕ) (s' : Sock) → Holds (Closed h.live) (next v s' h))
        → Holds (Closed h.live) (header_word net table s next h)
    unfolding header_word
    header_word-Closed s next h rest = on (rpc_read_u32 net s).0 (rpc_read_u32 net s).1
      where
        on : (v : Option ℕ) (s' : Sock) → Holds (Closed h.live) (word_read net table v s' next h)
        on none s' = hang_up_only s' h.live h refl
        on (some v) s' = rest v s'

    -- Whatever bytes come, in whatever pieces, and whichever allocations and writes fail: unless
    -- `handle_client` faults, it closes the connection and holds as many blocks of memory as before, if
    -- the functions of the table keep none.
    pub handle_client-Closed :
        (s : Sock) (h : Heap) → Holds (Closed h.live) (handle_client net table s h)
    unfolding handle_client header_length
    handle_client-Closed s h = header_word-Closed s _ h (λ mn s1.
        if-Holds (Closed h.live) (not (mn == magic_num)) _ _ h
          (λ wrong. hang_up_only s1 h.live h refl)
          (λ right. header_word-Closed s1 _ h (λ sn s2. header_word-Closed s2 _ h (λ len s3.
            if-Holds (Closed h.live) (len == 0 || ltb max_msg_len len) _ _ h
              (λ bad. hang_up_only s3 h.live h refl) (λ good. receive-Closed sn len s3 h)))))
