-- ===== src/Rpc/Server/Call.antt =====
-- A call that the server answers, from the first byte of its request to the last byte of the answer.
use demo.Common.{
  ℕ, ◌+◌, ◌^◌, ◌<◌, ◌≡◌, refl, arith, ap, ◌∙◌, List, [], ◌++◌, length, append_assoc, length-append,
  Option, some, lt→leb,
}
use demo.Common.Effect.{◌>>=◌}
use demo.Rpc.Bytes.{le_bytes, from_le, from_le-le_bytes, IsText, c_string-append}
use demo.Common.Alloc.{IsPlenty, malloc_grants, Heap}
use demo.Rpc.Buffer.{Buffer}
use demo.Rpc.Buffer.Macros.{empty_buffer, two_more}
use demo.Rpc.Reader.{Reader, reader_init}
use demo.Rpc.Reader.Laws.{Ahead, advance, reader_init-Ahead, advance-Ahead, reader_read_bytes-some}
use demo.Rpc.Net.{Net}
use demo.Rpc.Net.Read.{read_sock_until}
use demo.Rpc.Net.Stream.{Stream, Whole, After, read_sock_until-some}
use demo.Rpc.Server.{
  Table, find_handler, answer, respond, serve_name, serve, receive, received, handle_client,
}
use demo.Rpc.Message.{call_message, framed}
use demo.Rpc.Server.Ended.{one_more, Ended, respond-Ended}
use demo.Rpc.Server.Header.{handle_client-receive}

-- The reader that the function is given: it stands at the arguments.
abbrev pub at_args : List ℕ → List ℕ → Reader
at_args name args =
    let msg = call_message name args in
    advance (advance (reader_init msg (length msg)) 2) (length name)

module _ (net : Net) (st : Stream net) (whole : Whole net st) (table : Table) where
  open net use {Sock, write, close}

  -- What is left to do for a request whose message has come.
  module _ (name args : List ℕ) (p : IsText name) (few : length name < 256)
      (small : length args < 65536) where
    abbrev request : List ℕ
    request = call_message name args

    abbrev r0 : Reader
    r0 = reader_init request (length request)

    request-small : length request < 2 ^ 31
    request-small = omega (
      arith,
      length-append (le_bytes 2 (length name)) (name ++ args),
      length-append name args,
      few,
      small,
    )

    request-Ahead : Ahead r0 request
    request-Ahead = reader_init-Ahead request (
        omega
          (arith, length-append (le_bytes 2 (length name)) (name ++ args), length-append name args))

    name-Ahead : Ahead (advance r0 2) (name ++ args)
    name-Ahead = advance-Ahead r0 (le_bytes 2 (length name)) (name ++ args) request-Ahead 2 refl

    pub at_args-Ahead : Ahead (at_args name args) args
    at_args-Ahead = advance-Ahead (advance r0 2) name args name-Ahead (length name) refl

    serve_name-respond :
        (sn : ℕ) (s : Sock) (h : Heap)
        → serve_name net table sn (length name) (advance r0 2) s h
          ≡ respond net table sn name (at_args name args) s h
    unfolding serve_name
    serve_name-respond sn s h =
        rw
          (
            lt→leb 256 (length name) few,
            ◌>>=◌,
            reader_read_bytes-some (advance r0 2) name args name-Ahead (length name) h refl,
            c_string-append name [] p,
          )
          refl

    serve-respond :
        (sn : ℕ) (s : Sock) (h : Heap)
        → serve net table sn request s h ≡ respond net table sn name (at_args name args) s h
    unfolding serve
    serve-respond sn s h =
        let r = reader_init request (length request) in
        let size : from_le (le_bytes 2 (length name)) ≡ length name =
          from_le-le_bytes 2 (length name) (omega (arith, few)) in
        rw
          (
            ◌>>=◌,
            reader_read_bytes-some r (le_bytes 2 (length name)) (name ++ args) request-Ahead 2 h
                refl,
          )
          (ap (λ n. serve_name net table sn n (advance r 2) s h) size ∙ serve_name-respond sn s h)

    receive-serve :
        (sn : ℕ) (s s' : Sock) (h : Heap)
        → IsPlenty h
        → read_sock_until net (length request) s ≡ (some request, s')
        → receive net table sn (length request) s h ≡ serve net table sn request s' (one_more h)
    unfolding receive
    receive-serve sn s s' h plenty got =
        rw (◌>>=◌, malloc_grants h plenty) refl
        ∙ ap (λ (x : Option (List ℕ) × Sock). received net table sn x.0 x.1 (one_more h)) got

    receive-respond :
        (sn : ℕ) (s : Sock) (rest : List ℕ) (h : Heap)
        → IsPlenty h
        → st.incoming s ≡ request ++ rest
        → (s' : Sock) × (receive net table sn (length request) s h
            ≡ respond net table sn name (at_args name args) s' (one_more h))
          × After net st s rest s'
    receive-respond sn s rest h plenty e =
        let (s', got, after) = read_sock_until-some net st s request rest request-small e in
        (s', receive-serve sn s s' h plenty got ∙ serve-respond sn s' (one_more h), after)

  -- A call is answered: what the function of its name makes of its arguments goes back under the
  -- call's number, the connection is closed, and of the server's memory no more is held than the
  -- function keeps; for a name of at most 255 bytes, none of them 0, less than 65000 bytes of
  -- arguments and less than 2^31 bytes of an answer, where memory is granted, the function returns,
  -- each word of the header comes in one piece and each write goes out whole.
  pub handle_client-Ended :
      (sn : ℕ) (name args rest : List ℕ) (s : Sock) (h h2 : Heap) (out : Buffer) (live : ℕ)
      → sn < 2 ^ 32
      → IsText name
      → length name < 256
      → length args < 65000
      → IsPlenty h
      → st.incoming s ≡ framed sn (call_message name args) ++ rest
      → answer
          (find_handler table name)
          (at_args name args)
          (empty_buffer 256)
          (two_more (one_more h))
        ≡ some (out, h2)
      → h2.live ≡ live + 3
      → length out.bytes < 2 ^ 31
      → Ended net st table s (framed sn out.bytes) live (handle_client net table s h)
  unfolding framed
  handle_client-Ended sn name args rest s h h2 out live sn_lt p few small plenty e made three
        sendable =
      let msg = call_message name args in
      let size : length msg ≡ 2 + (length name + length args) =
        omega (arith, length-append name args) in
      let (s1, first, a1) =
        handle_client-receive net st whole table sn (length msg) s (msg ++ rest) sn_lt
          (omega (arith, size)) (omega (arith, size)) (e ∙ rw append_assoc refl) in
      let (s2, second, a2) =
        receive-respond name args p few (omega (arith, small)) sn s1 rest h plenty a1.left in
      let plenty' : IsPlenty (one_more h) = record { plenty = plenty.plenty } in
      let ended =
        respond-Ended net st whole table sn name (at_args name args) s2 (one_more h) h2 out live
          plenty' made three sendable in
      record {
        sock = ended.sock;
        heap = ended.heap;
        returns = first h ∙ second ∙ ended.returns;
        out = ended.out ∙ ap (λ (x : List ℕ). x ++ framed sn out.bytes) (a2.quiet ∙ a1.quiet);
        shut = ended.shut;
        freed = ended.freed;
      }
