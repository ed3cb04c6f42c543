-- ===== src/Rpc/Server.antt =====
-- rpc_server.c: the table of the functions that a server offers, and a client's request from its
-- first byte to the answer.
pub mod Ended
pub mod Header
pub mod Call
pub mod Cut
pub mod Balance
pub mod Closed
pub mod Registry
use demo.Common.{
  ℕ, zero, suc, ◌+◌, ◌-◌, Bool, true, false, not, ltb, leb, List, [], ◌∷◌, ◌++◌, length, take,
  Option, none, some, if◌then◌else◌, ◌||◌, ◌==◌, get_elem?, set, replicate,
}
use demo.Common.Int.{ℤ, pos}
use demo.Common.Effect.{pure, fault, assert, ◌>>=◌, ◌>>◌}
use demo.Rpc.{success, failure, rpc_err, magic_num, max_msg_len, max_func_name_len, is_nonzero}
use demo.Rpc.Bytes.{le_bytes, from_le, c_string}
use demo.Common.Alloc.{M, malloc, free}
use demo.Rpc.Buffer.{
  Buffer, buffer_new, buffer_free, buffer_append, buffer_append_u8, buffer_append_u32,
}
use demo.Rpc.Reader.{Reader, reader_init, reader_read_bytes}
use demo.Rpc.Net.{Net, write_sock}
use demo.Rpc.Net.Read.{rpc_read_u32, read_sock_until}

abbrev pub max_handlers : ℕ
max_handlers = 128

-- `rpc_handler_t`: it reads its arguments and writes its results.
abbrev pub Handler : Type 0
Handler = Reader → Buffer → M Buffer

-- `handler_entry`, its name without the NUL.
pub record Entry : Type 0 where
  pub name : List ℕ
  pub handler : Handler

-- The first `handler_count` entries of `handlers`.
abbrev pub Table : Type 0
Table = List Entry

-- `strncpy` of at most 255 bytes, and a NUL.
abbrev pub stored_name : List ℕ → List ℕ
stored_name name = take (max_func_name_len - 1) name

unfoldable pub rpc_server_register : Table → List ℕ → Handler → ℤ × Table
rpc_server_register t name handler =
    if leb max_handlers (length t)
    then (failure, t)
    else (success, t ++ (record { name = stored_name name; handler = handler } ∷ []))

-- `strcmp(a, b) == 0`
abbrev pub same_text : List ℕ → List ℕ → Bool
same_text [] [] = true
same_text [] (b ∷ bs) = false
same_text (a ∷ as') [] = false
same_text (a ∷ as') (b ∷ bs) = let rest = same_text as' bs in if a == b then rest else false

unfoldable pub find_handler : Table → List ℕ → Option Handler
find_handler [] name = none
find_handler (e ∷ t) name =
    let rest = find_handler t name in if same_text e.name name then some e.handler else rest

-- "Function not found"
abbrev pub not_found : List ℕ
not_found =
    b'F' ∷ b'u' ∷ b'n' ∷ b'c' ∷ b't' ∷ b'i' ∷ b'o' ∷ b'n' ∷ b' ' ∷ b'n' ∷ b'o' ∷ b't' ∷ b' ' ∷ b'f'
    ∷ b'o' ∷ b'u' ∷ b'n' ∷ b'd' ∷ []

-- The answer to a call of `name`: an error's text, or what the handler writes.
unfoldable pub answer : Option Handler → Reader → Buffer → M Buffer
answer none r out = do
  (_, out1) ← buffer_append_u8 out rpc_err
  (_, out2) ← buffer_append_u32 out1 (length not_found)
  (_, out3) ← buffer_append out2 not_found
  pure out3
answer (some handler) r out = handler r out

module _ (net : Net) (table : Table) where
  open net use {Sock, close}

  -- `close_sock(client_fd); return;`, with the message's memory freed where it is there.
  unfoldable pub hang_up : Bool → Sock → M Sock
  hang_up true s = do free; pure (close s)
  hang_up false s = pure (close s)

  -- The four writes of an answer, whose results are not looked at.
  unfoldable pub send_answer : ℕ → List ℕ → Sock → Sock
  send_answer sn out s =
      let s1 = (write_sock net (le_bytes 4 magic_num) s).1 in
      let s2 = (write_sock net (le_bytes 4 sn) s1).1 in
      let s3 = (write_sock net (le_bytes 4 (length out)) s2).1 in (write_sock net out s3).1

  unfoldable pub respond : ℕ → List ℕ → Reader → Sock → M Sock
  respond sn name r s = do
    b ← buffer_new 256
    elim b [
      | none ↦ fault
      | some out0 ↦ do
        out ← answer (find_handler table name) r out0
        let s' = send_answer sn out.bytes s
        free
        buffer_free (some out)
        pure (close s')
    ]

  -- The name of the function, at the start of the message.
  unfoldable pub serve_name : ℕ → ℕ → Reader → Sock → M Sock
  serve_name sn size r s = if leb max_func_name_len size then hang_up true s else (do
    (name, r') ← reader_read_bytes r size
    elim name [ none ↦ hang_up true s | some bs ↦ respond sn (c_string (bs ++ (0 ∷ []))) r' s ])

  unfoldable pub serve : ℕ → List ℕ → Sock → M Sock
  serve sn msg s = do
    (size, r) ← reader_read_bytes (reader_init msg (length msg)) 2
    elim size [ none ↦ hang_up true s | some bs ↦ serve_name sn (from_le bs) r s ]

  -- What comes of a message that was read, or not.
  abbrev pub received : ℕ → Option (List ℕ) → Sock → M Sock
  received sn none s = hang_up true s
  received sn (some msg) s = serve sn msg s

  unfoldable pub receive : ℕ → ℕ → Sock → M Sock
  receive sn len s = do
    granted ← malloc
    if not granted
        then hang_up false s
        else (let got = read_sock_until net len s in received sn got.0 got.1)

  abbrev pub word_read : Option ℕ → Sock → (ℕ → Sock → M Sock) → M Sock
  word_read none s next = hang_up false s
  word_read (some v) s next = next v s

  -- A word of the header, or the end of the connection.
  unfoldable pub header_word : Sock → (ℕ → Sock → M Sock) → M Sock
  header_word s next = let got = rpc_read_u32 net s in word_read got.0 got.1 next

  unfoldable pub header_length : ℕ → Sock → M Sock
  header_length sn s =
      header_word s
        (λ len s'. if len == 0 || ltb max_msg_len len then hang_up false s' else receive sn len s')

  unfoldable pub handle_client : Sock → M Sock
  handle_client s =
      header_word s
        (λ mn s'. if not (mn == magic_num) then hang_up false s' else header_word s' header_length)
