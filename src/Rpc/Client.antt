-- ===== src/Rpc/Client.antt =====
-- rpc_client.c and rpc_util.c: a call from the client's side, and the result it is given.
pub mod Laws
pub mod Call
use demo.Common.{
  ℕ, zero, suc, ◌+◌, ◌%◌, ◌^◌, Bool, true, false, not, ltb, List, [], ◌∷◌, ◌++◌, length, take,
  Option, none, some, if◌then◌else◌, ◌==◌,
}
use demo.Common.Int.{ℤ, pos}
use demo.Common.Effect.{pure, ◌>>=◌, ◌>>◌}
use demo.Rpc.{DataType, unknown, width, is_text, success, failure, magic_num}
use demo.Rpc.Bytes.{le_bytes, from_le}
use demo.Common.Alloc.{M, malloc, free}
use demo.Rpc.Buffer.{Buffer, buffer_free}
use demo.Rpc.Reader.{Reader, Handle, reader_init, reader_read_uint8, rpc_parse_req_args}
use demo.Rpc.Net.{Net, write_sock}
use demo.Rpc.Net.Read.{rpc_read_u32, read_sock_until}

-- The union in an `object_t`: the bits of the `int64_t`, or the block that `s` leads to; `nothing` is
-- what a variable holds that was not written, and a pointer that is NULL.
pub data Value : Type 0 where
  nothing : Value
  ll : ℕ → Value
  s : List ℕ → Value

pub record Obj : Type 0 where
  pub type : DataType
  pub v : Value

-- `rpc_rsp_t`
pub record RpcRsp : Type 0 where
  pub res : ℕ
  pub data_of : Obj

-- The types with a width are those of the first eight cases; eight bytes are read of the number.
unfoldable pub rsp_base_data : Handle Obj
rsp_base_data dt v vlen bd =
    if ltb 0 (width dt)
    then pure (success, record { type = dt; v = ll (from_le (take 8 v)) })
    else (if is_text dt then pure (success, record { type = dt; v = s v }) else pure (pos 1, bd))

abbrev release_type : Bool → RpcRsp → M RpcRsp
release_type false rsp =
    pure (record rsp { data_of = record { type = unknown; v = rsp.data_of.v } })
release_type true rsp = do
  free
  pure (record rsp { data_of = record { type = unknown; v = nothing } })

unfoldable pub rpc_rsp_release : RpcRsp → M RpcRsp
rpc_rsp_release rsp = release_type (is_text rsp.data_of.type) rsp

-- The arguments of an answer, parsed where the answer is to the call that was sent.
unfoldable pub parse_result : Bool → ℕ → Reader → RpcRsp → M (ℤ × RpcRsp)
parse_result false res r rsp = do free; pure (failure, record rsp { res = res })
parse_result true res r rsp = do
  (ret, r', obj) ← rpc_parse_req_args rsp_base_data r rsp.data_of
  free
  pure (ret, record { res = res; data_of = obj })

-- What the message of an answer holds.
unfoldable pub read_result : Bool → List ℕ → RpcRsp → M (ℤ × RpcRsp)
read_result same rsp_bytes rsp = do
  (result_type, r) ← reader_read_uint8 (reader_init rsp_bytes (length rsp_bytes))
  elim result_type [
    | none ↦ (free >>= λ _. pure (failure, rsp))
    | some res ↦ parse_result same res r rsp
  ]

-- The result with the socket it was read from.
abbrev pub on_sock : {Sock : Type 0} → Sock → ℤ × RpcRsp → (ℤ × RpcRsp) × Sock
on_sock sock result = (result, sock)

module _ (net : Net) where
  open net use {Sock, read, write, close}

  abbrev pub content : Bool → Option (List ℕ) → Sock → RpcRsp → M ((ℤ × RpcRsp) × Sock)
  content same none sock rsp = do free; pure ((failure, rsp), sock)
  content same (some bytes) sock rsp = do
    result ← read_result same bytes rsp
    pure (on_sock sock result)

  unfoldable pub get_content : Bool → ℕ → Sock → RpcRsp → M ((ℤ × RpcRsp) × Sock)
  get_content same resp_len sock rsp = do
    granted ← malloc
    if not granted
        then pure ((failure, rsp), sock)
        else (let got = read_sock_until net resp_len sock in content same got.0 got.1 rsp)

  abbrev pub got_word :
      Option ℕ → Sock → RpcRsp → (ℕ → Sock → M ((ℤ × RpcRsp) × Sock)) → M ((ℤ × RpcRsp) × Sock)
  got_word none sock rsp next = pure ((failure, rsp), sock)
  got_word (some v) sock rsp next = next v sock

  -- A word of the header, or -1.
  unfoldable pub get_word :
      Sock → RpcRsp → (ℕ → Sock → M ((ℤ × RpcRsp) × Sock)) → M ((ℤ × RpcRsp) × Sock)
  get_word sock rsp next = let got = rpc_read_u32 net sock in got_word got.0 got.1 rsp next

  unfoldable pub rpc_get_rsp : Sock → RpcRsp → ℕ → M ((ℤ × RpcRsp) × Sock)
  rpc_get_rsp sock rsp required = get_word sock rsp (λ mn sock1.
      if not (mn == magic_num)
      then pure ((failure, rsp), sock1)
      else get_word sock1 rsp (λ call_sn sock2.
        get_word sock2 rsp
          (λ resp_len sock3. get_content (required == call_sn) resp_len sock3 rsp)))

  -- `buffer_free(buf); close_sock(sock); return -1;`
  unfoldable pub drop_call : Buffer → Sock → RpcRsp → M ((ℤ × RpcRsp) × Sock)
  drop_call buf sock rsp = do buffer_free (some buf); pure ((failure, rsp), close sock)

  -- A write that goes out whole, or the end of the call.
  unfoldable pub put :
      List ℕ → Buffer → Sock → RpcRsp → (Sock → M ((ℤ × RpcRsp) × Sock)) → M ((ℤ × RpcRsp) × Sock)
  put bytes buf sock rsp next =
      let sent = write_sock net bytes sock in
      if not (sent.0 == length bytes) then drop_call buf sent.1 rsp else next sent.1

  -- `rpc_call` on a socket that is connected; `call_sn` is the number of this call. The length goes
  -- out as the lowest four bytes of a `size_t`.
  unfoldable pub call_on : ℕ → Buffer → Sock → RpcRsp → M ((ℤ × RpcRsp) × Sock)
  call_on call_sn buf sock rsp = put (le_bytes 4 magic_num) buf sock rsp (λ sock1.
      put (le_bytes 4 call_sn) buf sock1 rsp (λ sock2.
        put (le_bytes 4 (length buf.bytes)) buf sock2 rsp (λ sock3.
          put buf.bytes buf sock3 rsp (λ sock4. do
            buffer_free (some buf)
            (result, sock5) ← rpc_get_rsp sock4 rsp call_sn
            pure (result, close sock5)))))

  -- What `socket`, `gethostbyname` and `connect` come to: no socket, one that leads nowhere, or a
  -- connection.
  pub data Connected : Type 0 where
    no_socket : Connected
    unreachable : Sock → Connected
    connected : Sock → Connected

  -- `rpc_call`, with the number of calls so far, and the sockets at the end. On the first two paths
  -- the buffer is kept.
  unfoldable pub rpc_call : Connected → ℕ → Buffer → RpcRsp → M ((ℤ × RpcRsp) × Option Sock × ℕ)
  rpc_call no_socket calls buf rsp = pure ((failure, rsp), none, (calls + 1) % 2 ^ 32)
  rpc_call (unreachable sock) calls buf rsp =
      pure ((failure, rsp), some (close sock), (calls + 1) % 2 ^ 32)
  rpc_call (connected sock) calls buf rsp = do
    (result, sock') ← call_on ((calls + 1) % 2 ^ 32) buf sock rsp
    pure (result, some sock', (calls + 1) % 2 ^ 32)
