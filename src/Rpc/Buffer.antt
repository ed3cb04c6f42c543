-- ===== src/Rpc/Buffer.antt =====
-- rpc_util.c: the buffer that arguments and results are written into, and the macros of rpc_c.h that
-- write them.
pub mod Laws
pub mod Writes
pub mod Macros
use demo.Common.{
  ℕ, zero, suc, ◌+◌, ◌*◌, ◌%◌, ◌^◌, Bool, true, false, not, ltb, leb, List, [], ◌∷◌, ◌++◌, length,
  take, Option, none, some, if◌then◌else◌,
}
use demo.Common.Int.{ℤ}
use demo.Common.Effect.{pure, fault, assert, ◌>>=◌, ◌>>◌}
use demo.Word.Carry.{u64}
use demo.Rpc.{DataType, code, width, is_text, is_pb, success, failure, out_of_memory, is_nonzero}
use demo.Rpc.Bytes.{le_bytes}
use demo.Common.Alloc.{M, malloc, realloc, free}

-- `buffer_t`: `bytes` are the bytes of `data` that are written, so that `len` is their number.
pub record Buffer : Type 0 where
  pub bytes : List ℕ
  pub cap : ℕ

-- A `buffer_t*` is `none` for NULL.
unfoldable pub buffer_new : ℕ → M (Option Buffer)
buffer_new initial_cap = do
  granted ← malloc
  if not granted then pure none else do
    granted' ← malloc
    if not granted'
        then (free >>= λ _. pure none)
        else pure (some (record { bytes = []; cap = initial_cap }))

unfoldable pub buffer_free : Option Buffer → M (Unit {0})
buffer_free none = pure tt
buffer_free (some b) = do free; free

-- `memcpy(buf->data + buf->len, src, n); buf->len += n;`
unfoldable pub copy_in : Buffer → List ℕ → M (ℤ × Buffer)
copy_in b src = do
  assert (leb (length b.bytes + length src) b.cap)
  pure (success, record b { bytes = b.bytes ++ src })

-- The capacity that `buffer_append` asks for.
unfoldable pub new_cap : Buffer → ℕ → ℕ
new_cap b n =
    if ltb (u64 (b.cap * 2)) (u64 (length b.bytes + n))
    then u64 (length b.bytes + n)
    else u64 (b.cap * 2)

unfoldable pub buffer_append : Buffer → List ℕ → M (ℤ × Buffer)
buffer_append b src =
    if ltb b.cap (u64 (length b.bytes + length src))
    then (do
      granted ← realloc
      if not granted
          then pure (failure, b)
          else copy_in (record b { cap = new_cap b (length src) }) src)
    else copy_in b src

unfoldable pub buffer_append_u32 : Buffer → ℕ → M (ℤ × Buffer)
buffer_append_u32 b v = buffer_append b (le_bytes 4 v)

unfoldable pub buffer_append_u8 : Buffer → ℕ → M (ℤ × Buffer)
buffer_append_u8 b v = buffer_append b (le_bytes 1 v)

unfoldable pub buffer_append_string : Buffer → List ℕ → M (ℤ × Buffer)
buffer_append_string b s = do
  (ret, b') ← buffer_append_u32 b (length s)
  if is_nonzero ret then pure (failure, b') else buffer_append b' s

-- What an argument's address leads to: a number's bits, a string without its NUL (in an array or
-- behind a pointer), or the bytes that `protobuf_c_message_pack` makes of a message.
pub data Source : Type 0 where
  number : ℕ → Source
  text : List ℕ → Source
  message : List ℕ → Source

unfoldable pub append_text : Buffer → List ℕ → M (ℤ × Buffer)
append_text b s = do
  (ret, b') ← buffer_append b (le_bytes 2 (length s))
  if is_nonzero ret then pure (ret, b') else buffer_append b' (take (length s % 2 ^ 16) s)

unfoldable pub append_message : Buffer → List ℕ → M (ℤ × Buffer)
append_message b packed = do
  granted ← malloc
  if not granted then pure (out_of_memory, b) else do
    (ret, b') ← buffer_append b (le_bytes 2 (length packed))
    if is_nonzero ret
        then (free >>= λ _. pure (ret, b'))
        else do (ret', b'') ← buffer_append b' packed; free; pure (ret', b'')

-- The macros give a number where `dt` is a number's type, and so on.
unfoldable pub buffer_append_dt : Buffer → DataType → Source → M (ℤ × Buffer)
buffer_append_dt b dt (number v) =
    if ltb 0 (width dt) then buffer_append b (le_bytes (width dt) v) else fault
buffer_append_dt b dt (text s) = if is_text dt then append_text b s else fault
buffer_append_dt b dt (message packed) = if is_pb dt then append_message b packed else fault

-- `BUFFER_PUSH_ARG`, which looks at no result.
unfoldable pub buffer_push_arg : Buffer → DataType × Source → M Buffer
buffer_push_arg b (dt, src) = do
  (_, b') ← buffer_append b (le_bytes 1 (code dt))
  (_, b'') ← buffer_append_dt b' dt src
  pure b''

-- `APPLY(BUFFER_PUSH_ARG, ...)`
unfoldable pub apply_push : Buffer → List (DataType × Source) → M Buffer
apply_push b [] = pure b
apply_push b (v ∷ vs) = do b' ← buffer_push_arg b v; apply_push b' vs

-- The macros that the source counts its arguments with take at most 10; here there is no bound.
unfoldable pub buffer_push_args : Buffer → List (DataType × Source) → M Buffer
buffer_push_args b vs = do (_, b') ← buffer_append_u8 b (length vs); apply_push b' vs

-- A buffer that is NULL is written through.
unfoldable pub rpc_make_req : List ℕ → List (DataType × Source) → M Buffer
rpc_make_req func vs = do
  b ← buffer_new 1024
  elim b [
    | none ↦ fault
    | some b0 ↦ do
      (_, b1) ← buffer_append b0 (le_bytes 2 (length func))
      (_, b2) ← buffer_append b1 (take (length func % 2 ^ 16) func)
      buffer_push_args b2 vs
  ]

unfoldable pub rpc_make_rsp : Buffer → ℕ → List (DataType × Source) → M Buffer
rpc_make_rsp b res vs = do (_, b') ← buffer_append_u8 b res; buffer_push_args b' vs
