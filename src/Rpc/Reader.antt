-- ===== src/Rpc/Reader.antt =====
-- rpc_util.c: the reader of a message, and the parsing of arguments.
pub mod Laws
pub mod Args
use demo.Common.{
  ℕ, zero, suc, ◌+◌, ◌-◌, Bool, ltb, leb, List, [], ◌∷◌, ◌++◌, length, take, drop, Option, none,
  some, if◌then◌else◌, ◌||◌, not,
}
use demo.Common.Int.{ℤ, pos}
use demo.Common.Effect.{pure, fault, assert, ◌>>=◌, ◌>>◌}
use demo.Word.Carry.{u64}
use demo.Rpc.{DataType, unknown, from_code, width, is_text, is_pb, success, is_nonzero}
use demo.Rpc.Bytes.{from_le, zeros}
use demo.Common.Alloc.{M, malloc}

-- `reader_t`: `bytes` is the memory behind `data`.
pub record Reader : Type 0 where
  pub bytes : List ℕ
  pub len : ℕ
  pub pos : ℕ

unfoldable pub reader_init : List ℕ → ℕ → Reader
reader_init bytes len = record { bytes = bytes; len = len; pos = 0 }

-- Reads of `n` bytes: `none` for -1, with which nothing is stored.
unfoldable pub reader_read_bytes : Reader → ℕ → M (Option (List ℕ) × Reader)
reader_read_bytes r n = if ltb r.len (u64 (r.pos + n)) then pure (none, r) else do
  assert (leb (r.pos + n) (length r.bytes))
  pure (some (take n (drop r.pos r.bytes)), record r { pos = r.pos + n })

abbrev as_number : Option (List ℕ) × Reader → Option ℕ × Reader
as_number (none, r) = (none, r)
as_number (some bs, r) = (some (from_le bs), r)

unfoldable pub reader_read_uint32 : Reader → M (Option ℕ × Reader)
reader_read_uint32 r = do got ← reader_read_bytes r 4; pure (as_number got)

unfoldable pub reader_read_uint8 : Reader → M (Option ℕ × Reader)
reader_read_uint8 r = do got ← reader_read_bytes r 1; pure (as_number got)

-- `rpc_handle_arg_t`: of a type, the bytes that the pointer leads to, and the length; it returns 0
-- to go on, with the data of its user.
abbrev pub Handle : Type 0 → Type 0
Handle U = DataType → List ℕ → ℕ → U → M (ℤ × U)

-- `data_type_t dt = 0`, into which one byte is read.
abbrev pub read_type : Option (List ℕ) → Option DataType
read_type none = some unknown
read_type (some bs) = from_code (from_le bs)

module _ {U : Type 0} (handler : Handle U) where
  -- What comes of a handler's result.
  abbrev pub handled : Reader → ℤ × U → M (ℤ × Reader × U)
  handled r (ret, u) = pure ((if is_nonzero ret then pos 1 else success), r, u)

  -- A number is read into a `uint64_t` that is 0.
  unfoldable pub parse_number : DataType → Reader → U → M (ℤ × Reader × U)
  parse_number dt r u = do
    (got, r') ← reader_read_bytes r (width dt)
    elim got [
      | none ↦ pure (pos 1, r', u)
      | some bs ↦ do
        result ← handler dt (bs ++ zeros (8 - width dt)) (width dt) u
        handled r' result
    ]

  -- A block of `size` bytes is read into memory of its own, with a NUL behind it.
  unfoldable pub parse_sized : DataType → ℕ → Reader → U → M (ℤ × Reader × U)
  parse_sized dt size r u = do
    granted ← malloc
    assert granted
    (got, r') ← reader_read_bytes r size
    elim got [
      | none ↦ pure (pos 1, r', u)
      | some bs ↦ do result ← handler dt (bs ++ (0 ∷ [])) size u; handled r' result
    ]

  unfoldable pub parse_block : DataType → Reader → U → M (ℤ × Reader × U)
  parse_block dt r u = do
    (got, r') ← reader_read_bytes r 2
    elim got [ none ↦ pure (pos 1, r', u) | some size ↦ parse_sized dt (from_le size) r' u ]

  unfoldable pub parse_typed : Option DataType → Reader → U → M (ℤ × Reader × U)
  parse_typed none r u = pure (pos 1, r, u)
  parse_typed (some dt) r u =
      if ltb 0 (width dt)
      then parse_number dt r u
      else (if is_pb dt || is_text dt then parse_block dt r u else pure (pos 1, r, u))

  unfoldable pub parse_arg : Reader → U → M (ℤ × Reader × U)
  parse_arg r u = do (got, r') ← reader_read_bytes r 1; parse_typed (read_type got) r' u

  -- The loop of `rpc_parse_req_args`, at argument `i` with `n` to go.
  unfoldable pub parse_args : ℕ → ℕ → Reader → U → M (ℤ × Reader × U)
  parse_args zero i r u = pure (success, r, u)
  parse_args (suc n) i r u = do
    (ret, r', u') ← parse_arg r u
    if is_nonzero ret then pure (pos (i + 1), r', u') else parse_args n (i + 1) r' u'

  -- `uint8_t narg = 0`, into which one byte is read.
  abbrev arg_count : Option (List ℕ) → ℕ
  arg_count none = 0
  arg_count (some bs) = from_le bs

  unfoldable pub rpc_parse_req_args : Reader → U → M (ℤ × Reader × U)
  rpc_parse_req_args r u = do (got, r') ← reader_read_bytes r 1; parse_args (arg_count got) 0 r' u
