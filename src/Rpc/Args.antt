-- ===== src/Rpc/Args.antt =====
-- The arguments of a call as the bytes of a message, and what a handler is given of them.
use demo.Common.{ℕ, ◌+◌, ◌-◌, ◌<◌, ◌≡◌, true, List, [], ◌∷◌, ◌++◌, length, if◌then◌else◌}
use demo.Common.Int.{ℤ, pos}
use demo.Common.Effect.{pure, assert, ◌>>=◌, ◌>>◌}
use demo.Rpc.{DataType, code, width, is_text, is_pb, success, is_nonzero}
use demo.Rpc.Bytes.{le_bytes, span, zeros, IsText}
use demo.Common.Alloc.{M, malloc}
use demo.Rpc.Buffer.{Source, number, text, message}
use demo.Rpc.Reader.{Handle}

abbrev pub Arg : Type 0
Arg = DataType × Source

-- An argument that fits its type: a number of the type's width, or a text or a message of at most
-- 65535 bytes.
abbrev pub IsArg : Arg → Type 0
IsArg (dt, number v) = (0 < width dt) × (v < span (width dt))
IsArg (dt, text s) = (is_text dt ≡ true) × (length s < 65536) × IsText s
IsArg (dt, message p) = (is_pb dt ≡ true) × (length p < 65536)

abbrev pub AllArgs : List Arg → Type 0
AllArgs [] = Unit
AllArgs (v ∷ vs) = IsArg v × AllArgs vs

-- The message's format.
abbrev pub payload : Arg → List ℕ
payload (dt, number v) = le_bytes (width dt) v
payload (dt, text s) = le_bytes 2 (length s) ++ s
payload (dt, message p) = le_bytes 2 (length p) ++ p

abbrev pub arg_bytes : Arg → List ℕ
arg_bytes (dt, src) = le_bytes 1 (code dt) ++ payload (dt, src)

abbrev pub args_bytes : List Arg → List ℕ
args_bytes [] = []
args_bytes (v ∷ vs) = arg_bytes v ++ args_bytes vs

module _ {U : Type 0} (handler : Handle U) where
  -- An argument handed over: a number in eight bytes, another one in a block of its own.
  abbrev pub hand_over : Arg → U → M (ℤ × U)
  hand_over (dt, number v) u =
      handler dt (le_bytes (width dt) v ++ zeros (8 - width dt)) (width dt) u
  hand_over (dt, text s) u = do
    granted ← malloc
    assert granted
    handler dt (s ++ (0 ∷ [])) (length s) u
  hand_over (dt, message p) u = do
    granted ← malloc
    assert granted
    handler dt (p ++ (0 ∷ [])) (length p) u

  -- The arguments handed over in their order, until one is refused, whose number is the result.
  unfoldable pub feed : List Arg → ℕ → U → M (ℤ × U)
  feed [] i u = pure (success, u)
  feed (v ∷ vs) i u = do
    (ret, u') ← hand_over v u
    if is_nonzero ret then pure (pos (i + 1), u') else feed vs (i + 1) u'
