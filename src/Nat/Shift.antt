-- ===== src/Nat/Shift.antt =====
-- cmake/bigint/src/natdiv.c: shifts of a view by less than a word.
pub mod Word
pub mod Left
pub mod Right
use demo.Common.{ℕ, zero, suc, ◌+◌, ◌-◌, ◌*◌, ◌/◌, ◌^◌, bit_and, bit_or, ◌==◌, if◌then◌else◌}
use demo.Memory.{M, pure, assert, ◌>>=◌, ◌>>◌}
use demo.Word.Carry.{u64, uint_size}
use demo.Nat.{Nat, get, put, nat_copy}

-- `s &= _W - 1`, and `s1`, the rest of a word.
abbrev pub masked : ℕ → ℕ
masked s = bit_and s (uint_size - 1)

abbrev pub other_shift : ℕ → ℕ
other_shift s = masked (uint_size - s)

-- The loop of `shlVU`, down to 1.
unfoldable pub shl_loop : Nat → Nat → ℕ → ℕ → M (Unit {0})
shl_loop z x s zero = pure tt
shl_loop z x s (suc i) = do
  a ← get x (suc i)
  b ← get x i
  put z (suc i) (bit_or (u64 (a * 2 ^ s)) (b / 2 ^ other_shift s))
  shl_loop z x s i

-- `shlVU` of at least one word, with the index of the last one, where `s` is masked.
unfoldable pub shl_some : Nat → Nat → ℕ → ℕ → M ℕ
shl_some z x s last = do
  top ← get x last
  shl_loop z x s last
  low ← get x 0
  put z 0 (u64 (low * 2 ^ s))
  pure (top / 2 ^ other_shift s)

unfoldable pub shl_vu : Nat → Nat → ℕ → M ℕ
shl_vu z x s =
    if s == 0
    then (nat_copy z x >>= λ _. pure 0)
    else (if z.len == 0 then pure 0 else shl_some z x (masked s) (z.len - 1))

-- The loop of `shrVU`: `n` rounds, of which the first writes the word at `i`.
unfoldable pub shr_loop : Nat → Nat → ℕ → ℕ → ℕ → M (Unit {0})
shr_loop z x s zero i = pure tt
shr_loop z x s (suc n) i = do
  a ← get x i
  b ← get x (i + 1)
  put z i (bit_or (a / 2 ^ s) (u64 (b * 2 ^ other_shift s)))
  shr_loop z x s n (i + 1)

unfoldable pub shr_some : Nat → Nat → ℕ → ℕ → M ℕ
shr_some z x s last = do
  low ← get x 0
  shr_loop z x s last 0
  top ← get x last
  put z last (top / 2 ^ s)
  pure (u64 (low * 2 ^ other_shift s))

unfoldable pub shr_vu : Nat → Nat → ℕ → M ℕ
shr_vu z x s = do
  assert (x.len == z.len)
  if s == 0
      then (nat_copy z x >>= λ _. pure 0)
      else (if z.len == 0 then pure 0 else shr_some z x (masked s) (z.len - 1))
