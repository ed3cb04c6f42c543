-- ===== src/Word/Div.antt =====
-- base.c: the division of two words by one, on 32 bits.
pub mod Laws
pub mod Long
mod Tests
use demo.Common.{
  ℕ, zero, ◌+◌, ◌*◌, ◌/◌, ◌%◌, ◌^◌, Bool, true, false, not, ltb, ◌==◌, ◌&&◌, Option, none, some,
  if◌then◌else◌,
}

-- `hi << 32 | lo` is a sum, as `lo` has 32 bits. The quotient, and the remainder that is stored
-- through `rem`; `none` where an assertion fails.
unfoldable pub u32_div : ℕ → ℕ → ℕ → Option (ℕ × ℕ)
u32_div hi lo y =
    let z = hi * 2 ^ 32 + lo in
    if not (y == 0) && ltb hi y then some ((z / y) % 2 ^ 32, (z % y) % 2 ^ 32) else none

abbrev pub rem_of : Option (ℕ × ℕ) → Option ℕ
rem_of none = none
rem_of (some (q, r)) = some r

unfoldable pub u32_rem : ℕ → ℕ → ℕ → Option ℕ
u32_rem hi lo y = rem_of (u32_div hi lo y)
