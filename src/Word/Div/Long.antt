-- ===== src/Word/Div/Long.antt =====
-- cmake/bigint/src/base.c: the division of two words by one, on 64 bits, in two digits of 32 bits.
-- `none` is an assertion that fails, or a read outside the table of `LeadingZeros64`.
pub mod Digit
pub mod Shift
pub mod Laws
use demo.Common.{
  ℕ, zero, suc, ◌+◌, ◌-◌, ◌*◌, ◌/◌, ◌%◌, ◌^◌, bit_and, bit_or, Bool, true, false, not, ltb, leb,
  ◌==◌, ◌&&◌, ◌||◌, Option, none, some, if◌then◌else◌,
}
use demo.Word.Carry.{u32, u64, uint_size}
use demo.Word.Count.{leading_zeros64}
use demo.Word.Div.{u32_div, u32_rem, rem_of}

abbrev pub two32 : ℕ
two32 = 2 ^ 32

abbrev pub mask32 : ℕ
mask32 = two32 - 1

-- The loops that lower a digit `q` of the quotient, on `q` and `rhat`. Two rounds are enough: the
-- third test is not reached.
unfoldable pub lower_digit : ℕ → ℕ → ℕ → ℕ → ℕ → ℕ → Option ℕ
lower_digit yn1 yn0 un zero q rhat = none
lower_digit yn1 yn0 un (suc f) q rhat =
    let q' = u64 (q + 2 ^ 64 - 1) in
    let rhat' = u64 (rhat + yn1) in
    let rest = lower_digit yn1 yn0 un f q' rhat' in
    if leb two32 q || ltb (u64 (u64 (two32 * rhat) + un)) (u64 (q * yn0))
    then (if leb two32 rhat' then some q' else rest)
    else some q

-- The next digit of the quotient by `yn1`, `yn0` of the number `un32`, and the digit `un`.
unfoldable pub next_digit : ℕ → ℕ → ℕ → ℕ → Option ℕ
next_digit yn1 yn0 un32 un =
    let q = un32 / yn1 in lower_digit yn1 yn0 un 2 q (u64 (un32 + 2 ^ 64 - u64 (q * yn1)))

-- `un32 * two32 + un - q * y`
abbrev pub left_over : ℕ → ℕ → ℕ → ℕ → ℕ
left_over y un32 un q = u64 (u64 (u64 (un32 * two32) + un) + 2 ^ 64 - u64 (q * y))

-- From the second digit on.
unfoldable pub second_digit : ℕ → ℕ → ℕ → ℕ → ℕ → Option (ℕ × ℕ)
second_digit y s un0 q1 un21 = elim (next_digit (y / 2 ^ 32) (bit_and y mask32) un21 un0) [
  | none ↦ none
  | some q0 ↦ some (u64 (u64 (q1 * two32) + q0), left_over y un21 un0 q0 / 2 ^ s)
]

-- From the first digit on: `y` is shifted by `s`, so that its top bit is set.
unfoldable pub two_digits : ℕ → ℕ → ℕ → ℕ → Option (ℕ × ℕ)
two_digits y s un32 un10 =
    let un1 = un10 / 2 ^ 32 in
    elim (next_digit (y / 2 ^ 32) (bit_and y mask32) un32 un1) [
      | none ↦ none
      | some q1 ↦ second_digit y s (bit_and un10 mask32) q1 (left_over y un32 un1 q1)
    ]

-- `hi << s`, with the top bits of `lo` below them.
abbrev pub shift_in : ℕ → ℕ → ℕ → ℕ
shift_in hi lo s =
    let un32 = u64 (hi * 2 ^ s) in if s == 0 then un32 else bit_or un32 (lo / 2 ^ (64 - s))

unfoldable pub long_div : ℕ → ℕ → ℕ → Option (ℕ × ℕ)
long_div hi lo y = elim (leading_zeros64 y) [
  | none ↦ none
  | some s ↦
      two_digits (u64 (y * 2 ^ s)) s (shift_in hi lo s) (if ltb s 64 then u64 (lo * 2 ^ s) else 0)
]

-- The quotient and the remainder.
unfoldable pub u64_div : ℕ → ℕ → ℕ → Option (ℕ × ℕ)
u64_div hi lo y =
    if not (y == 0) && ltb hi y
    then (if hi == 0 then some (lo / y, lo % y) else long_div hi lo y)
    else none

unfoldable pub uint_div : ℕ → ℕ → ℕ → Option (ℕ × ℕ)
uint_div hi lo y = if uint_size == 32 then u32_div (u32 hi) (u32 lo) (u32 y) else u64_div hi lo y

unfoldable pub u64_rem : ℕ → ℕ → ℕ → Option ℕ
u64_rem hi lo y = rem_of (u64_div hi lo y)

unfoldable pub uint_rem : ℕ → ℕ → ℕ → Option ℕ
uint_rem hi lo y = if uint_size == 32 then u32_rem (u32 hi) (u32 lo) (u32 y) else u64_rem hi lo y
