-- ===== src/Nat/Text.antt =====
-- cmake/bigint/src/natconv.c: the digits of a number as text, and the power of the base that a word
-- holds. A char is its code. `none` is a read or a write outside an array, or a loop that takes more
-- rounds than its fuel.
pub mod Power
pub mod Digits
pub mod ReadBack
pub mod Table
pub mod Convert
pub mod Whole
use demo.Common.{
  ℕ, zero, suc, ◌+◌, ◌-◌, ◌*◌, ◌/◌, ◌%◌, List, [], ◌∷◌, Option, none, some, get_elem?, set, length,
  ltb, if◌then◌else◌,
}
use demo.Common.Effect.{Effect, pure, ◌>>=◌, ◌>>◌}
use demo.Word.Carry.{B, u64}

-- The loop of `maxPow`. A word is passed after fewer than 64 rounds, since the base is at least 2.
unfoldable pub max_pow_loop : ℕ → ℕ → ℕ → ℕ → ℕ → Option (ℕ × ℕ)
max_pow_loop zero b max p n = if ltb p max then none else some (p, n)
max_pow_loop (suc f) b max p n =
    let rest = max_pow_loop f b max (u64 (p * b)) (n + 1) in if ltb p max then rest else some (p, n)

-- The power, and what is stored through `n`.
unfoldable pub max_pow : ℕ → Option (ℕ × ℕ)
max_pow b = max_pow_loop 64 b ((B - 1) / b) b 1

abbrev pub digits : List ℕ
digits =
    48 ∷ 49 ∷ 50 ∷ 51 ∷ 52 ∷ 53 ∷ 54 ∷ 55 ∷ 56 ∷ 57 ∷ 97 ∷ 98 ∷ 99 ∷ 100 ∷ 101 ∷ 102 ∷ 103 ∷ 104
    ∷ 105 ∷ 106 ∷ 107 ∷ 108 ∷ 109 ∷ 110 ∷ 111 ∷ 112 ∷ 113 ∷ 114 ∷ 115 ∷ 116 ∷ 117 ∷ 118 ∷ 119 ∷ 120
    ∷ 121 ∷ 122 ∷ 65 ∷ 66 ∷ 67 ∷ 68 ∷ 69 ∷ 70 ∷ 71 ∷ 72 ∷ 73 ∷ 74 ∷ 75 ∷ 76 ∷ 77 ∷ 78 ∷ 79 ∷ 80 ∷ 81
    ∷ 82 ∷ 83 ∷ 84 ∷ 85 ∷ 86 ∷ 87 ∷ 88 ∷ 89 ∷ 90 ∷ []

-- The array `s`, as the state of what writes to it.
abbrev pub Write : Type 0 → Type 0
Write A = Effect (List ℕ) A

-- `digits[d]`
unfoldable pub digit : ℕ → Write ℕ
digit d s = elim (get_elem? digits d) [ none ↦ none | some c ↦ some (c, s) ]

-- `s[i] = c`
unfoldable pub put_char : ℕ → ℕ → Write (Unit {0})
put_char i c s = if ltb i (length s) then some (tt, set s i c) else none

-- The loop on `j` of `convertWords` for a base other than 10, with `ndigits - j` rounds to go: the
-- last value of `i`.
unfoldable pub write_digits : ℕ → ℕ → ℕ → ℕ → Write ℕ
write_digits b zero r i = pure i
write_digits b (suc n) r zero = pure 0
write_digits b (suc n) r (suc i) = do c ← digit (r % b); put_char i c; write_digits b n (r / b) i

-- The loop for base 10.
unfoldable pub write_decimals : ℕ → ℕ → ℕ → Write ℕ
write_decimals zero r i = pure i
write_decimals (suc n) r zero = pure 0
write_decimals (suc n) r (suc i) = do
  put_char i (48 + (r - r / 10 * 10))
  write_decimals n (r / 10) i

-- The loop that fills what is left with zeros.
unfoldable pub write_zeros : ℕ → Write (Unit {0})
write_zeros zero = pure tt
write_zeros (suc i) = do put_char i 48; write_zeros i
