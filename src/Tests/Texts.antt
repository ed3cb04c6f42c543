-- ===== src/Tests/Texts.antt =====
-- Runs of the powers and of the text functions of cmake/bigint.
use demo.Common.{ℕ, ◌≡◌, arith, List, [], ◌∷◌, none, some}
use demo.Word.Count.Trailing.{
  trailing_zeros, trailing_zeros32, trailing_zeros-pow, trailing_zeros32-pow,
}
use demo.Nat.Text.{max_pow, write_digits, write_decimals}
use demo.Nat.Text.Power.{IsMaxPow, max_pow-IsMaxPow}
use demo.Nat.Text.ReadBack.{read_digits, write_digits-read_digits}
use demo.Nat.Text.Digits.{Written, write_digits-Written, write_decimals-digits}

trailing_zeros-pow_example : trailing_zeros 12288 ≡ some 12
trailing_zeros-pow_example = trailing_zeros-pow 1 12 (omega arith)

trailing_zeros32-pow_example : trailing_zeros32 256 ≡ none
trailing_zeros32-pow_example = trailing_zeros32-pow 8 (omega arith) (omega arith)

max_pow-IsMaxPow_example : (p n : ℕ) × (max_pow 10 ≡ some (p, n)) × IsMaxPow 10 p n
max_pow-IsMaxPow_example = max_pow-IsMaxPow 10 (omega arith) (omega arith)

abbrev blank : List ℕ
blank = 0 ∷ 0 ∷ 0 ∷ 0 ∷ 0 ∷ []

write_digits-Written_example :
    (s' : List ℕ) × (write_digits 16 3 48879 4 blank ≡ some (1, s')) × Written 16 3 48879 4 blank s'
write_digits-Written_example =
    write_digits-Written 16 3 48879 4 blank (omega arith) (omega arith) (omega arith)

write_digits-read_digits_example :
    (s' : List ℕ) × (write_digits 16 4 48879 4 blank ≡ some (0, s'))
    × (read_digits 16 4 4 s' ≡ some 48879)
write_digits-read_digits_example =
    write_digits-read_digits 16 4 48879 4 blank (omega arith) (omega arith) (omega arith)
      (omega arith) (omega arith)

write_decimals-digits_example : write_decimals 3 1234 4 blank ≡ write_digits 10 3 1234 4 blank
write_decimals-digits_example = write_decimals-digits 3 1234 4 blank (omega arith)
