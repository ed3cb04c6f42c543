-- ===== src/Word/Div/Tests.antt =====
-- Divisions of given words.
use demo.Common.{ℕ, ◌+◌, ◌-◌, ◌^◌, ◌≡◌, refl, arith, some}
use demo.Word.Carry.{B}
use demo.Word.Count.{leading_zeros64, len64, len8}
use demo.Word.Div.Long.{
  u64_div, long_div, two_digits, second_digit, next_digit, lower_digit, uint_div, u64_rem, uint_rem,
}
use demo.Word.Div.Long.Laws.{IsQuotient, u64_div-IsQuotient}

u64_div-IsQuotient_example :
    (q : ℕ) × (r : ℕ) × (u64_div 5 (B - 2) 77 ≡ some (q, r))
    × (uint_div 5 (B - 2) 77 ≡ some (q, r))
    × (u64_rem 5 (B - 2) 77 ≡ some r)
    × (uint_rem 5 (B - 2) 77 ≡ some r)
    × IsQuotient 5 (B - 2) 77 q r
u64_div-IsQuotient_example =
    u64_div-IsQuotient 5 (B - 2) 77 (omega arith) (omega arith) (omega arith)

-- A division by a divisor with its top bit set.
top_set :
    u64_div (2 ^ 63) 0 (2 ^ 63 + 2 ^ 32 - 1) ≡ some (18446744065119617029, 9223372006790004741)
unfolding u64_div long_div two_digits second_digit next_digit lower_digit leading_zeros64 len64 len8
top_set = refl
