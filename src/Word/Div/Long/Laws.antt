-- ===== src/Word/Div/Long/Laws.antt =====
-- The 64-bit division of base.c is exact.
use native.Mathlib.Nat.{
  mul-le-mul_right, mul-div_cancel, mod-eq_of_lt, div-add-mod, mod-lt, div-le_self,
}
use demo.Common.{
  ℕ, ◌+◌, ◌-◌, ◌*◌, ◌/◌, ◌%◌, ◌^◌, ◌≤◌, ◌<◌, ◌≡◌, refl, arith, ap, sym, ◌∙◌, bit_and, Option, some,
  lt→ltb, ltb→lt, ltb→le, ltb, if◌then◌else◌, ne→==, ◌==◌, Bool-cases, ==→eq, inl, inr,
}
use demo.Common.Bits.{bit_and_mask}
use demo.Word.Carry.{B, u64}
use demo.Word.Div.Long.{
  two32, mask32, next_digit, left_over, second_digit, two_digits, shift_in, long_div, u64_div,
  uint_div, u64_rem, uint_rem,
}
use demo.Word.Count.Laws.{pow-pos}
use demo.Word.Div.{rem_of}
use demo.Word.Div.Long.Shift.{leading_zeros64-IsTop, shifted_low, shifted_lt, shifted_number}
use demo.Word.Div.Long.Digit.{IsDigit, next_digit-IsDigit}

IsDigit-move : {y y' top q : ℕ} → y ≡ y' → IsDigit y top q → IsDigit y' top q
IsDigit-move e d = rw (← e) d

-- A divisor with its top bit set, the number `un32` below it, and one digit more.
digit_lem :
    (y un32 un : ℕ)
    → B ≤ 2 * y
    → y < B
    → un < two32
    → un32 < y
    → (q : ℕ) × (next_digit (y / 2 ^ 32) (bit_and y mask32) un32 un ≡ some q)
      × IsDigit y (un32 * two32 + un) q
digit_lem y un32 un big word un_lt less =
    let parts : y / 2 ^ 32 * two32 + y % 2 ^ 32 ≡ y = omega arith in
    let (q, e, d) =
      next_digit-IsDigit (y / 2 ^ 32) (y % 2 ^ 32) un32 un (omega arith) (omega arith) (omega arith)
        un_lt (omega arith) in
    (q, rw (bit_and_mask 32 y) e, IsDigit-move parts d)

-- The words that wrap give the difference.
left_over_lem :
    (y un32 un q : ℕ)
    → y < B
    → IsDigit y (un32 * two32 + un) q
    → (left_over y un32 un q + q * y ≡ un32 * two32 + un) × (left_over y un32 un q < y)
left_over_lem y un32 un q word d = omega (arith, d.le, d.lt)

-- What the two digits give: the quotient, and the remainder that is shifted back.
record IsShifted (y s number : ℕ) (result : Option (ℕ × ℕ)) : Type 0 where
  quotient : ℕ
  rest : ℕ
  returns : result ≡ some (quotient, rest / 2 ^ s)
  exact : quotient * y + rest ≡ number
  less : rest < y
  word_quotient : quotient < B

IsShifted-move :
    {y s number number' : ℕ} {result result' : Option (ℕ × ℕ)}
    → number ≡ number'
    → result' ≡ result
    → IsShifted y s number result
    → IsShifted y s number' result'
IsShifted-move e e' d = rw (← e, e') d

second_digit-IsShifted :
    (y s un0 q1 un21 : ℕ)
    → B ≤ 2 * y
    → y < B
    → un0 < two32
    → un21 < y
    → q1 < two32
    → IsShifted y s (q1 * y * two32 + un21 * two32 + un0) (second_digit y s un0 q1 un21)
unfolding second_digit
second_digit-IsShifted y s un0 q1 un21 big word un0_lt less q1_lt =
    let (q0, e0, d0) = digit_lem y un21 un0 big word un0_lt less in
    let (sum0, less0) = left_over_lem y un21 un0 q0 word d0 in
    let join : u64 (u64 (q1 * two32) + q0) ≡ q1 * two32 + q0 = omega (arith, d0.word) in
    record {
      quotient = q1 * two32 + q0;
      rest = left_over y un21 un0 q0;
      returns = rw (second_digit, e0, join) refl;
      exact = omega (arith, sum0);
      less = less0;
      word_quotient = omega (arith, d0.word);
    }

two_digits-IsShifted :
    (y s un32 un10 : ℕ)
    → B ≤ 2 * y
    → y < B
    → un10 < B
    → un32 < y
    → IsShifted y s (un32 * B + un10) (two_digits y s un32 un10)
unfolding two_digits
two_digits-IsShifted y s un32 un10 big word un10_lt less =
    let un1 : ℕ = un10 / 2 ^ 32 in
    let (q1, e1, d1) = digit_lem y un32 un1 big word (omega arith) less in
    let (sum1, less1) = left_over_lem y un32 un1 q1 word d1 in
    let un21 : ℕ = left_over y un32 un1 q1 in
    IsShifted-move (omega (arith, sum1))
      (rw (two_digits, e1) (ap (λ (un0 : ℕ). second_digit y s un0 q1 un21) (bit_and_mask 32 un10)))
      (second_digit-IsShifted y s (un10 % 2 ^ 32) q1 un21 big word (omega arith) less1 d1.word)

-- The quotient and the remainder of two words by one, both one word.
pub record IsQuotient (hi lo y : ℕ) (q r : ℕ) : Type 0 where
  pub exact : q * y + r ≡ hi * B + lo
  pub less : r < y
  pub word : q < B

-- A remainder that was shifted with the number, shifted back.
pub unshift :
    (hi lo y p q rest : ℕ)
    → 0 < p
    → q * (y * p) + rest ≡ (hi * B + lo) * p
    → rest < y * p
    → q < B
    → IsQuotient hi lo y q (rest / p)
unshift hi lo y p q rest pos exact less word =
    let number : ℕ = hi * B + lo in
    let fits : q * y ≤ number = elim (Bool-cases (ltb number (q * y))) [
      | inl gt ↦ absurd (omega (arith, exact, pos, mul-le-mul_right p (ltb→lt number (q * y) gt)))
      | inr le ↦ ltb→le number (q * y) le
    ] in
    let r : ℕ = number - q * y in
    let sum : q * y + r ≡ number = omega (arith, fits) in
    let scaled : r * p ≡ rest = omega (arith, exact, ap (λ (n : ℕ). n * p) sum) in
    let back : rest / p ≡ r = ap (λ (n : ℕ). n / p) (sym scaled) ∙ mul-div_cancel r pos in
    let below : r < y = elim (Bool-cases (ltb r y)) [
      | inl lt ↦ ltb→lt r y lt
      | inr ge ↦ absurd (omega (arith, scaled, less, mul-le-mul_right p (ltb→le r y ge)))
    ] in
    rw back (record { exact = sum; less = below; word = word })

abbrev Divides : ℕ → ℕ → ℕ → Option (ℕ × ℕ) → Type 0
Divides hi lo y result = (q : ℕ) × (r : ℕ) × (result ≡ some (q, r)) × IsQuotient hi lo y q r

long_div-Divides : (hi lo y : ℕ) → lo < B → hi < y → y < B → Divides hi lo y (long_div hi lo y)
unfolding long_div
long_div-Divides hi lo y lo_lt less word =
    let (s, e, t) = leading_zeros64-IsTop y (omega arith) word in
    let low = shifted_low hi lo y s lo_lt less t in
    let low_lt : u64 (lo * 2 ^ s) < B = omega arith in
    let d = IsShifted-move (shifted_number hi lo y s lo_lt less t) refl (
      two_digits-IsShifted (y * 2 ^ s) s (shift_in hi lo s) (u64 (lo * 2 ^ s)) t.big t.word low_lt
        (shifted_lt hi lo y s lo_lt less t)) in
    let same : u64 (y * 2 ^ s) ≡ y * 2 ^ s = mod-eq_of_lt t.word in
    (
      d.quotient,
      d.rest / 2 ^ s,
      rw (long_div, e, lt→ltb s 64 t.less, same) d.returns,
      unshift hi lo y (2 ^ s) d.quotient d.rest (pow-pos s) d.exact d.less d.word_quotient,
    )

short_div-IsQuotient :
    (hi lo y : ℕ) → hi ≡ 0 → 0 < y → lo < B → IsQuotient hi lo y (lo / y) (lo % y)
short_div-IsQuotient hi lo y e pos lo_lt = record {
  exact = omega (arith, div-add-mod lo y);
  less = mod-lt lo pos;
  word = omega (arith, div-le_self lo y);
}

-- `U64Div` of two words by a word that is above the high one ends with no failed assertion, with a
-- quotient of one word, and quotient and remainder are exact. `UIntDiv` gives the same, and `U64Rem`
-- and `UIntRem` that remainder.
pub u64_div-IsQuotient :
    (hi lo y : ℕ)
    → y < B
    → lo < B
    → hi < y
    → (q : ℕ) × (r : ℕ) × (u64_div hi lo y ≡ some (q, r))
      × (uint_div hi lo y ≡ some (q, r))
      × (u64_rem hi lo y ≡ some r)
      × (uint_rem hi lo y ≡ some r)
      × IsQuotient hi lo y q r
unfolding u64_div uint_div u64_rem uint_rem
u64_div-IsQuotient hi lo y word lo_lt less =
    let (q, r, e, d) = all_branches in
    let e' : u64_div hi lo y ≡ some (q, r) =
      rw (ne→== y 0 (λ e. absurd (omega arith)), lt→ltb hi y less) e in
    (q, r, e', e', ap rem_of e', ap rem_of e', d)
  where
    all_branches : Divides hi lo y (if hi == 0 then some (lo / y, lo % y) else long_div hi lo y)
    all_branches = elim (Bool-cases (hi == 0)) [
      | inl none' ↦ rw none' (
        lo / y,
        lo % y,
        refl,
        short_div-IsQuotient hi lo y (==→eq hi 0 none') (omega arith) lo_lt,
      )
      | inr some' ↦ rw some' (long_div-Divides hi lo y lo_lt less word)
    ]
