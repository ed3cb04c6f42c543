-- ===== src/Nat/Div/Reciprocal.antt =====
-- The digit that `divWW` finds with the reciprocal of a divisor, as plain arithmetic.
use native.Mathlib.Nat.{mul-le-mul_left, mul-le-mul_right}
use demo.Common.{
  ℕ, ◌+◌, ◌-◌, ◌*◌, ◌≤◌, ◌<◌, ◌≡◌, arith, ap, ltb, ltb→lt, ltb→le, Bool-cases, inl, inr,
}
use demo.Word.Carry.{B}

-- `m` with the digit 1 above it is the quotient of B * B - 1 by `d`, `e` the remainder.
pub record IsReciprocal (d m e : ℕ) : Type 0 where
  pub exact : (m + B) * d + e + 1 ≡ B * B
  pub less : e < d

-- A quotient of a number below d * B is a word.
pub quotient_lt : (q d number : ℕ) → q * d ≤ number → number < d * B → q < B
quotient_lt q d number le lt = elim (Bool-cases (ltb q B)) [
  | inl small ↦ ltb→lt q B small
  | inr large ↦ absurd (omega (arith, mul-le-mul_right d (ltb→le q B large)))
]

-- A divisor with its top bit set, and a number below it with a digit more.
module _ (x1 x0 d m e qq l : ℕ) (big : B ≤ 2 * d) (word : d < B) (x0_lt : x0 < B) (less : x1 < d)
    (rec : IsReciprocal d m e) (sum : (m + B) * x1 + x0 ≡ qq * B + l) (l_lt : l < B) where
  scaled : (m + B) * d * x1 + (e + 1) * x1 ≡ B * B * x1
  scaled = omega (arith, ap (λ (t : ℕ). t * x1) rec.exact)

  scaled_sum : (m + B) * d * x1 + d * x0 ≡ d * qq * B + d * l
  scaled_sum = omega (arith, ap (λ (t : ℕ). d * t) sum)

  complement : (k : ℕ) → d + k ≡ B → x0 * d + x0 * k ≡ x0 * B
  complement k h = omega (arith, ap (λ (t : ℕ). x0 * t) h)

  -- The quotient is not too large,
  pub guess_le : qq * d ≤ x1 * B + x0
  guess_le = let k : ℕ = B - d in omega (arith, scaled, scaled_sum, complement k (omega arith))

  -- and what it leaves is less than one divisor above a word.
  pub guess_rest : x1 * B + x0 < qq * d + B + d
  guess_rest =
      let k : ℕ = B - d in
      let e1 : (e + 1) * x1 ≤ d * x1 = mul-le-mul_right x1 (omega (arith, rec.less)) in
      let x1' : d * (x1 + 1) ≤ d * d = mul-le-mul_left d (omega arith) in
      let x0' : (x0 + 1) * k ≤ B * k = mul-le-mul_right k (omega arith) in
      let l' : d * (l + 1) ≤ d * B = mul-le-mul_left d (omega arith) in
      let dd : d * d ≤ d * B = mul-le-mul_left d (omega arith) in
      omega (arith, scaled, scaled_sum, complement k (omega arith), e1, x1', x0', l', dd)

  -- The guess is a word.
  pub guess_lt : qq < B
  guess_lt = quotient_lt qq d (x1 * B + x0) guess_le (omega (arith, mul-le-mul_left B less))
