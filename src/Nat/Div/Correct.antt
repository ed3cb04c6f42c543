-- ===== src/Nat/Div/Correct.antt =====
-- The corrections of `divWW`: its guess is at most 2 too small.
use native.Mathlib.Nat.{mul-le-mul_left}
use demo.Common.{
  ℕ, suc, ◌+◌, ◌-◌, ◌*◌, ◌^◌, ◌≤◌, ◌<◌, ◌≡◌, arith, ap, ap₂, if◌then◌else◌, sym, ◌∙◌, leb, leb→le,
  leb→lt, ◌==◌, ==→eq, ==→ne, Bool-cases, inl, inr,
}
use demo.Word.Carry.{B, u64, uint_add, uint_sub, uint_mul}
use demo.Word.Carry.Laws.{uint_add_lem, uint_sub_lem, uint_mul_lem}
use demo.Nat.Div.{raise, correct, div_normal}
use demo.Nat.Div.Reciprocal.{IsReciprocal, quotient_lt, guess_le, guess_rest, guess_lt}

-- The quotient and the remainder of a number.
pub record IsPair (d number : ℕ) (a : ℕ × ℕ) : Type 0 where
  pub exact : a.0 * d + a.1 ≡ number
  pub less : a.1 < d

IsPair-place : {d number : ℕ} {a a' : ℕ × ℕ} → a' ≡ a → IsPair d number a → IsPair d number a'
IsPair-place e p = rw e p

-- A quotient that may be too small, and its rest `r1`, `r0`, less than one divisor above a word.
module _ (d number : ℕ) (big : B ≤ 2 * d) (word : d < B) (below : number < d * B) where
  raised : (q r : ℕ) → q * d + r ≡ number → d ≤ r → r < B + d → raise d (q, u64 r) ≡ (suc q, r - d)
  raised q r sum le lt =
      let q_lt : suc q < B = quotient_lt (suc q) d number (omega (arith, sum)) below in
      let up : u64 (q + 1) ≡ suc q = omega arith in
      let down : u64 (u64 r + 2 ^ 64 - d) ≡ r - d = omega arith in ap₂ (λ (a b : ℕ). (a, b)) up down

  abbrev lower : ℕ × ℕ → ℕ × ℕ
  lower b = if leb d b.1 then raise d b else b

  last : (q r : ℕ) → q * d + r ≡ number → r < B → IsPair d number (lower (q, r))
  last q r sum lt = elim (Bool-cases (leb d r)) [
    | inl ge ↦
        let le = leb→le d r ge in
        let same : u64 r ≡ r = omega arith in
        let e : raise d (q, r) ≡ (suc q, r - d) =
          ap (λ (n : ℕ). raise d (q, n)) (sym same) ∙ raised q r sum le (omega arith) in
        rw (ge, e) (record { exact = omega (arith, sum); less = omega arith })
    | inr lt' ↦ rw lt' (record { exact = sum; less = leb→lt d r lt' })
  ]

  correct-IsPair :
      (q r1 r0 : ℕ)
      → q * d + (r1 * B + r0) ≡ number
      → r0 < B
      → r1 * B + r0 < B + d
      → IsPair d number (correct d r1 (q, r0))
  unfolding correct
  correct-IsPair q r1 r0 sum r0_lt lt = elim (Bool-cases (r1 == 0)) [
    | inl e ↦ rw e (last q r0 (omega (arith, sum, ==→eq r1 0 e)) r0_lt)
    | inr e ↦
        let one : r1 ≡ 1 = omega (arith, ==→ne r1 0 e) in
        let rest : ℕ = B + r0 in
        let same : u64 rest ≡ r0 = omega arith in
        let sum' : q * d + rest ≡ number = omega (arith, sum, one) in
        let e' : raise d (q, r0) ≡ (suc q, rest - d) =
          ap (λ (n : ℕ). raise d (q, n)) (sym same)
          ∙ raised q rest sum' (omega arith) (omega arith) in
        rw e
          (IsPair-place (ap lower e') (last (suc q) (rest - d) (omega (arith, sum')) (omega arith)))
  ]

-- The steps of `divWW` before its corrections.
module _ (x1 x0 d m e : ℕ) (big : B ≤ 2 * d) (word : d < B) (x0_lt : x0 < B) (less : x1 < d)
    (rec : IsReciprocal d m e) (m_lt : m < B) where
  abbrev t : ℕ × ℕ
  t = uint_mul m x1

  abbrev c : ℕ
  c = (uint_add t.0 x0 0).1

  abbrev l : ℕ
  l = (uint_add t.0 x0 0).0

  product : (t.0 + B * t.1 ≡ m * x1) × (t.0 < B) × (t.1 < B)
  product = uint_mul_lem m x1 m_lt (omega arith)

  low_sum : (l + B * c ≡ t.0 + x0 + 0) × (l < B) × (c ≤ 1)
  low_sum = uint_add_lem t.0 x0 0 product.1 x0_lt (omega arith)

  abbrev guess : ℕ
  guess = t.1 + x1 + c

  guess_sum : (m + B) * x1 + x0 ≡ guess * B + l
  guess_sum = omega (arith, product.0, low_sum.0)

  guess_word : guess < B
  guess_word = guess_lt x1 x0 d m e guess l big word x0_lt less rec guess_sum low_sum.1

  abbrev qq : ℕ
  qq = (uint_add t.1 x1 c).0

  qq_lem : qq ≡ guess
  qq_lem =
      let s = uint_add_lem t.1 x1 c product.2 (omega arith) low_sum.2 in
      omega (arith, s.0, s.1, guess_word)

  qq_lt : qq < B
  qq_lt = omega (arith, qq_lem, guess_word)

  abbrev number : ℕ
  number = x1 * B + x0

  fits : qq * d ≤ number
  fits =
      let le = guess_le x1 x0 d m e guess l big word x0_lt less rec guess_sum low_sum.1 in
      omega (arith, le, ap (λ (n : ℕ). n * d) qq_lem)

  near : number < qq * d + B + d
  near =
      let lt = guess_rest x1 x0 d m e guess l big word x0_lt less rec guess_sum low_sum.1 in
      omega (arith, lt, ap (λ (n : ℕ). n * d) qq_lem)

  abbrev dq : ℕ × ℕ
  dq = uint_mul d qq

  abbrev low : ℕ × ℕ
  low = uint_sub x0 dq.0 0

  abbrev r1 : ℕ
  r1 = (uint_sub x1 dq.1 low.1).0

  rest_sum : (qq * d + (r1 * B + low.0) ≡ number) × (low.0 < B) × (r1 * B + low.0 < B + d)
  rest_sum =
      let p = uint_mul_lem d qq word qq_lt in
      let a = uint_sub_lem x0 dq.0 0 x0_lt p.1 (omega arith) in
      let b = uint_sub_lem x1 dq.1 low.1 (omega arith) p.2 a.2 in
      omega (arith, p.0, a.0, a.1, b.0, b.1, b.2, fits, near)

  pub div_normal-IsPair : IsPair d number (div_normal x1 x0 d m)
  unfolding div_normal
  div_normal-IsPair =
      correct-IsPair d number big word (omega (arith, mul-le-mul_left B less)) qq r1 low.0
        rest_sum.0 rest_sum.1 rest_sum.2
