-- ===== src/Nat/Text/Power.antt =====
-- The power of the base that `maxPow` finds.
use native.Mathlib.Nat.{
  mul-le-mul_right, mod-eq_of_lt, div-mul-le_self, lt-div-mul-add, pow-suc, pow-zero,
}
use demo.Common.{
  ℕ, zero, suc, ◌+◌, ◌-◌, ◌*◌, ◌/◌, ◌^◌, ◌≤◌, ◌<◌, ◌≡◌, refl, ap, arith, some, ltb, ltb→lt, ltb→le,
  Bool-cases, inl, inr,
}
use demo.Word.Carry.{B, u64}
use demo.Nat.Text.{max_pow, max_pow_loop}

-- The power `b ^ n` is a word, n is at least 1, and b times one more than it is not a word.
pub record IsMaxPow (b p n : ℕ) : Type 0 where
  pub power : p ≡ b ^ n
  pub pos : 0 < n
  pub fits : p < B
  pub top : B ≤ (p + 1) * b

-- Below the limit, the next power is a word.
no_wrap : (b p : ℕ) → 0 < b → p < (B - 1) / b → p * b < B
no_wrap b p pos lt = omega (arith, mul-le-mul_right b lt, div-mul-le_self (B - 1) b)

-- At the limit, the next power is not.
at_top : (b p : ℕ) → 0 < b → (B - 1) / b ≤ p → B ≤ (p + 1) * b
at_top b p pos le = omega (arith, mul-le-mul_right b le, lt-div-mul-add {a = B - 1} pos)

grown : (b p f : ℕ) → 2 ≤ b → B ≤ p * 2 ^ suc f → B ≤ p * b * 2 ^ f
grown b p f two le =
    omega (
      arith,
      le,
      pow-suc 2 f,
      ap (λ (t : ℕ). p * t) (pow-suc 2 f),
      mul-le-mul_right (p * 2 ^ f) two,
    )

next_power : (b p n : ℕ) → p ≡ b ^ n → p * b ≡ b ^ (n + 1)
next_power b p n e =
    let same : n + 1 ≡ suc n = omega arith in rw (same, pow-suc b n, e) (omega arith)

first_power : (b : ℕ) → b ≡ b ^ 1
first_power b = rw (pow-suc b 0, pow-zero b) (omega arith)

loop-IsMaxPow :
    (f b p n : ℕ)
    → 2 ≤ b
    → p ≡ b ^ n
    → 0 < n
    → p < B
    → B ≤ p * 2 ^ f
    → (q m : ℕ) × (max_pow_loop f b ((B - 1) / b) p n ≡ some (q, m)) × IsMaxPow b q m
unfolding max_pow_loop
loop-IsMaxPow zero b p n two power pos fits fuel = absurd (omega (arith))
loop-IsMaxPow (suc f) b p n two power pos fits fuel =
    let next : p * b < B
        → (q m : ℕ) × (max_pow_loop f b ((B - 1) / b) (u64 (p * b)) (n + 1) ≡ some (q, m))
          × IsMaxPow b q m =
      λ lt.
        let same : u64 (p * b) ≡ p * b = mod-eq_of_lt lt in
        rw same (
          loop-IsMaxPow f b (p * b) (n + 1) two (next_power b p n power) (omega arith) lt
            (grown b p f two fuel)) in
    elim (Bool-cases (ltb p ((B - 1) / b))) [
      | inl e ↦ rw e (next (no_wrap b p (omega arith) (ltb→lt p ((B - 1) / b) e)))
      | inr e ↦ rw e (
        p,
        n,
        refl,
        record {
          power = power;
          pos = pos;
          fits = fits;
          top = at_top b p (omega arith) (ltb→le p ((B - 1) / b) e);
        },
      )
    ]

-- `maxPow` of a base that is a word and at least 2 ends, and finds the power of the base that is a
-- word such that the base times one more than it is not a word, and its exponent, at least 1.
pub max_pow-IsMaxPow :
    (b : ℕ) → 2 ≤ b → b < B → (p n : ℕ) × (max_pow b ≡ some (p, n)) × IsMaxPow b p n
unfolding max_pow
max_pow-IsMaxPow b two fits =
    loop-IsMaxPow 64 b b 1 two (first_power b) (omega arith) fits (omega arith)
