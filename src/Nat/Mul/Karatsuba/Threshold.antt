-- ===== src/Nat/Mul/Karatsuba/Threshold.antt =====
-- What `karatsubaLen` finds.
use native.Mathlib.Nat.{pow-suc, pow-zero, div-one, div-div-eq-div-mul}
use demo.Common.{
  ℕ, zero, suc, ◌*◌, ◌/◌, ◌^◌, ◌≤◌, ◌<◌, ◌≡◌, arith, ap, sym, ◌∙◌, Bool-cases, ltb, ltb→lt, ltb→le,
  ◌⊎◌, inl, inr,
}
use demo.Nat.Mul.Karatsuba.{karatsuba_len, karatsuba_len_loop}

-- `k` is `n` without its last `shifts` bits, as few of them as leave at most `threshold` above.
pub record IsCut (threshold n k : ℕ) : Type 0 where
  pub shifts : ℕ
  pub product : k ≡ n / 2 ^ shifts * 2 ^ shifts
  pub small : n / 2 ^ shifts ≤ threshold
  pub least : (j : ℕ) → j < shifts → threshold < n / 2 ^ j

halved : (start i : ℕ) → start / 2 ^ i / 2 ≡ start / 2 ^ suc i
halved start i = rw (pow-suc 2 i) (div-div-eq-div-mul start (2 ^ i) 2)

last_or_before : (j i : ℕ) → j < suc i → (j ≡ i) ⊎ (j < i)
last_or_before j i lt = ground arith

loop-IsCut :
    (threshold fuel start n i : ℕ)
    → n ≤ fuel
    → n ≡ start / 2 ^ i
    → ((j : ℕ) → j < i → threshold < start / 2 ^ j)
    → IsCut threshold start (karatsuba_len_loop threshold fuel n i)
unfolding karatsuba_len_loop
loop-IsCut threshold zero start n i room e before = record {
  shifts = i;
  product = ap (λ (t : ℕ). t * 2 ^ i) e;
  small = omega (arith, e);
  least = before;
}
loop-IsCut threshold (suc f) start n i room e before =
    let next = loop-IsCut threshold f start (n / 2) (suc i) in
    elim (Bool-cases (ltb threshold n)) [
      | inl more ↦
          let big = ltb→lt threshold n more in
          rw more (
            next (omega arith) (ap (λ (t : ℕ). t / 2) e ∙ halved start i) (λ j lt.
              elim (last_or_before j i lt) [
                | inl same ↦ rw same (omega (arith, e, big))
                | inr lower ↦ before j lower
              ]))
      | inr few ↦ rw few (record {
        shifts = i;
        product = ap (λ (t : ℕ). t * 2 ^ i) e;
        small = omega (arith, e, ltb→le threshold n few);
        least = before;
      })
    ]

-- `karatsubaLen` ends: its result is `n` without some of its last bits, as few of them as leave at most
-- the threshold above them.
pub karatsuba_len-IsCut : (n threshold : ℕ) → IsCut threshold n (karatsuba_len n threshold)
unfolding karatsuba_len
karatsuba_len-IsCut n threshold =
    loop-IsCut threshold n n n 0 (omega arith) (sym (rw (pow-zero 2) (div-one n)))
      (λ j lt. absurd (omega arith))
