-- ===== src/BigInt/Sign.antt =====
-- Signs and magnitudes, as bigint.c computes with them, against the integers.
use demo.Common.{
  ℕ, ◌+◌, ◌-◌, ◌*◌, sym, ◌∙◌, ◌≤◌, ◌≡◌, refl, arith, Bool, true, false, not, ◌&&◌, ltb, inl, inr,
  Bool-cases, ltb→le,
}
use demo.Common.Int.{ℤ, pos_part, neg_part, sub_ℕ, ◌+ℤ◌, ◌-ℤ◌, ◌*ℤ◌, signed}
use demo.BigInt.{same_sign}

pub signed_add : (s : Bool) (a b : ℕ) → signed s (a + b) ≡ signed s a +ℤ signed s b
unfolding signed ◌+ℤ◌
signed_add true a b = ground arith
signed_add false a b = ground arith

pub signed_sub : (s : Bool) (a b : ℕ) → b ≤ a → signed s (a - b) ≡ signed s a -ℤ signed s b
unfolding signed ◌-ℤ◌
signed_sub true a b h = ground arith
signed_sub false a b h = ground arith

pub signed_sub_rev :
    (s : Bool) (a b : ℕ) → a ≤ b → signed (not s) (b - a) ≡ signed s a -ℤ signed s b
unfolding signed ◌-ℤ◌
signed_sub_rev true a b h = ground arith
signed_sub_rev false a b h = ground arith

pub add_mixed :
    (s t : Bool) (a b : ℕ)
    → same_sign s t ≡ false
    → signed s a +ℤ signed t b ≡ signed s a -ℤ signed s b
unfolding signed ◌+ℤ◌ ◌-ℤ◌
add_mixed true true a b e = cc
add_mixed true false a b e = ground arith
add_mixed false true a b e = ground arith
add_mixed false false a b e = cc

pub sub_mixed :
    (s t : Bool) (a b : ℕ)
    → same_sign s t ≡ false
    → signed s a -ℤ signed t b ≡ signed s a +ℤ signed s b
unfolding signed ◌+ℤ◌ ◌-ℤ◌
sub_mixed true true a b e = cc
sub_mixed true false a b e = ground arith
sub_mixed false true a b e = ground arith
sub_mixed false false a b e = cc

pub same_sign-eq : (s t : Bool) → same_sign s t ≡ true → s ≡ t
same_sign-eq true true e = refl
same_sign-eq true false e = cc
same_sign-eq false true e = cc
same_sign-eq false false e = refl

-- Without words there is no sign, which the number does not show.
pub signed_settle : (s : Bool) (n v : ℕ) → (n ≡ 0 → v ≡ 0) → signed (ltb 0 n && s) v ≡ signed s v
unfolding signed
signed_settle false n v h = elim (Bool-cases (ltb 0 n)) [ inl e ↦ rw e | inr e ↦ rw e ]
signed_settle true n v h = elim (Bool-cases (ltb 0 n)) [
  | inl e ↦ rw e
  | inr e ↦ rw (e, h (omega (arith, ltb→le 0 n e)))
]

parts_of_true : (n : ℕ) → (pos_part (signed true n) ≡ 0) × (neg_part (signed true n) ≡ n)
unfolding signed
parts_of_true n = ground arith

parts_of_false : (n : ℕ) → (pos_part (signed false n) ≡ n) × (neg_part (signed false n) ≡ 0)
unfolding signed
parts_of_false n = (refl, refl)

-- A product by its parts.
mul_parts :
    (x y : ℤ) {p q m n : ℕ}
    → (pos_part x ≡ p) × (neg_part x ≡ m)
    → (pos_part y ≡ q) × (neg_part y ≡ n)
    → x *ℤ y ≡ sub_ℕ (p * q + m * n) (p * n + m * q)
unfolding ◌*ℤ◌
mul_parts x y (e, e') (f, f') = rw (e, e', f, f') refl

above_zero : (k l c : ℕ) → k ≡ c → l ≡ 0 → signed false c ≡ sub_ℕ k l
unfolding signed
above_zero k l c e e' = rw (e, e') (ground arith)

below_zero : (k l c : ℕ) → k ≡ 0 → l ≡ c → signed true c ≡ sub_ℕ k l
unfolding signed
below_zero k l c e e' = rw (e, e') refl

-- Unequal signs give a negative product.
pub signed_mul :
    (s t : Bool) (a b : ℕ) → signed (not (same_sign s t)) (a * b) ≡ signed s a *ℤ signed t b
signed_mul true true a b =
    above_zero _ _ (a * b) (omega arith) (omega arith)
    ∙ sym (mul_parts (signed true a) (signed true b) (parts_of_true a) (parts_of_true b))
signed_mul true false a b =
    below_zero _ _ (a * b) (omega arith) (omega arith)
    ∙ sym (mul_parts (signed true a) (signed false b) (parts_of_true a) (parts_of_false b))
signed_mul false true a b =
    below_zero _ _ (a * b) (omega arith) (omega arith)
    ∙ sym (mul_parts (signed false a) (signed true b) (parts_of_false a) (parts_of_true b))
signed_mul false false a b =
    above_zero _ _ (a * b) (omega arith) (omega arith)
    ∙ sym (mul_parts (signed false a) (signed false b) (parts_of_false a) (parts_of_false b))
