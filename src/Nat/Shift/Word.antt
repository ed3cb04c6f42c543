-- ===== src/Nat/Shift/Word.antt =====
-- A word of a view that `shlVU` shifts.
use native.Mathlib.Nat.{mul-le-mul_right, mod-eq_of_lt, div-add-mod, mod-lt, div-lt_iff_lt-mul}
use demo.Common.{ℕ, ◌+◌, ◌-◌, ◌*◌, ◌/◌, ◌%◌, ◌^◌, ◌<◌, ◌≡◌, arith, ap, sym, ◌∙◌, bit_or}
use demo.Common.Bits.{bit_or-add, bit_or_comm, bit_and_mask}
use demo.Word.Carry.{B, u64}
use demo.Word.Count.Laws.{pow-pos, pow_plus}
use demo.Nat.Shift.{masked, other_shift}

module _ (s : ℕ) (s_lt : s < 64) where
  pub masked_lem : masked s ≡ s
  masked_lem = bit_and_mask 6 s ∙ mod-eq_of_lt s_lt

  abbrev P : ℕ
  P = 2 ^ s

  abbrev Q : ℕ
  Q = 2 ^ (64 - s)

  whole : P * Q ≡ B
  whole =
      let e : s + (64 - s) ≡ 64 = omega arith in sym (pow_plus s (64 - s)) ∙ ap (λ (k : ℕ). 2 ^ k) e

  -- The low bits of a word, shifted.
  pub shifted_word :
      (a : ℕ) → (u64 (a * P) ≡ a % Q * P) × (a % Q * P + B * (a / Q) ≡ a * P) × (a % Q * P < B)
  shifted_word a =
      let parts = div-add-mod a Q in
      let below : a % Q < Q = mod-lt a (pow-pos (64 - s)) in
      let lt : a % Q * P < B = omega (arith, whole, mul-le-mul_right P below, pow-pos s) in
      let split : a * P ≡ a / Q * B + a % Q * P =
        omega (arith, ap (λ (n : ℕ). n * P) parts, ap (λ (n : ℕ). a / Q * n) whole) in
      let wraps : u64 (a * P) ≡ a % Q * P = rw split (omega (arith, lt)) in
      (wraps, omega (arith, split), lt)

  high_lt : (b : ℕ) → b < B → b / Q < P
  high_lt b lt = (div-lt_iff_lt-mul (pow-pos (64 - s))).1 (omega (arith, whole))

module _ (s : ℕ) (pos : 0 < s) (s_lt : s < 64) where
  pub other_shift_lem : other_shift s ≡ 64 - s
  other_shift_lem = bit_and_mask 6 (64 - s) ∙ mod-eq_of_lt (omega arith)

  -- A word of the result.
  pub joined_word :
      (a b : ℕ)
      → b < B
      → (bit_or (u64 (a * 2 ^ s)) (b / 2 ^ other_shift s)
          ≡ a % 2 ^ (64 - s) * 2 ^ s + b / 2 ^ (64 - s))
        × (a % 2 ^ (64 - s) * 2 ^ s + b / 2 ^ (64 - s) < B)
  joined_word a b lt =
      let (wraps, split, word) = shifted_word s s_lt a in
      let below : a % 2 ^ (64 - s) < 2 ^ (64 - s) = mod-lt a (pow-pos (64 - s)) in
      let high = high_lt s s_lt b lt in
      (
        rw (other_shift_lem, wraps) (bit_or-add s (a % 2 ^ (64 - s)) (b / 2 ^ (64 - s)) high),
        omega (arith, whole s s_lt, mul-le-mul_right (2 ^ s) below, high),
      )

  -- A word that `shrVU` writes.
  pub fallen_word :
      (a b : ℕ)
      → a < B
      → (bit_or (a / 2 ^ s) (u64 (b * 2 ^ other_shift s)) ≡ b % 2 ^ s * 2 ^ (64 - s) + a / 2 ^ s)
        × (b % 2 ^ s * 2 ^ (64 - s) + a / 2 ^ s < B)
        × (b % 2 ^ s * 2 ^ (64 - s) * 2 ^ s ≡ B * (b % 2 ^ s))
  fallen_word a b lt =
      let back : 64 - (64 - s) ≡ s = omega arith in
      let (wraps, split, word) = shifted_word (64 - s) (omega arith) b in
      let low_lt : b % 2 ^ s < 2 ^ s = mod-lt b (pow-pos s) in
      let high : a / 2 ^ s < 2 ^ (64 - s) =
        (div-lt_iff_lt-mul (pow-pos s)).1 (omega (arith, whole s s_lt)) in
      let wraps' : u64 (b * 2 ^ other_shift s) ≡ b % 2 ^ s * 2 ^ (64 - s) =
        ap (λ (k : ℕ). u64 (b * 2 ^ k)) other_shift_lem
        ∙ wraps
        ∙ ap (λ (k : ℕ). b % 2 ^ k * 2 ^ (64 - s)) back in
      (
        bit_or_comm (a / 2 ^ s) (u64 (b * 2 ^ other_shift s))
            ∙ rw wraps' (bit_or-add (64 - s) (b % 2 ^ s) (a / 2 ^ s) high),
        omega (arith, whole s s_lt, mul-le-mul_right (2 ^ (64 - s)) low_lt, high),
        omega (arith, ap (λ (k : ℕ). b % 2 ^ s * k) (whole s s_lt)),
      )
