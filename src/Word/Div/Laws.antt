-- ===== src/Word/Div/Laws.antt =====
-- The division of base.c is exact.
use demo.Common.{ℕ, ◌+◌, ◌*◌, ◌/◌, ◌%◌, ◌^◌, ◌<◌, ◌≡◌, refl, arith, ap, lt→ltb, ne→==, some}
use native.Mathlib.Nat.{div-add-mod, mod-lt, mod-eq_of_lt, div-lt_iff_lt-mul}
use demo.Word.Div.{u32_div, u32_rem, rem_of}

-- The quotient and the remainder, both one word.
pub record IsDivided (hi lo y : ℕ) (q r : ℕ) : Type 0 where
  pub exact : y * q + r ≡ hi * 2 ^ 32 + lo
  pub less : r < y
  pub word : q < 2 ^ 32

-- `U32Div` of two words by a word that is above the high one ends without a failed assertion, its
-- quotient is one word, and quotient and remainder are exact; `U32Rem` gives that remainder.
pub u32_div-IsDivided :
    (hi lo y : ℕ)
    → y < 2 ^ 32
    → lo < 2 ^ 32
    → hi < y
    → (q : ℕ) × (r : ℕ) × (u32_div hi lo y ≡ some (q, r))
      × (u32_rem hi lo y ≡ some r)
      × IsDivided hi lo y q r
unfolding u32_div u32_rem
u32_div-IsDivided hi lo y y_lt lo_lt over =
    let z = hi * 2 ^ 32 + lo in
    let pos : 0 < y = omega (arith, over) in
    let below : z < 2 ^ 32 * y = omega (arith, over, lo_lt) in
    let q_lt : z / y < 2 ^ 32 = (div-lt_iff_lt-mul pos).1 below in
    let r_lt : z % y < y = mod-lt z pos in
    let r_word : z % y < 2 ^ 32 = omega (arith, r_lt, y_lt) in
    let runs : u32_div hi lo y ≡ some (z / y, z % y) =
      rw
        (
          ne→== y 0 (λ e. absurd (omega (arith, e, pos))),
          lt→ltb hi y over,
          mod-eq_of_lt q_lt,
          mod-eq_of_lt r_word,
        )
        refl in
    (
      z / y,
      z % y,
      runs,
      ap rem_of runs,
      record { exact = div-add-mod z y; less = r_lt; word = q_lt },
    )
