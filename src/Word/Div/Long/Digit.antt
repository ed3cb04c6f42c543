-- ===== src/Word/Div/Long/Digit.antt =====
-- A digit of a long division, as base.c finds it.
use native.Mathlib.Nat.{mul-le-mul_right, mod-eq_of_lt, div-lt_iff_lt-mul, div-add-mod, mod-lt}
use demo.Common.{
  ℕ, zero, suc, ◌+◌, ◌-◌, ◌*◌, ◌/◌, ◌%◌, ◌^◌, ◌≤◌, ◌<◌, ◌≡◌, refl, arith, Bool, true, false, ltb,
  leb, some, Option, ◌||◌, Bool-cases, ltb→lt, ltb→le, leb→le, leb→lt, ◌⊎◌, inl, inr,
}
use demo.Word.Carry.{u64}
use demo.Word.Carry.Laws.{product-le}
use demo.Word.Div.Long.{two32, lower_digit, next_digit}

-- `q` is the digit of the number `top` by `y`.
pub record IsDigit (y top q : ℕ) : Type 0 where
  pub le : q * y ≤ top
  pub lt : top < q * y + y
  pub word : q < two32

-- The divisor `yn1`, `yn0` with its top bit set, the number `un32` below it, and one digit more.
module _ (yn1 yn0 un32 un : ℕ) (big : two32 ≤ 2 * yn1) (yn1_lt : yn1 < two32) (yn0_lt : yn0 < two32)
    (un_lt : un < two32) (less : un32 < yn1 * two32 + yn0) where
  abbrev y : ℕ
  y = yn1 * two32 + yn0

  abbrev top : ℕ
  top = un32 * two32 + un

  -- Where the test ends the loop.
  found :
      (q rhat : ℕ)
      → q * yn1 + rhat ≡ un32
      → top < q * y + y
      → q < two32
      → q * yn0 ≤ two32 * rhat + un
      → IsDigit y top q
  found q rhat sum above word fits = record { le = omega (arith, sum); lt = above; word = word }

  digit_lt : (q : ℕ) → q * y ≤ top → q < two32
  digit_lt q le = elim (Bool-cases (ltb q two32)) [
    | inl lt ↦ ltb→lt q two32 lt
    | inr ge ↦ absurd (omega (arith, mul-le-mul_right y (ltb→le q two32 ge)))
  ]

  -- Where the test goes on, the digit is too large.
  too_large :
      (q rhat : ℕ)
      → q * yn1 + rhat ≡ un32
      → (two32 ≤ q) ⊎ (two32 * rhat + un < q * yn0)
      → top < q * y
  too_large q rhat sum (inl ge) = omega (arith, mul-le-mul_right y ge)
  too_large q rhat sum (inr gt) = omega (arith, sum)

  -- Where the remainder has grown past a digit, the loop stops early.
  grown :
      (q rhat : ℕ)
      → q * yn1 + rhat ≡ un32
      → top < q * y + y
      → q ≤ two32
      → two32 ≤ rhat
      → IsDigit y top q
  grown q rhat sum above le ge =
      let fits : q * y ≤ top = omega (arith, sum, mul-le-mul_right yn0 le) in
      record { le = fits; lt = above; word = digit_lt q fits }

  abbrev goes_on : ℕ → ℕ → Bool
  goes_on q rhat = leb two32 q || ltb (u64 (u64 (two32 * rhat) + un)) (u64 (q * yn0))

  small_sum : (rhat : ℕ) → rhat < two32 → u64 (u64 (two32 * rhat) + un) ≡ two32 * rhat + un
  small_sum rhat lt = omega arith

  small_product : (q : ℕ) → q < two32 → u64 (q * yn0) ≡ q * yn0
  small_product q lt =
      mod-eq_of_lt (omega (arith, product-le (two32 - 1) q yn0 (omega arith) (omega arith)))

  stops :
      (q rhat : ℕ)
      → rhat < two32
      → goes_on q rhat ≡ false
      → (q < two32) × (q * yn0 ≤ two32 * rhat + un)
  stops q rhat small e = elim (Bool-cases (leb two32 q)) [
    | inl ge ↦ absurd (ground (arith))
    | inr lt ↦
        let word = leb→lt two32 q lt in
        (word, rw (← small_sum rhat small, ← small_product q word) (ground arith))
  ]

  goes :
      (q rhat : ℕ)
      → rhat < two32
      → goes_on q rhat ≡ true
      → (two32 ≤ q) ⊎ (two32 * rhat + un < q * yn0)
  goes q rhat small e = elim (Bool-cases (leb two32 q)) [
    | inl ge ↦ inl (leb→le two32 q ge)
    | inr lt ↦
        let word = leb→lt two32 q lt in
        inr (rw (← small_sum rhat small, ← small_product q word) (ground arith))
  ]

  abbrev Finds : Option ℕ → Type 0
  Finds result = (q : ℕ) × (result ≡ some q) × IsDigit y top q

  -- A round of the loop.
  round :
      (f q rhat : ℕ)
      → q * yn1 + rhat ≡ un32
      → top < q * y + y
      → q ≤ two32 + 1
      → rhat < two32
      → ((q' : ℕ)
          → q' * yn1 + (rhat + yn1) ≡ un32
          → top < q' * y + y
          → q' ≤ two32
          → rhat + yn1 < two32
          → Finds (lower_digit yn1 yn0 un f q' (rhat + yn1)))
      → Finds (lower_digit yn1 yn0 un (suc f) q rhat)
  unfolding lower_digit
  round f zero rhat sum above le small next = elim (Bool-cases (goes_on zero rhat)) [
    | inl e ↦ absurd (omega (arith, too_large zero rhat sum (goes zero rhat small e)))
    | inr e ↦
        let (word, fits) = stops zero rhat small e in
        (zero, rw e refl, found zero rhat sum above word fits)
  ]
  round f (suc q') rhat sum above le small next = elim (Bool-cases (goes_on (suc q') rhat)) [
    | inl e ↦
        let over = too_large (suc q') rhat sum (goes (suc q') rhat small e) in
        let sum' : q' * yn1 + (rhat + yn1) ≡ un32 = omega (arith, sum) in
        let back : u64 (suc q' + 2 ^ 64 - 1) ≡ q' = omega arith in
        let up : u64 (rhat + yn1) ≡ rhat + yn1 = omega arith in
        elim (Bool-cases (leb two32 (rhat + yn1))) [
          | inl ge ↦ (
            q',
            rw (e, back, up, ge) refl,
            grown q' (rhat + yn1) sum' (omega (arith, over)) (omega arith)
                (leb→le two32 (rhat + yn1) ge),
          )
          | inr lt ↦
              rw (e, back, up, lt)
                (next q' sum' (omega (arith, over)) (omega arith) (leb→lt two32 (rhat + yn1) lt))
        ]
    | inr e ↦
        let (word, fits) = stops (suc q') rhat small e in
        (suc q', rw e refl, found (suc q') rhat sum above word fits)
  ]

  remainder_lt : un32 % yn1 < yn1
  remainder_lt = let pos : 0 < yn1 = omega arith in mod-lt un32 pos

  -- The first guess is at most 2 too large.
  guess_le : un32 / yn1 ≤ two32 + 1
  guess_le =
      let pos : 0 < yn1 = omega arith in
      let below : un32 / yn1 < two32 + 2 = (div-lt_iff_lt-mul pos).1 (omega arith) in omega arith

  -- `U64Div` finds the next digit of the quotient.
  pub next_digit-IsDigit : Finds (next_digit yn1 yn0 un32 un)
  unfolding next_digit
  next_digit-IsDigit =
      let q : ℕ = un32 / yn1 in
      let rhat : ℕ = un32 % yn1 in
      let parts = div-add-mod un32 yn1 in
      let less' = remainder_lt in
      let low : u64 (un32 / yn1 * yn1) ≡ un32 / yn1 * yn1 = mod-eq_of_lt (omega (arith, parts)) in
      let start : u64 (un32 + 2 ^ 64 - u64 (un32 / yn1 * yn1)) ≡ un32 % yn1 =
        rw low (omega (arith, parts, less')) in
      rw start (
        round 1 q rhat (omega (arith, parts)) (omega (arith, parts, less')) guess_le
          (omega (arith, less'))
          (λ q' sum above le small.
            round 0 q' (rhat + yn1) sum above (omega arith) small
              (λ q'' sum' above' le' small'. absurd (omega arith))))
