-- ===== src/Word/Div/Long/Shift.antt =====
-- The shift before the 64-bit division of base.c: it puts the top bit of the divisor in place.
use native.Mathlib.Nat.{
  mul-le-mul_right, pow-le-pow_right, div-add-mod, mod-lt, div-lt_iff_lt-mul, mod-eq_of_lt,
}
use demo.Common.{
  ℕ, zero, suc, ◌+◌, ◌-◌, ◌*◌, ◌/◌, ◌%◌, ◌^◌, ◌≤◌, ◌<◌, ◌≡◌, refl, arith, ap, sym, ◌∙◌, some, ltb,
  ltb→lt, ltb→le, ◌==◌, Bool-cases, ==→eq, inl, inr,
}
use demo.Common.Bits.{bit_or-add}
use demo.Word.Carry.{B, u64}
use demo.Word.Count.{leading_zeros64}
use demo.Word.Count.Laws.{len64-IsLen, pow_plus, pow-pos}
use demo.Word.Div.Long.{shift_in}

-- Shifted by `s`, the word `y` has its top bit set.
pub record IsTop (y s : ℕ) : Type 0 where
  pub word : y * 2 ^ s < B
  pub big : B ≤ 2 * (y * 2 ^ s)
  pub less : s < 64

len-le : (y n : ℕ) → y < B → 2 ^ n ≤ 2 * y → n ≤ 64
len-le y n word le = elim (Bool-cases (ltb 64 n)) [
  | inl gt ↦
      let more : 2 ^ 65 ≤ 2 ^ n = pow-le-pow_right (omega arith) (ltb→lt 64 n gt) in
      absurd (omega (arith, more))
  | inr le' ↦ ltb→le 64 n le'
]

len-pos : (y n : ℕ) → 0 < y → y < 2 ^ n → 0 < n
len-pos y zero pos lt = absurd (omega arith)
len-pos y (suc n) pos lt = omega arith

pow_rest : (n : ℕ) → n ≤ 64 → 2 ^ n * 2 ^ (64 - n) ≡ B
pow_rest n le =
    let e : n + (64 - n) ≡ 64 = omega arith in sym (pow_plus n (64 - n)) ∙ ap (λ (k : ℕ). 2 ^ k) e

top_of_len : (y n : ℕ) → n ≤ 64 → 0 < n → y < 2 ^ n → 2 ^ n ≤ 2 * y → IsTop y (64 - n)
top_of_len y n le pos lt ge =
    let whole = pow_rest n le in
    record {
      word = omega (arith, whole, mul-le-mul_right (2 ^ (64 - n)) lt, pow-pos (64 - n));
      big = omega (arith, whole, mul-le-mul_right (2 ^ (64 - n)) ge);
      less = omega arith;
    }

pub leading_zeros64-IsTop :
    (y : ℕ) → 0 < y → y < B → (s : ℕ) × (leading_zeros64 y ≡ some s) × IsTop y s
unfolding leading_zeros64
leading_zeros64-IsTop y pos word =
    let (n, e, (lt, top)) = len64-IsLen y word in
    (
      64 - n,
      rw e refl,
      elim top [
        | inl ge ↦ top_of_len y n (len-le y n word ge) (len-pos y n pos lt) lt ge
        | inr none' ↦ absurd (omega (arith, ap (λ (k : ℕ). 2 ^ k) none'))
      ],
    )

-- The number `hi`, `lo`, shifted by `s`, in two words.
module _ (hi lo y s : ℕ) (lo_lt : lo < B) (less : hi < y) (t : IsTop y s) where
  abbrev P : ℕ
  P = 2 ^ s

  abbrev Q : ℕ
  Q = 2 ^ (64 - s)

  whole : P * Q ≡ B
  whole = pow_rest s (omega (arith, t.less))

  low_bits : Q * (lo / Q) + lo % Q ≡ lo
  low_bits = div-add-mod lo Q

  high_lt : lo / Q < P
  high_lt = (div-lt_iff_lt-mul (pow-pos (64 - s))).1 (omega (arith, whole, lo_lt))

  hi_word : u64 (hi * P) ≡ hi * P
  hi_word = mod-eq_of_lt (omega (arith, t.word, mul-le-mul_right P less))

  pub shift_in_lem : shift_in hi lo s ≡ hi * P + lo / Q
  shift_in_lem = elim (Bool-cases (s == 0)) [
    | inl e ↦ rw (e, hi_word) (omega (arith, high_lt, ap (λ (k : ℕ). 2 ^ k) (==→eq s 0 e)))
    | inr e ↦ rw (e, hi_word) (bit_or-add s hi (lo / Q) high_lt)
  ]

  rest_lt : lo % Q * P < B
  rest_lt =
      let below : lo % Q < Q = mod-lt lo (pow-pos (64 - s)) in
      omega (arith, whole, mul-le-mul_right P below, pow-pos s)

  pub shifted_low : u64 (lo * P) ≡ lo % Q * P
  shifted_low =
      let split : lo * P ≡ lo / Q * B + lo % Q * P =
        omega (arith, ap (λ (n : ℕ). n * P) low_bits, ap (λ (n : ℕ). lo / Q * n) whole) in
      rw split (omega (arith, rest_lt))

  pub shifted_lt : shift_in hi lo s < y * P
  shifted_lt = omega (arith, shift_in_lem, high_lt, mul-le-mul_right P less)

  pub shifted_number : shift_in hi lo s * B + u64 (lo * P) ≡ (hi * B + lo) * P
  shifted_number = omega (
    arith,
    shift_in_lem,
    shifted_low,
    ap (λ (n : ℕ). n * P) low_bits,
    ap (λ (n : ℕ). lo / Q * n) whole,
  )
