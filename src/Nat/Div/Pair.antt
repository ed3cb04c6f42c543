-- ===== src/Nat/Div/Pair.antt =====
-- `divWW` divides two words by one.
use native.Mathlib.Nat.{mul-le-mul_right, mod-eq_of_lt}
use demo.Common.{
  ℕ, ◌+◌, ◌-◌, ◌*◌, ◌/◌, ◌^◌, ◌<◌, ◌≡◌, refl, arith, ap, ap₂, ◌∙◌, some, ltb, ltb→lt, ltb→le, ◌==◌,
  ==→eq, Bool-cases, inl, inr,
}
use demo.Word.Carry.{B, u64, not64}
use demo.Word.Count.{leading_zeros, leading_zeros64, len}
use demo.Word.Count.Laws.{pow-pos}
use demo.Word.Div.Long.{shift_in, uint_div}
use demo.Word.Div.Long.Shift.{IsTop, leading_zeros64-IsTop, shifted_lt, shifted_number}
use demo.Word.Div.Long.Laws.{IsQuotient, u64_div-IsQuotient, unshift}
use demo.Nat.Div.{shift_back, div_shifted, reciprocal_shifted, div_normal, div_ww, reciprocal_word}
use demo.Nat.Div.Correct.{div_normal-IsPair}
use demo.Nat.Div.Reciprocal.{IsReciprocal, quotient_lt}

nlz_lem : (y : ℕ) → leading_zeros y ≡ leading_zeros64 y
unfolding leading_zeros leading_zeros64 len
nlz_lem y = refl

-- What `reciprocalWord` of `y` finds.
pub record Inverted (y : ℕ) : Type 0 where
  pub s : ℕ
  pub m : ℕ
  pub e : ℕ
  pub zeros : leading_zeros y ≡ some s
  pub top : IsTop y s
  pub returns : reciprocal_word y ≡ some m
  pub word : m < B
  pub inverse : IsReciprocal (y * 2 ^ s) m e

reciprocal_shifted_lem :
    (y s u q r : ℕ)
    → u64 (y * 2 ^ s) ≡ u
    → uint_div (not64 u) (B - 1) u ≡ some (q, r)
    → reciprocal_shifted y (some s) ≡ some q
reciprocal_shifted_lem y s u q r same e = rw (same, e) refl

pub reciprocal_word-Inverted : (y : ℕ) → 0 < y → y < B → Inverted y
unfolding reciprocal_word
reciprocal_word-Inverted y pos lt =
    let (s, at_s, top) = leading_zeros64-IsTop y pos lt in
    let u : ℕ = y * 2 ^ s in
    let zeros = nlz_lem y ∙ at_s in
    let same : u64 u ≡ u = mod-eq_of_lt top.word in
    let (q, r, long, whole, rem, rem', d) =
      u64_div-IsQuotient (not64 u) (B - 1) u top.word (omega arith)
        (omega (arith, top.word, top.big)) in
    record {
      s = s;
      m = q;
      e = r;
      zeros = zeros;
      top = top;
      returns = rw zeros (reciprocal_shifted_lem y s u q r same whole);
      word = d.word;
      inverse = record { exact = omega (arith, d.exact, top.word); less = d.less };
    }

IsQuotient-unique :
    (hi lo y q r q' r' : ℕ)
    → IsQuotient hi lo y q r
    → IsQuotient hi lo y q' r'
    → (q ≡ q') × (r ≡ r')
IsQuotient-unique hi lo y q r q' r' a b =
    let same : q ≡ q' = elim (Bool-cases (ltb q q')) [
      | inl lt ↦
          absurd (omega (arith, a.exact, a.less, b.exact, mul-le-mul_right y (ltb→lt q q' lt)))
      | inr ge ↦ elim (Bool-cases (ltb q' q)) [
        | inl lt ↦
            absurd (omega (arith, a.exact, b.exact, b.less, mul-le-mul_right y (ltb→lt q' q lt)))
        | inr ge' ↦ omega (arith, ltb→le q q' ge, ltb→le q' q ge')
      ]
    ] in
    (same, omega (arith, a.exact, b.exact, ap (λ (n : ℕ). n * y) same))

-- Where nothing is shifted, the words are those of the shift by 0.
div_shifted_lem :
    (x1 x0 y m s : ℕ)
    → x0 < B
    → x1 < y
    → IsTop y s
    → div_shifted x1 x0 y m (some s)
      ≡ some (shift_back s (div_normal (shift_in x1 x0 s) (u64 (x0 * 2 ^ s)) (y * 2 ^ s) m))
div_shifted_lem x1 x0 y m s x0_lt less top = elim (Bool-cases (s == 0)) [
  | inl e ↦
      let one : 2 ^ s ≡ 1 = ap (λ (k : ℕ). 2 ^ k) (==→eq s 0 e) in
      let same_y : y * 2 ^ s ≡ y = omega (arith, ap (λ (n : ℕ). y * n) one) in
      let same_1 : u64 (x1 * 2 ^ s) ≡ x1 =
        omega (arith, ap (λ (n : ℕ). x1 * n) one, same_y, top.word) in
      let same_0 : u64 (x0 * 2 ^ s) ≡ x0 = omega (arith, ap (λ (n : ℕ). x0 * n) one) in
      rw (e, same_1, same_0, same_y) refl
  | inr e ↦ let same : u64 (y * 2 ^ s) ≡ y * 2 ^ s = mod-eq_of_lt top.word in rw (e, same) refl
]

pub div_ww-IsQuotient :
    (x1 x0 y : ℕ) (v : Inverted y)
    → x0 < B
    → x1 < y
    → (q : ℕ) × (r : ℕ) × (div_ww x1 x0 y v.m ≡ some (q, r)) × IsQuotient x1 x0 y q r
unfolding div_ww
div_ww-IsQuotient x1 x0 y v x0_lt less =
    let p : ℕ = 2 ^ v.s in
    let low : ℕ = u64 (x0 * p) in
    let high : ℕ = shift_in x1 x0 v.s in
    let low_lt : low < B = omega arith in
    let d =
      div_normal-IsPair high low (y * p) v.m v.e v.top.big v.top.word low_lt
        (shifted_lt x1 x0 y v.s x0_lt less v.top) v.inverse v.word in
    let a = div_normal high low (y * p) v.m in
    (
      a.0,
      a.1 / p,
      rw v.zeros (div_shifted_lem x1 x0 y v.m v.s x0_lt less v.top),
      unshift x1 x0 y p a.0 a.1 (pow-pos v.s)
          (d.exact ∙ shifted_number x1 x0 y v.s x0_lt less v.top) d.less
          (quotient_lt a.0 (y * p) (high * B + low) (omega (arith, d.exact))
            (omega (arith, shifted_lt x1 x0 y v.s x0_lt less v.top))),
    )

-- `reciprocalWord` of a word y that is not 0 finds a word, and `divWW` with it divides two words x1
-- and x0, of which x1 is below y, as `UIntDiv` does: quotient and remainder are exact.
pub div_ww-uint_div :
    (x1 x0 y : ℕ)
    → y < B
    → x0 < B
    → x1 < y
    → (m : ℕ) × (q : ℕ) × (r : ℕ) × (reciprocal_word y ≡ some m)
      × (div_ww x1 x0 y m ≡ some (q, r))
      × (uint_div x1 x0 y ≡ some (q, r))
      × IsQuotient x1 x0 y q r
div_ww-uint_div x1 x0 y word x0_lt less =
    let v = reciprocal_word-Inverted y (omega arith) word in
    let (q, r, found, d) = div_ww-IsQuotient x1 x0 y v x0_lt less in
    let (q', r', long, whole, rem, rem', d') = u64_div-IsQuotient x1 x0 y word x0_lt less in
    let (same_q, same_r) = IsQuotient-unique x1 x0 y q' r' q r d' d in
    (v.m, q, r, v.returns, found, whole ∙ ap₂ (λ (a b : ℕ). some (a, b)) same_q same_r, d)
