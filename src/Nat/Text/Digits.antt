-- ===== src/Nat/Text/Digits.antt =====
-- The digits that `convertWords` writes for a word.
use native.Mathlib.Nat.{mod-lt, pow-succ', pow-zero, div-div-eq-div-mul, div-one}
use demo.Common.{
  ℕ, zero, suc, ◌+◌, ◌-◌, ◌*◌, ◌/◌, ◌%◌, ◌^◌, ◌≤◌, ◌<◌, ◌≡◌, refl, arith, List, some, get_elem?,
  set, length, ap, sym, drop, [], ◌∷◌, ◌++◌, get_elem?-set_self, get_elem?-set_ne, length-set,
  get_elem?_in, lt→ltb, ◌⊎◌, inl, inr, ◌∙◌,
}
use demo.Common.Effect.{◌>>=◌, >>=-some}
use demo.Nat.Text.{digits, digit, put_char, write_digits, write_decimals}

-- Before index `i` of `s`, in `s'`, stand the last `n` digits of `r`, or as many as there is room for.
pub record Written (b n r i : ℕ) (s s' : List ℕ) : Type 0 where
  pub size : length s' ≡ length s
  pub before : (j : ℕ) → j < i - n → get_elem? s' j ≡ get_elem? s j
  pub after : (j : ℕ) → i ≤ j → get_elem? s' j ≡ get_elem? s j
  pub char : (j : ℕ) → j < n → j < i → get_elem? s' (i - 1 - j) ≡ get_elem? digits (r / b ^ j % b)

put_char-some : (i c : ℕ) (s : List ℕ) → i < length s → put_char i c s ≡ some (tt, set s i c)
unfolding put_char
put_char-some i c s lt = rw (lt→ltb i (length s) lt) refl

digit-at : (d c : ℕ) (s : List ℕ) → get_elem? digits d ≡ some c → digit d s ≡ some (c, s)
unfolding digit
digit-at d c s at = rw at refl

digit-some :
    (d : ℕ) (s : List ℕ)
    → d < 62
    → (c : ℕ) × (get_elem? digits d ≡ some c) × (digit d s ≡ some (c, s))
digit-some d s lt =
    let size : length digits ≡ 62 = refl in
    let (c, at) = get_elem?_in digits d (omega arith) in (c, at, digit-at d c s at)

pub higher : (r b j : ℕ) → r / b / b ^ j % b ≡ r / b ^ suc j % b
higher r b j = ap (λ (t : ℕ). t % b) (rw (pow-succ' b j) (div-div-eq-div-mul r b (b ^ j)))

pub lowest : (r b : ℕ) → r / b ^ 0 % b ≡ r % b
lowest r b = ap (λ (t : ℕ). t % b) (rw (pow-zero b) (div-one r))

write_digits-suc :
    (b n r i c : ℕ) (s : List ℕ)
    → i < length s
    → digit (r % b) s ≡ some (c, s)
    → write_digits b (suc n) r (suc i) s ≡ write_digits b n (r / b) i (set s i c)
unfolding write_digits
write_digits-suc b n r i c s lt e =
    >>=-some (digit (r % b)) (λ c. put_char i c >>= λ _. write_digits b n (r / b) i) s e
    ∙ >>=-some (put_char i c) (λ _. write_digits b n (r / b) i) s (put_char-some i c s lt)

-- A digit written at `i`, and the others before it.
Written-suc :
    (b n r i c : ℕ) (s s' : List ℕ)
    → i < length s
    → get_elem? digits (r % b) ≡ some c
    → Written b n (r / b) i (set s i c) s'
    → Written b (suc n) r (suc i) s s'
Written-suc b n r i c s s' lt at w = record {
  size = w.size ∙ length-set s i c;
  before = λ j less.
      w.before j (omega arith) ∙ get_elem?-set_ne s i j c (λ e. absurd (omega (arith, e)));
  after =
      λ j le. w.after j (omega arith) ∙ get_elem?-set_ne s i j c (λ e. absurd (omega (arith, e)));
  char = at_char;
}
  where
    at_char :
        (j : ℕ)
        → j < suc n
        → j < suc i
        → get_elem? s' (suc i - 1 - j) ≡ get_elem? digits (r / b ^ j % b)
    at_char zero p q =
        let place : suc i - 1 - 0 ≡ i = omega arith in
        rw (place, lowest r b, at) (w.after i (omega arith) ∙ get_elem?-set_self s i c lt)
    at_char (suc j) p q =
        let place : suc i - 1 - suc j ≡ i - 1 - j = omega arith in
        rw (place, ← higher r b j) (w.char j (omega arith) (omega arith))

Written-none : (b n r i : ℕ) (s : List ℕ) → (n ≡ 0) ⊎ (i ≡ 0) → Written b n r i s s
Written-none b n r i s e = record {
  size = refl;
  before = λ j less. refl;
  after = λ j le. refl;
  char = λ j p q. absurd (elim e [ inl z ↦ omega (arith, z) | inr z ↦ omega (arith, z) ]);
}

-- The loop that writes the digits of a word in a base of at most 62, before an index of the array, ends
-- inside the array: it writes as many of the lowest digits as it is told and as there is room for, the
-- lowest one last, changes nothing else, and returns the index of the first one.
pub write_digits-Written :
    (b n r i : ℕ) (s : List ℕ)
    → 2 ≤ b
    → b ≤ 62
    → i ≤ length s
    → (s' : List ℕ) × (write_digits b n r i s ≡ some (i - n, s')) × Written b n r i s s'
unfolding write_digits
write_digits-Written b zero r i s two small fits =
    let all_left : i - 0 ≡ i = omega arith in
    (s, (rw all_left refl), Written-none b 0 r i s (inl refl))
write_digits-Written b (suc n) r zero s two small fits =
    let none_left : 0 - suc n ≡ 0 = omega arith in
    (s, (rw none_left refl), Written-none b (suc n) r 0 s (inr refl))
write_digits-Written b (suc n) r (suc i) s two small fits =
    let (c, at, ok) = digit-some (r % b) s (omega (arith, mod-lt r {m = b} (omega arith))) in
    let (s', rest, w) =
      write_digits-Written b n (r / b) i (set s i c) two small (omega (arith, length-set s i c)) in
    let same : suc i - suc n ≡ i - n = omega arith in
    (
      s',
      rw same (write_digits-suc b n r i c s (omega arith) ok ∙ rest),
      Written-suc b n r i c s s' (omega arith) at w,
    )

-- `n` codes from `c` on.
abbrev codes : ℕ → ℕ → List ℕ
codes c zero = []
codes c (suc n) = c ∷ codes (c + 1) n

codes-get_elem? :
    (c n d : ℕ) (rest : List ℕ) → d < n → get_elem? (codes c n ++ rest) d ≡ some (c + d)
codes-get_elem? c zero d rest lt = absurd (omega arith)
codes-get_elem? c (suc n) zero rest lt = ap some (omega arith)
codes-get_elem? c (suc n) (suc d) rest lt =
    codes-get_elem? (c + 1) n d rest (omega arith) ∙ ap some (omega arith)

decimal_chars : (d : ℕ) → d < 10 → get_elem? digits d ≡ some (48 + d)
decimal_chars d lt = codes-get_elem? 48 10 d (drop 10 digits) lt

digit_decimal : (r : ℕ) (s : List ℕ) → digit (r % 10) s ≡ some (48 + (r - r / 10 * 10), s)
digit_decimal r s =
    let low : r % 10 ≡ r - r / 10 * 10 = omega arith in
    digit-at (r % 10) _ s (decimal_chars (r % 10) (mod-lt r {m = 10} (omega arith)))
    ∙ ap (λ (t : ℕ). some (48 + t, s)) low

-- The loop for base 10, which takes the remainder by a subtraction and adds it to the code of '0', does,
-- before an index of the array, what the loop for the other bases does with 10.
pub write_decimals-digits :
    (n r i : ℕ) (s : List ℕ) → i ≤ length s → write_decimals n r i s ≡ write_digits 10 n r i s
unfolding write_decimals write_digits
write_decimals-digits zero r i s fits = refl
write_decimals-digits (suc n) r zero s fits = refl
write_decimals-digits (suc n) r (suc i) s fits =
    let c = 48 + (r - r / 10 * 10) in
    >>=-some (put_char i c) (λ _. write_decimals n (r / 10) i) s (put_char-some i c s (omega arith))
    ∙ write_decimals-digits n (r / 10) i (set s i c) (omega (arith, length-set s i c))
    ∙ sym (write_digits-suc 10 n r i c s (omega arith) (digit_decimal r s))
