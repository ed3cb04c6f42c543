-- ===== src/Nat/Text/ReadBack.antt =====
-- The digits that `convertWords` writes for a word, read back.
use native.Mathlib.Nat.{mod-lt, div-add-mod, div-lt_iff_lt-mul, pow-suc, pow-zero}
use demo.Common.{
  ℕ, zero, suc, ◌+◌, ◌-◌, ◌*◌, ◌/◌, ◌%◌, ◌^◌, ◌≤◌, ◌<◌, ◌≡◌, refl, arith, ap, sym, ◌∙◌, List, [],
  ◌∷◌, Option, none, some, Bool, true, false, get_elem?, length, ltb, if◌then◌else◌, ◌==◌, ◌&&◌,
  ==→eq, get_elem?_in,
}
use demo.Nat.Text.{digits, write_digits}
use demo.Nat.Text.Digits.{write_digits-Written, higher, lowest}

-- What a char is as a digit: '0' to '9', 'a' to 'z', 'A' to 'Z'.
abbrev pub digit_value : ℕ → ℕ
digit_value c = if ltb c 58 then c - 48 else (if ltb c 91 then c - 29 else c - 87)

-- The number that the `n` chars before index `i` are in base `b`, the lowest digit last.
abbrev pub read_digits : ℕ → ℕ → ℕ → List ℕ → Option ℕ
read_digits b zero i s = some 0
read_digits b (suc n) i s = elim (get_elem? s (i - 1)) [
  | none ↦ none
  | some c ↦ elim (read_digits b n (i - 1) s) [
    | none ↦ none
    | some v ↦ some (digit_value c + b * v)
  ]
]

-- The chars of a table from `i` on are the digits from `i` on.
abbrev in_order : ℕ → List ℕ → Bool
in_order i [] = true
in_order i (c ∷ cs) = (digit_value c == i) && in_order (suc i) cs

digits-in_order : in_order 0 digits ≡ true
digits-in_order = refl

and-both : (a b : Bool) → (a && b) ≡ true → (a ≡ true) × (b ≡ true)
and-both true true e = (refl, refl)
and-both true false e = cc
and-both false b e = cc

in_order-digit_value :
    (cs : List ℕ) (i d c : ℕ)
    → in_order i cs ≡ true
    → get_elem? cs d ≡ some c
    → digit_value c ≡ i + d
in_order-digit_value [] i d c e at = cc
in_order-digit_value (x ∷ cs) i zero c e at =
    let same : digit_value x ≡ i = ==→eq (digit_value x) i (and-both _ _ e).0 in
    let head : c ≡ x = cc in ap digit_value head ∙ same ∙ omega arith
in_order-digit_value (x ∷ cs) i (suc d) c e at =
    in_order-digit_value cs (suc i) d c (and-both _ _ e).1 at ∙ omega arith

read_digits-suc :
    (b n i c v : ℕ) (s : List ℕ)
    → get_elem? s (i - 1) ≡ some c
    → read_digits b n (i - 1) s ≡ some v
    → read_digits b (suc n) i s ≡ some (digit_value c + b * v)
read_digits-suc b n i c v s e e' = rw (read_digits, e, e') refl

-- Chars that are the digits of a number.
read_digits-number :
    (b n r i : ℕ) (s : List ℕ)
    → 2 ≤ b
    → b ≤ 62
    → n ≤ i
    → r < b ^ n
    → ((j : ℕ) → j < n → get_elem? s (i - 1 - j) ≡ get_elem? digits (r / b ^ j % b))
    → read_digits b n i s ≡ some r
read_digits-number b zero r i s two small fits lt chars = ap some (omega (arith, lt, pow-zero b))
read_digits-number b (suc n) r i s two small fits lt chars =
    let size : length digits ≡ 62 = refl in
    let (c, at) = get_elem?_in digits (r % b) (omega (arith, mod-lt r {m = b} (omega arith))) in
    let here : get_elem? s (i - 1) ≡ some c =
      ap (get_elem? s) (omega arith)
      ∙ chars 0 (omega arith)
      ∙ ap (get_elem? digits) (lowest r b)
      ∙ at in
    let high =
      (div-lt_iff_lt-mul {k = b} {x = r} {y = b ^ n} (omega arith)).1
        (omega (arith, lt, pow-suc b n)) in
    let rest = read_digits-number b n (r / b) (i - 1) s two small (omega arith) high (λ j p.
      ap (get_elem? s) (omega arith)
      ∙ chars (suc j) (omega arith)
      ∙ ap (get_elem? digits) (sym (higher r b j))) in
    read_digits-suc b n i c (r / b) s here rest
    ∙ ap some
        (omega (arith, in_order-digit_value digits 0 (r % b) c digits-in_order at, div-add-mod r b))

-- The digits that the loop of `convertWords` writes for a word below the power `b ^ n`, in a base `b`
-- from 2 to 62 and before an index at least `n`, are the word when they are read back.
pub write_digits-read_digits :
    (b n r i : ℕ) (s : List ℕ)
    → 2 ≤ b
    → b ≤ 62
    → n ≤ i
    → i ≤ length s
    → r < b ^ n
    → (s' : List ℕ) × (write_digits b n r i s ≡ some (i - n, s')) × (read_digits b n i s' ≡ some r)
write_digits-read_digits b n r i s two small room fits lt =
    let (s', e, w) = write_digits-Written b n r i s two small fits in
    (s', e, read_digits-number b n r i s' two small room lt (λ j p. w.char j p (omega arith)))
