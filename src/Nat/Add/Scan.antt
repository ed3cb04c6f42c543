-- ===== src/Nat/Add/Scan.antt =====
-- The loops of natadd.c on lists of words: what number they write.
use demo.Common.{ℕ, ◌+◌, ◌*◌, ◌<◌, ◌≤◌, ◌≡◌, refl, arith, ap, List, [], ◌∷◌, length}
use demo.Word.Carry.{B, uint_add}
use demo.Word.Carry.Laws.{uint_add_lem}
use demo.Nat.Value.{value, radix, AllWords, scan}
use demo.Nat.Add.{pass_carry}

-- `addVV` adds, and its result is the carry.
pub scan-uint_add :
    (xs ys : List ℕ) (c : ℕ)
    → length xs ≡ length ys
    → AllWords xs
    → AllWords ys
    → c ≤ 1
    → let r = scan uint_add xs ys c in
      (value r.0 + radix (length xs) * r.1 ≡ value xs + value ys + c) × AllWords r.0 × (r.1 ≤ 1)
scan-uint_add [] [] c e p q hc = (omega arith, tt, hc)
scan-uint_add [] (y ∷ ys) c e p q hc = absurd (omega arith)
scan-uint_add (x ∷ xs) [] c e p q hc = absurd (omega arith)
scan-uint_add (x ∷ xs) (y ∷ ys) c e p q hc =
    let (sum, word, carry) = uint_add_lem x y c p.0 q.0 hc in
    let (sums, words, last) = scan-uint_add xs ys (uint_add x y c).1 (omega arith) p.1 q.1 carry in
    (omega (arith, sum, sums), (word, words), last)

uint_add-no_carry : (x c : ℕ) → x + c < B → ((uint_add x c 0).0 ≡ x + c) × ((uint_add x c 0).1 ≡ 0)
uint_add-no_carry x c h =
    omega (arith, uint_add_lem x c 0 (omega arith) (omega arith) (omega arith))

-- With no carry left the loop of `addVW` copies.
scan-pass_none :
    (xs ys : List ℕ)
    → length xs ≡ length ys
    → AllWords xs
    → let r = scan (pass_carry uint_add) xs ys (0, 0) in
      (value r.0 ≡ value xs) × AllWords r.0 × (r.1.0 ≡ 0)
scan-pass_none [] [] e p = (refl, tt, refl)
scan-pass_none [] (y ∷ ys) e p = absurd (omega arith)
scan-pass_none (x ∷ xs) [] e p = absurd (omega arith)
scan-pass_none (x ∷ xs) (y ∷ ys) e p =
    let (word, carry) = uint_add-no_carry x 0 (omega (arith, p.0)) in
    let (same, words, last) = scan-pass_none xs ys (omega arith) p.1 in
    rw (carry, word) (omega (arith, same), (omega (arith, p.0), words), last)

-- Where adding `c` to the first word gives no carry, or there is no second word.
abbrev pub NoRipple : List ℕ → ℕ → Type 0
NoRipple [] c = Unit
NoRipple (x ∷ []) c = Unit
NoRipple (x ∷ (x' ∷ xs)) c = x + c < B

-- `addVW` adds if no carry is handed on from one word to the next.
pub scan-pass_carry :
    (xs ys : List ℕ) (c : ℕ)
    → length xs ≡ length ys
    → AllWords xs
    → c < B
    → NoRipple xs c
    → let r = scan (pass_carry uint_add) xs ys (c, 0) in
      (value r.0 + radix (length xs) * r.1.0 ≡ value xs + c) × AllWords r.0 × (r.1.0 < B)
scan-pass_carry [] [] c e p hc fits = (omega arith, tt, hc)
scan-pass_carry [] (y ∷ ys) c e p hc fits = absurd (omega arith)
scan-pass_carry (x ∷ xs) [] c e p hc fits = absurd (omega arith)
scan-pass_carry (x ∷ []) (y ∷ []) c e p hc fits =
    let (sum, word, carry) = uint_add_lem x c 0 p.0 hc (omega arith) in
    (omega (arith, sum), (word, tt), omega (arith, carry))
scan-pass_carry (x ∷ []) (y ∷ y' ∷ ys) c e p hc fits = absurd (omega arith)
scan-pass_carry (x ∷ x' ∷ xs) (y ∷ []) c e p hc fits = absurd (omega arith)
scan-pass_carry (x ∷ x' ∷ xs) (y ∷ y' ∷ ys) c e p hc fits =
    let (word, carry) = uint_add-no_carry x c fits in
    let (same, words, last) = scan-pass_none (x' ∷ xs) (y' ∷ ys) (omega arith) p.1 in
    rw (carry, word)
      (
        omega (arith, same, ap (λ (t : ℕ). radix (length xs) * t) last),
        (fits, words),
        omega (arith, last),
      )

-- A carry that is handed on is added twice: from the second word on the sum is 1 too large.
pub scan-pass_twice :
    (x x' : ℕ) (xs : List ℕ) (y y' : ℕ) (ys : List ℕ) (c : ℕ)
    → length xs ≡ length ys
    → AllWords (x ∷ x' ∷ xs)
    → c < B
    → B ≤ x + c
    → x' + 2 < B
    → let r = scan (pass_carry uint_add) (x ∷ x' ∷ xs) (y ∷ y' ∷ ys) (c, 0) in
      (value r.0 ≡ value (x ∷ x' ∷ xs) + c + B) × AllWords r.0 × (r.1.0 ≡ 0)
scan-pass_twice x x' xs y y' ys c e p hc over room =
    let (sum, word, carry) = uint_add_lem x c 0 p.0 hc (omega arith) in
    let one : (uint_add x c 0).1 ≡ 1 = omega (arith, sum, word, carry) in
    let (sum', word', carry') = uint_add_lem x' 1 1 p.1.0 (omega arith) (omega arith) in
    let none' : (uint_add x' 1 1).1 ≡ 0 = omega (arith, sum', room) in
    let (same, words, last) = scan-pass_none xs ys e p.1.1 in
    rw (one, none') (omega (arith, same, sum, one, sum', none'), (word, (word', words)), last)
