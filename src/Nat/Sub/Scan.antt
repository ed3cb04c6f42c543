-- ===== src/Nat/Sub/Scan.antt =====
-- The loops of natsub.c on lists of words: what number they write.
use demo.Common.{ℕ, ◌+◌, ◌*◌, ◌-◌, ◌<◌, ◌≤◌, ◌≡◌, refl, arith, ap, List, [], ◌∷◌, length}
use demo.Word.Carry.{B, uint_sub}
use demo.Word.Carry.Laws.{uint_sub_lem}
use demo.Nat.Value.{value, radix, AllWords, scan}
use demo.Nat.Add.{pass_carry}

-- `subVV` subtracts, and its result is the borrow.
pub scan-uint_sub :
    (xs ys : List ℕ) (c : ℕ)
    → length xs ≡ length ys
    → AllWords xs
    → AllWords ys
    → c ≤ 1
    → let r = scan uint_sub xs ys c in
      (value r.0 + value ys + c ≡ value xs + radix (length xs) * r.1) × AllWords r.0 × (r.1 ≤ 1)
scan-uint_sub [] [] c e p q hc = (omega arith, tt, hc)
scan-uint_sub [] (y ∷ ys) c e p q hc = absurd (omega arith)
scan-uint_sub (x ∷ xs) [] c e p q hc = absurd (omega arith)
scan-uint_sub (x ∷ xs) (y ∷ ys) c e p q hc =
    let (diff, word, borrow) = uint_sub_lem x y c p.0 q.0 hc in
    let (diffs, words, last) =
      scan-uint_sub xs ys (uint_sub x y c).1 (omega arith) p.1 q.1 borrow in
    (omega (arith, diff, diffs), (word, words), last)

uint_sub-no_borrow :
    (x c : ℕ) → x < B → c ≤ x → ((uint_sub x c 0).0 ≡ x - c) × ((uint_sub x c 0).1 ≡ 0)
uint_sub-no_borrow x c hx h =
    omega (arith, uint_sub_lem x c 0 (omega arith) (omega arith) (omega arith))

-- With no borrow left the loop of `subVW` copies.
scan-pass_none :
    (xs ys : List ℕ)
    → length xs ≡ length ys
    → AllWords xs
    → let r = scan (pass_carry uint_sub) xs ys (0, 0) in
      (value r.0 ≡ value xs) × AllWords r.0 × (r.1.0 ≡ 0)
scan-pass_none [] [] e p = (refl, tt, refl)
scan-pass_none [] (y ∷ ys) e p = absurd (omega arith)
scan-pass_none (x ∷ xs) [] e p = absurd (omega arith)
scan-pass_none (x ∷ xs) (y ∷ ys) e p =
    let (word, borrow) = uint_sub-no_borrow x 0 p.0 (omega arith) in
    let (same, words, last) = scan-pass_none xs ys (omega arith) p.1 in
    rw (borrow, word) (omega (arith, same), (omega (arith, p.0), words), last)

-- Where taking `c` from the first word needs no borrow, or there is no second word.
abbrev pub NoRipple : List ℕ → ℕ → Type 0
NoRipple [] c = Unit
NoRipple (x ∷ []) c = Unit
NoRipple (x ∷ (x' ∷ xs)) c = c ≤ x

-- `subVW` subtracts if no borrow is handed on from one word to the next.
pub scan-pass_borrow :
    (xs ys : List ℕ) (c : ℕ)
    → length xs ≡ length ys
    → AllWords xs
    → c < B
    → NoRipple xs c
    → let r = scan (pass_carry uint_sub) xs ys (c, 0) in
      (value r.0 + c ≡ value xs + radix (length xs) * r.1.0) × AllWords r.0
scan-pass_borrow [] [] c e p hc fits = (omega arith, tt)
scan-pass_borrow [] (y ∷ ys) c e p hc fits = absurd (omega arith)
scan-pass_borrow (x ∷ xs) [] c e p hc fits = absurd (omega arith)
scan-pass_borrow (x ∷ []) (y ∷ []) c e p hc fits =
    let (diff, word, borrow) = uint_sub_lem x c 0 p.0 hc (omega arith) in
    (omega (arith, diff), (word, tt))
scan-pass_borrow (x ∷ []) (y ∷ y' ∷ ys) c e p hc fits = absurd (omega arith)
scan-pass_borrow (x ∷ x' ∷ xs) (y ∷ []) c e p hc fits = absurd (omega arith)
scan-pass_borrow (x ∷ x' ∷ xs) (y ∷ y' ∷ ys) c e p hc fits =
    let (word, borrow) = uint_sub-no_borrow x c p.0 fits in
    let (same, words, last) = scan-pass_none (x' ∷ xs) (y' ∷ ys) (omega arith) p.1 in
    rw (borrow, word)
      (
        omega (arith, same, fits, ap (λ (t : ℕ). radix (length xs) * t) last),
        (omega (arith, p.0), words),
      )
