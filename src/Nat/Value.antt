-- ===== src/Nat/Value.antt =====
-- Lists of words as numbers, least significant word first, and loops with a carry on such lists.
use demo.Common.{
  ℕ, zero, suc, ◌+◌, ◌*◌, ◌<◌, ◌≤◌, ◌≡◌, ◌≢◌, refl, arith, ap, List, [], ◌∷◌, ◌++◌, length, All,
  replicate,
}
use demo.Word.Carry.{B}

abbrev pub IsWord : ℕ → Type 0
IsWord w = w < B

abbrev pub AllWords : List ℕ → Type 0
AllWords ws = All IsWord ws

-- The powers of `B`.
abbrev pub radix : ℕ → ℕ
radix zero = 1
radix (suc n) = B * radix n

abbrev pub value : List ℕ → ℕ
value [] = 0
value (w ∷ ws) = w + B * value ws

-- What a loop does that goes through two lists of words with a state: the words it writes, and
-- its last state.
module _ {S : Type 0} (f : ℕ → ℕ → S → ℕ × S) where
  abbrev pub scan : List ℕ → List ℕ → S → List ℕ × S
  scan [] ys s = ([], s)
  scan (x ∷ xs) [] s = ([], s)
  scan (x ∷ xs) (y ∷ ys) s = let rest = scan xs ys (f x y s).1 in ((f x y s).0 ∷ rest.0, rest.1)

  pub length-scan :
      (xs ys : List ℕ) (s : S) → length xs ≡ length ys → length (scan xs ys s).0 ≡ length xs
  length-scan [] ys s e = refl
  length-scan (x ∷ xs) [] s e = absurd (omega arith)
  length-scan (x ∷ xs) (y ∷ ys) s e = ap suc (length-scan xs ys (f x y s).1 (omega arith))

pub radix-pos : (n : ℕ) → 0 < radix n
radix-pos zero = omega arith
radix-pos (suc n) = omega (arith, radix-pos n)

pub value-lt : (ws : List ℕ) → AllWords ws → value ws < radix (length ws)
value-lt [] h = omega arith
value-lt (w ∷ ws) h = omega (arith, value-lt ws h.1)

pub value-append : (xs ys : List ℕ) → value (xs ++ ys) ≡ value xs + radix (length xs) * value ys
value-append [] ys = omega arith
value-append (x ∷ xs) ys = omega (arith, value-append xs ys)

pub AllWords-append : (xs ys : List ℕ) → AllWords xs → AllWords ys → AllWords (xs ++ ys)
AllWords-append [] ys p q = q
AllWords-append (x ∷ xs) ys p q = (p.0, AllWords-append xs ys p.1 q)

pub AllWords-replicate : (n : ℕ) → AllWords (replicate n 0)
AllWords-replicate zero = tt
AllWords-replicate (suc n) = (omega arith, AllWords-replicate n)

pub value-replicate : (n : ℕ) → value (replicate n 0) ≡ 0
value-replicate zero = refl
value-replicate (suc n) = omega (arith, value-replicate n)

pub AllWords-front : (xs ys : List ℕ) → AllWords (xs ++ ys) → AllWords xs
AllWords-front [] ys h = tt
AllWords-front (x ∷ xs) ys h = (h.0, AllWords-front xs ys h.1)

pub AllWords-back : (xs ys : List ℕ) → AllWords (xs ++ ys) → AllWords ys
AllWords-back [] ys h = h
AllWords-back (x ∷ xs) ys h = AllWords-back xs ys h.1

-- A word put on top.
pub value-snoc : (xs : List ℕ) (w : ℕ) → value (xs ++ (w ∷ [])) ≡ value xs + radix (length xs) * w
value-snoc xs w = omega (arith, value-append xs (w ∷ []))

pub radix-le-snoc : (xs : List ℕ) (w : ℕ) → w ≢ 0 → radix (length xs) ≤ value (xs ++ (w ∷ []))
radix-le-snoc xs w h = grind (arith, value-snoc xs w)

-- Two runs of words, and a carry on top.
pub value-parts :
    (xs ys : List ℕ) (c : ℕ)
    → value ((xs ++ ys) ++ (c ∷ []))
      ≡ value xs + radix (length xs) * (value ys + radix (length ys) * c)
value-parts [] ys c = omega (arith, value-snoc ys c)
value-parts (x ∷ xs) ys c = omega (arith, value-parts xs ys c)
