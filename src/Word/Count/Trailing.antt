-- ===== src/Word/Count/Trailing.antt =====
-- cmake/bigint/src/base.c: the number of zeros below the lowest bit of a word that is set, looked up
-- with a de Bruijn sequence. `none` is a read outside the table.
use demo.Common.{
  ℕ, zero, suc, ◌-◌, ◌*◌, ◌/◌, ◌^◌, ◌<◌, ◌≤◌, ◌≡◌, refl, arith, bit_and, List, [], ◌∷◌, Option,
  none, some, get_elem?, Bool, true, false, ◌&&◌, ap, ==→eq, ne→==, ltb, ltb→lt, ltb→le, inl, inr,
  Bool-cases, ◌∙◌, ◌+◌, ◌==◌, if◌then◌else◌,
}
use native.Mathlib.Nat.{pow-suc, mod-eq_of_lt}
use demo.Common.Bits.{bit_and_digit}
use demo.Word.Count.Laws.{pow-pos, pow_plus}
use demo.Word.Carry.{uint_size, u32, u64}

abbrev pub de_bruijn32 : ℕ
de_bruijn32 = 125613361

abbrev pub de_bruijn32tab : List ℕ
de_bruijn32tab =
    0 ∷ 1 ∷ 28 ∷ 2 ∷ 29 ∷ 14 ∷ 24 ∷ 3 ∷ 30 ∷ 22 ∷ 20 ∷ 15 ∷ 25 ∷ 17 ∷ 4 ∷ 8 ∷ 31 ∷ 27 ∷ 13 ∷ 23 ∷ 21
    ∷ 19 ∷ 16 ∷ 7 ∷ 26 ∷ 12 ∷ 18 ∷ 6 ∷ 11 ∷ 5 ∷ 10 ∷ 9 ∷ []

abbrev pub de_bruijn64 : ℕ
de_bruijn64 = 285870213051353865

abbrev pub de_bruijn64tab : List ℕ
de_bruijn64tab =
    0 ∷ 1 ∷ 56 ∷ 2 ∷ 57 ∷ 49 ∷ 28 ∷ 3 ∷ 61 ∷ 58 ∷ 42 ∷ 50 ∷ 38 ∷ 29 ∷ 17 ∷ 4 ∷ 62 ∷ 47 ∷ 59 ∷ 36
    ∷ 45 ∷ 43 ∷ 51 ∷ 22 ∷ 53 ∷ 39 ∷ 33 ∷ 30 ∷ 24 ∷ 18 ∷ 12 ∷ 5 ∷ 63 ∷ 55 ∷ 48 ∷ 27 ∷ 60 ∷ 41 ∷ 37
    ∷ 16 ∷ 46 ∷ 35 ∷ 44 ∷ 21 ∷ 52 ∷ 32 ∷ 23 ∷ 11 ∷ 54 ∷ 26 ∷ 40 ∷ 15 ∷ 34 ∷ 20 ∷ 31 ∷ 10 ∷ 25 ∷ 14
    ∷ 19 ∷ 9 ∷ 13 ∷ 8 ∷ 7 ∷ 6 ∷ []

abbrev pub ntz8tab : List ℕ
ntz8tab =
    8 ∷ 0 ∷ 1 ∷ 0 ∷ 2 ∷ 0 ∷ 1 ∷ 0 ∷ 3 ∷ 0 ∷ 1 ∷ 0 ∷ 2 ∷ 0 ∷ 1 ∷ 0 ∷ 4 ∷ 0 ∷ 1 ∷ 0 ∷ 2 ∷ 0 ∷ 1 ∷ 0
    ∷ 3 ∷ 0 ∷ 1 ∷ 0 ∷ 2 ∷ 0 ∷ 1 ∷ 0 ∷ 5 ∷ 0 ∷ 1 ∷ 0 ∷ 2 ∷ 0 ∷ 1 ∷ 0 ∷ 3 ∷ 0 ∷ 1 ∷ 0 ∷ 2 ∷ 0 ∷ 1 ∷ 0
    ∷ 4 ∷ 0 ∷ 1 ∷ 0 ∷ 2 ∷ 0 ∷ 1 ∷ 0 ∷ 3 ∷ 0 ∷ 1 ∷ 0 ∷ 2 ∷ 0 ∷ 1 ∷ 0 ∷ 6 ∷ 0 ∷ 1 ∷ 0 ∷ 2 ∷ 0 ∷ 1 ∷ 0
    ∷ 3 ∷ 0 ∷ 1 ∷ 0 ∷ 2 ∷ 0 ∷ 1 ∷ 0 ∷ 4 ∷ 0 ∷ 1 ∷ 0 ∷ 2 ∷ 0 ∷ 1 ∷ 0 ∷ 3 ∷ 0 ∷ 1 ∷ 0 ∷ 2 ∷ 0 ∷ 1 ∷ 0
    ∷ 5 ∷ 0 ∷ 1 ∷ 0 ∷ 2 ∷ 0 ∷ 1 ∷ 0 ∷ 3 ∷ 0 ∷ 1 ∷ 0 ∷ 2 ∷ 0 ∷ 1 ∷ 0 ∷ 4 ∷ 0 ∷ 1 ∷ 0 ∷ 2 ∷ 0 ∷ 1 ∷ 0
    ∷ 3 ∷ 0 ∷ 1 ∷ 0 ∷ 2 ∷ 0 ∷ 1 ∷ 0 ∷ 7 ∷ 0 ∷ 1 ∷ 0 ∷ 2 ∷ 0 ∷ 1 ∷ 0 ∷ 3 ∷ 0 ∷ 1 ∷ 0 ∷ 2 ∷ 0 ∷ 1 ∷ 0
    ∷ 4 ∷ 0 ∷ 1 ∷ 0 ∷ 2 ∷ 0 ∷ 1 ∷ 0 ∷ 3 ∷ 0 ∷ 1 ∷ 0 ∷ 2 ∷ 0 ∷ 1 ∷ 0 ∷ 5 ∷ 0 ∷ 1 ∷ 0 ∷ 2 ∷ 0 ∷ 1 ∷ 0
    ∷ 3 ∷ 0 ∷ 1 ∷ 0 ∷ 2 ∷ 0 ∷ 1 ∷ 0 ∷ 4 ∷ 0 ∷ 1 ∷ 0 ∷ 2 ∷ 0 ∷ 1 ∷ 0 ∷ 3 ∷ 0 ∷ 1 ∷ 0 ∷ 2 ∷ 0 ∷ 1 ∷ 0
    ∷ 6 ∷ 0 ∷ 1 ∷ 0 ∷ 2 ∷ 0 ∷ 1 ∷ 0 ∷ 3 ∷ 0 ∷ 1 ∷ 0 ∷ 2 ∷ 0 ∷ 1 ∷ 0 ∷ 4 ∷ 0 ∷ 1 ∷ 0 ∷ 2 ∷ 0 ∷ 1 ∷ 0
    ∷ 3 ∷ 0 ∷ 1 ∷ 0 ∷ 2 ∷ 0 ∷ 1 ∷ 0 ∷ 5 ∷ 0 ∷ 1 ∷ 0 ∷ 2 ∷ 0 ∷ 1 ∷ 0 ∷ 3 ∷ 0 ∷ 1 ∷ 0 ∷ 2 ∷ 0 ∷ 1 ∷ 0
    ∷ 4 ∷ 0 ∷ 1 ∷ 0 ∷ 2 ∷ 0 ∷ 1 ∷ 0 ∷ 3 ∷ 0 ∷ 1 ∷ 0 ∷ 2 ∷ 0 ∷ 1 ∷ 0 ∷ []

unfoldable pub trailing_zeros8 : ℕ → Option ℕ
trailing_zeros8 x = get_elem? ntz8tab x

unfoldable pub trailing_zeros16 : ℕ → Option ℕ
trailing_zeros16 x =
    if x == 0
    then some 16
    else get_elem? de_bruijn32tab (u64 (bit_and x (u32 (2 ^ 32 - x)) * de_bruijn32) / 2 ^ (32 - 5))

-- `deBruijn32` has 64 bits: the product is not cut to 32, here as in `TrailingZeros16`.
unfoldable pub trailing_zeros32 : ℕ → Option ℕ
trailing_zeros32 x =
    if x == 0
    then some 32
    else get_elem? de_bruijn32tab (u64 (bit_and x (u32 (2 ^ 32 - x)) * de_bruijn32) / 2 ^ (32 - 5))

unfoldable pub trailing_zeros64 : ℕ → Option ℕ
trailing_zeros64 x =
    if x == 0
    then some 64
    else get_elem? de_bruijn64tab (u64 (bit_and x (u64 (2 ^ 64 - x)) * de_bruijn64) / 2 ^ (64 - 6))

unfoldable pub trailing_zeros : ℕ → Option ℕ
trailing_zeros x = if uint_size == 32 then trailing_zeros32 (u32 x) else trailing_zeros64 x

-- A test that holds of each number below `n`.
all_below : ℕ → (ℕ → Bool) → Bool
all_below zero p = true
all_below (suc n) p = p n && all_below n p

all_below-holds : (n : ℕ) (p : ℕ → Bool) (k : ℕ) → all_below n p ≡ true → k < n → p k ≡ true
unfolding all_below
all_below-holds zero p k h lt = absurd (omega arith)
all_below-holds (suc n) p k h lt = ground (arith, all_below-holds n p k)

abbrev finds : Option ℕ → ℕ → Bool
finds none k = false
finds (some n) k = n == k

finds-some : (o : Option ℕ) (k : ℕ) → finds o k ≡ true → o ≡ some k
finds-some none k e = cc
finds-some (some n) k e = ap some (==→eq n k e)

abbrev fails : Option ℕ → Bool
fails none = true
fails (some n) = false

fails-none : (o : Option ℕ) → fails o ≡ true → o ≡ none
fails-none none e = refl
fails-none (some n) e = cc

-- What `TrailingZeros64` looks up for the bit `k`.
abbrev bit_of : ℕ → Option ℕ
bit_of k = get_elem? de_bruijn64tab (u64 (2 ^ k * de_bruijn64) / 2 ^ (64 - 6))

table64 : all_below 64 (λ k. finds (bit_of k) k) ≡ true
unfolding all_below
table64 = refl

outside32 : all_below 26 (λ k. fails (trailing_zeros32 (2 ^ (k + 6)))) ≡ true
unfolding all_below trailing_zeros32
outside32 = refl

table8 : all_below 8 (λ k. finds (trailing_zeros8 (2 ^ k)) k) ≡ true
unfolding all_below trailing_zeros8
table8 = refl

trailing_zeros8-pow : (k : ℕ) → k < 8 → trailing_zeros8 (2 ^ k) ≡ some k
trailing_zeros8-pow k lt =
    finds-some _ k (all_below-holds 8 (λ k. finds (trailing_zeros8 (2 ^ k)) k) k table8 lt)

-- A number below a power of 2 has no bit in common with what it lacks of the largest one below it.
bit_and-complement : (v a b : ℕ) → a + b + 1 ≡ 2 ^ v → bit_and a b ≡ 0
bit_and-complement zero a b e =
    let none_a : a ≡ 0 = omega arith in let none_b : b ≡ 0 = omega arith in rw (none_a, none_b) refl
bit_and-complement (suc v) a b e =
    let p = pow-suc 2 v in
    let rest = bit_and-complement v (a / 2) (b / 2) (omega (arith, e, p)) in
    omega (arith, bit_and_digit a b, rest, e, p)

-- Twice a product, and the product of an odd number and a power of 2.
doubled : (m k : ℕ) → (2 * m + 1) * 2 ^ suc k ≡ 2 * ((2 * m + 1) * 2 ^ k)
doubled m k = rw (pow-suc 2 k) (omega arith)

odd-pos : (m k : ℕ) → 0 < (2 * m + 1) * 2 ^ k
odd-pos m k = omega (arith, pow-pos k)

-- A number and what it lacks of a power of 2 have its lowest bit in common.
bit_and-lowest :
    (k w m y : ℕ)
    → 0 < y
    → (2 * m + 1) * 2 ^ k + y ≡ 2 ^ w
    → bit_and ((2 * m + 1) * 2 ^ k) y ≡ 2 ^ k
bit_and-lowest zero zero m y pos e = absurd (omega (arith, e))
bit_and-lowest zero (suc w) m y pos e =
    let p = pow-suc 2 w in
    let same : (2 * m + 1) * 2 ^ 0 ≡ 2 * m + 1 = omega arith in
    let half : (2 * m + 1) / 2 ≡ m = omega arith in
    let rest = bit_and-complement w m (y / 2) (omega (arith, e, p)) in
    rw same (
      omega
        (arith, bit_and_digit (2 * m + 1) y, ap (λ (t : ℕ). bit_and t (y / 2)) half, rest, e, p))
bit_and-lowest (suc k) zero m y pos e = absurd (omega (arith, e, odd-pos m (suc k)))
bit_and-lowest (suc k) (suc w) m y pos e =
    let x : ℕ = (2 * m + 1) * 2 ^ k in
    let d = doubled m k in
    let half : 2 * x / 2 ≡ x = omega arith in
    let rest =
      bit_and-lowest k w m (y / 2) (omega (arith, e, d, pos, pow-suc 2 w))
        (omega (arith, e, d, pow-suc 2 w)) in
    rw (d, pow-suc 2 k)
      (omega (
        arith,
        bit_and_digit (2 * x) y,
        ap (λ (t : ℕ). bit_and t (y / 2)) half,
        rest,
        e,
        d,
        pow-suc 2 w,
      ))

exponent-lt : (m k : ℕ) → (2 * m + 1) * 2 ^ k < 2 ^ 64 → k < 64
exponent-lt m k lt = elim (Bool-cases (ltb k 64)) [
  | inl e ↦ ltb→lt k 64 e
  | inr e ↦
      let le = ltb→le k 64 e in
      let same : k ≡ 64 + (k - 64) = omega arith in
      absurd (omega (arith, lt, ap (λ (t : ℕ). 2 ^ t) same, pow_plus 64 (k - 64), pow-pos (k - 64)))
]

-- What is looked up for the lowest bit of a word.
trailing_zeros64-lookup :
    (x y : ℕ)
    → 0 < x
    → bit_and x (u64 (2 ^ 64 - x)) ≡ y
    → trailing_zeros64 x ≡ get_elem? de_bruijn64tab (u64 (y * de_bruijn64) / 2 ^ (64 - 6))
unfolding trailing_zeros64
trailing_zeros64-lookup x y pos e = rw (ne→== x 0 (λ z. absurd (omega arith)), e) refl

-- `TrailingZeros` of a word that is not 0 reads inside its table and finds the exponent of the highest
-- power of 2 that divides the word: for an odd number times 2^k, it finds k.
pub trailing_zeros-pow :
    (m k : ℕ) → (2 * m + 1) * 2 ^ k < 2 ^ 64 → trailing_zeros ((2 * m + 1) * 2 ^ k) ≡ some k
unfolding trailing_zeros
trailing_zeros-pow m k lt =
    let x : ℕ = (2 * m + 1) * 2 ^ k in
    let pos = odd-pos m k in
    let same : u64 (2 ^ 64 - x) ≡ 2 ^ 64 - x = mod-eq_of_lt (omega arith) in
    let low = bit_and-lowest k 64 m (2 ^ 64 - x) (omega arith) (omega arith) in
    trailing_zeros64-lookup x (2 ^ k) pos (ap (bit_and x) same ∙ low)
    ∙ finds-some _ k (all_below-holds 64 (λ k. finds (bit_of k) k) k table64 (exponent-lt m k lt))

-- `TrailingZeros32` of a power of 2 from 2^6 to 2^31 reads outside its table.
pub trailing_zeros32-pow : (k : ℕ) → 6 ≤ k → k < 32 → trailing_zeros32 (2 ^ k) ≡ none
trailing_zeros32-pow k le lt =
    let same : k - 6 + 6 ≡ k = omega arith in
    fails-none _ (
      rw (← same) (
        all_below-holds 26 (λ k. fails (trailing_zeros32 (2 ^ (k + 6)))) (k - 6) outside32
          (omega arith)))
