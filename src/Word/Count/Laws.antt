-- ===== src/Word/Count/Laws.antt =====
-- The counts of bits are right, and their reads of the table are inside it.
use native.Mathlib.Nat.{pow-suc, mul-le-mul_left, one-le-pow, div-mul-le_self, lt-div-mul-add}
use demo.Common.{
  ℕ, zero, suc, ◌+◌, ◌*◌, ◌/◌, ◌^◌, ◌≤◌, ◌<◌, ◌≡◌, refl, arith, List, [], ◌∷◌, some, get_elem?,
  length, ltb, leb, ltb→lt, ==→eq, leb→le, Bool, true, false, ap, ◌&&◌, ◌||◌, ◌==◌, ◌⊎◌, inl, inr,
  Bool-cases,
}
use demo.Word.Count.{len8tab, len8, halve, add_len8, len64}

-- The number of bits of x is n.
abbrev pub IsLen : ℕ → ℕ → Type 0
IsLen x n = (x < 2 ^ n) × ((2 ^ n ≤ 2 * x) ⊎ (n ≡ 0))

-- A table from `i` on holds the numbers of bits.
abbrev fits : ℕ → List ℕ → Bool
fits i [] = true
fits i (n ∷ ns) = ltb i (2 ^ n) && ((leb (2 ^ n) (2 * i) || n == 0) && fits (i + 1) ns)

len8tab-fits : fits 0 len8tab ≡ true
len8tab-fits = refl

and-both : (a b : Bool) → (a && b) ≡ true → (a ≡ true) × (b ≡ true)
and-both true true e = (refl, refl)
and-both true false e = cc
and-both false true e = cc
and-both false false e = cc

or-one : (a b : Bool) → (a || b) ≡ true → (a ≡ true) ⊎ (b ≡ true)
or-one true b e = inl refl
or-one false true e = inr refl
or-one false false e = cc

first-IsLen :
    (i n : ℕ) → ltb i (2 ^ n) ≡ true → (leb (2 ^ n) (2 * i) ≡ true) ⊎ ((n == 0) ≡ true) → IsLen i n
first-IsLen i n lt (inl le) = (ltb→lt i (2 ^ n) lt, inl (leb→le (2 ^ n) (2 * i) le))
first-IsLen i n lt (inr e) = (ltb→lt i (2 ^ n) lt, inr (==→eq n 0 e))

IsLen-place : {x x' n : ℕ} → x ≡ x' → IsLen x n → IsLen x' n
IsLen-place e p = rw (← e) p

entry :
    (ns : List ℕ) (i j : ℕ)
    → fits i ns ≡ true
    → j < length ns
    → (n : ℕ) × (get_elem? ns j ≡ some n) × IsLen (i + j) n
entry [] i j e lt = absurd (omega arith)
entry (n ∷ ns) i zero e lt =
    let (below, more) = and-both (ltb i (2 ^ n)) _ e in
    let (top, rest) = and-both (leb (2 ^ n) (2 * i) || n == 0) _ more in
    (n, refl, IsLen-place (omega arith) (first-IsLen i n below (or-one _ _ top)))
entry (n ∷ ns) i (suc j) e lt =
    let (below, more) = and-both (ltb i (2 ^ n)) _ e in
    let (top, rest) = and-both (leb (2 ^ n) (2 * i) || n == 0) _ more in
    let (m, at, found) = entry ns (i + 1) j rest (omega arith) in
    (m, at, IsLen-place (omega arith) found)

len8-IsLen : (x : ℕ) → x < 256 → (n : ℕ) × (len8 x ≡ some n) × IsLen x n
unfolding len8
len8-IsLen x lt =
    let size : length len8tab ≡ 256 = refl in
    let (n, at, found) = entry len8tab 0 x len8tab-fits (omega arith) in
    (n, at, IsLen-place (omega arith) found)

pub pow_plus : (m k : ℕ) → 2 ^ (m + k) ≡ 2 ^ m * 2 ^ k
pow_plus m zero = let same : m + 0 ≡ m = omega arith in rw same (omega arith)
pow_plus m (suc k) =
    let same : m + suc k ≡ suc (m + k) = omega arith in
    rw (same, pow-suc 2 (m + k), pow-suc 2 k, pow_plus m k) (omega arith)

scaled :
    (K x q P : ℕ)
    → K ≤ x
    → q * K ≤ x
    → x < q * K + K
    → q < P
    → P ≤ 2 * q
    → (x < P * K) × (P * K ≤ 2 * x)
scaled K x q P le low high lt top = omega (arith, mul-le-mul_left K lt, mul-le-mul_left K top)

pub pow-pos : (k : ℕ) → 0 < 2 ^ k
pow-pos k = omega (arith, one-le-pow k 2 (omega arith))

small : (k x m : ℕ) → x / 2 ^ k < 2 ^ m → m ≡ 0 → x / 2 ^ k ≡ 0
small k x m lt e = omega (arith, ap (λ (t : ℕ). 2 ^ t) e)

-- A step of the search: the bits of x / 2^k and k more are those of x.
shift-IsLen : (k x m : ℕ) → 2 ^ k ≤ x → IsLen (x / 2 ^ k) m → IsLen x (m + k)
shift-IsLen k x m le (lt, inl top) =
    let r =
      scaled (2 ^ k) x (x / 2 ^ k) (2 ^ m) le (div-mul-le_self x (2 ^ k))
        (lt-div-mul-add (pow-pos k)) lt top in
    rw (pow_plus m k) (r.0, inl r.1)
shift-IsLen k x m le (lt, inr none') = absurd (
    omega (
      arith,
      lt-div-mul-add {a = x} (pow-pos k),
      ap (λ (t : ℕ). 2 ^ t) none',
      ap (λ (t : ℕ). t * 2 ^ k) (small k x m lt none'),
    ))

-- What `halve` leaves to count, for the bits of `y`.
abbrev Leaves : ℕ → ℕ × ℕ → Type 0
Leaves y (x, n) = (m : ℕ) → IsLen x m → IsLen y (m + n)

nothing-Leaves : (x : ℕ) → Leaves x (x, 0)
nothing-Leaves x m found = let same : m ≡ m + 0 = omega arith in rw (← same) found

halve-Leaves : (k y x n : ℕ) → Leaves y (x, n) → Leaves y (halve k (x, n))
halve-Leaves k y x n before = elim (Bool-cases (leb (2 ^ k) x)) [
  | inl e ↦ rw e (λ m found. more m found (leb→le (2 ^ k) x e))
  | inr e ↦ rw e before
]
  where
    more : (m : ℕ) → IsLen (x / 2 ^ k) m → 2 ^ k ≤ x → IsLen y (m + (n + k))
    more m found le =
        let same : m + k + n ≡ m + (n + k) = omega arith in
        rw (← same) (before (m + k) (shift-IsLen k x m le found))

halve_32 : (x n : ℕ) → x < 2 ^ 64 → (halve 32 (x, n)).0 < 2 ^ 32
halve_32 x n lt = ground arith

halve_16 : (x n : ℕ) → x < 2 ^ 32 → (halve 16 (x, n)).0 < 2 ^ 16
halve_16 x n lt = ground arith

halve_8 : (x n : ℕ) → x < 2 ^ 16 → (halve 8 (x, n)).0 < 256
halve_8 x n lt = ground arith

counted : (y x n : ℕ) → x < 256 → Leaves y (x, n) → (l : ℕ) × (add_len8 (x, n) ≡ some l) × IsLen y l
counted y x n lt before =
    let (m, at, found) = len8-IsLen x lt in
    let same : m + n ≡ n + m = omega arith in (n + m, rw at refl, rw (← same) (before m found))

-- `Len64` of a word reads inside its table and returns the number of bits: the word is below 2^n, and
-- not below half of that unless n is 0.
pub len64-IsLen : (x : ℕ) → x < 2 ^ 64 → (n : ℕ) × (len64 x ≡ some n) × IsLen x n
unfolding len64
len64-IsLen x lt =
    let a = halve 32 (x, 0) in
    let b = halve 16 a in
    let c = halve 8 b in
    counted x c.0 c.1 (halve_8 b.0 b.1 (halve_16 a.0 a.1 (halve_32 x 0 lt))) (
      halve-Leaves 8 x b.0 b.1
        (halve-Leaves 16 x a.0 a.1 (halve-Leaves 32 x x 0 (nothing-Leaves x))))
