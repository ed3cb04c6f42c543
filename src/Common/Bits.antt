-- ===== src/Common/Bits.antt =====
-- The operators `&` and `|` on the top bit of a word, at every width.
use Prim.Native.Nat.{
  ℕ, zero, suc, ◌+◌, ◌-◌, ◌*◌, ◌/◌, ◌%◌, ◌^◌, ◌≤◌, ◌<◌, min, max, differ, bit_and, bit_or, bit_xor,
  digits, bit_and-bitwise, bit_or-bitwise, bit_xor-bitwise,
}
use mathlib.Core.Path.{◌≡◌, refl, ap}
use native.Mathlib.Omega.{arith}
use native.Mathlib.Nat.{pow-suc, div-one, one-le-pow, div-add-mod, div-div-eq-div-mul}

-- The fuel of `digits` beyond the number itself is not used.
module _ (last : ℕ → ℕ) (f : ℕ → ℕ → ℕ) where
  digits-fuel : (m n a b : ℕ) → a ≤ m → a ≤ n → digits last f m a b ≡ digits last f n a b
  digits-fuel zero zero a b p q = refl
  digits-fuel zero (suc n) zero b p q = refl
  digits-fuel zero (suc n) (suc a) b p q = absurd (omega arith)
  digits-fuel (suc m) zero zero b p q = refl
  digits-fuel (suc m) zero (suc a) b p q = absurd (omega arith)
  digits-fuel (suc m) (suc n) zero b p q = refl
  digits-fuel (suc m) (suc n) (suc a) b p q =
      rw (digits-fuel m n (suc a / 2) (b / 2) (omega arith) (omega arith))

pub bit_and_digit : (a b : ℕ) → bit_and a b ≡ 2 * bit_and (a / 2) (b / 2) + min (a % 2) (b % 2)
bit_and_digit zero b = omega (arith, bit_and-bitwise 0 b, bit_and-bitwise 0 (b / 2))
bit_and_digit (suc a) b = omega (
  arith,
  bit_and-bitwise (suc a) b,
  bit_and-bitwise (suc a / 2) (b / 2),
  digits-fuel (λ n. 0) min a (suc a / 2) (suc a / 2) (b / 2) (omega arith) (omega arith),
)

pub bit_or_digit : (a b : ℕ) → bit_or a b ≡ 2 * bit_or (a / 2) (b / 2) + max (a % 2) (b % 2)
bit_or_digit zero b = omega (arith, bit_or-bitwise 0 b, bit_or-bitwise 0 (b / 2))
bit_or_digit (suc a) b = omega (
  arith,
  bit_or-bitwise (suc a) b,
  bit_or-bitwise (suc a / 2) (b / 2),
  digits-fuel (λ n. n) max a (suc a / 2) (suc a / 2) (b / 2) (omega arith) (omega arith),
)

pub bit_xor_digit : (a b : ℕ) → bit_xor a b ≡ 2 * bit_xor (a / 2) (b / 2) + differ (a % 2) (b % 2)
bit_xor_digit zero b = ground (arith, bit_xor-bitwise 0 b, bit_xor-bitwise 0 (b / 2))
bit_xor_digit (suc a) b = omega (
  arith,
  bit_xor-bitwise (suc a) b,
  bit_xor-bitwise (suc a / 2) (b / 2),
  digits-fuel (λ n. n) differ a (suc a / 2) (suc a / 2) (b / 2) (omega arith) (omega arith),
)

differ-lt : (a b : ℕ) → a < 2 → b < 2 → differ a b < 2
differ-lt zero b p q = q
differ-lt (suc a) zero p q = p
differ-lt (suc zero) (suc b) p q = omega arith
differ-lt (suc (suc a)) (suc b) p q = absurd (omega arith)

half-bit_xor : (a b : ℕ) → bit_xor a b / 2 ≡ bit_xor (a / 2) (b / 2)
half-bit_xor a b =
    omega (arith, bit_xor_digit a b, differ-lt (a % 2) (b % 2) (omega arith) (omega arith))

half-bit_and : (a b : ℕ) → bit_and a b / 2 ≡ bit_and (a / 2) (b / 2)
half-bit_and a b = omega (arith, bit_and_digit a b)

half-bit_or : (a b : ℕ) → bit_or a b / 2 ≡ bit_or (a / 2) (b / 2)
half-bit_or a b = omega (arith, bit_or_digit a b)

-- One more place to shift is a halving first.
div-pow-suc : (a k : ℕ) → a / 2 ^ suc k ≡ a / 2 / 2 ^ k
div-pow-suc a k = rw (div-div-eq-div-mul a 2 (2 ^ k)) (ap (λ d. a / d) (omega (arith, pow-suc 2 k)))

mod-pow-suc : (a k : ℕ) → a % 2 ^ suc k ≡ 2 * (a / 2 % 2 ^ k) + a % 2
mod-pow-suc a k = omega (
  arith,
  ap (λ (t : ℕ). t * (a / 2 ^ suc k)) (pow-suc 2 k),
  ap (λ (t : ℕ). 2 ^ k * t) (div-pow-suc a k),
  div-add-mod a (2 ^ suc k),
  div-add-mod (a / 2) (2 ^ k),
)

-- A shift right distributes over `&` and `|`.
pub shift-bit_and : (k a b : ℕ) → bit_and a b / 2 ^ k ≡ bit_and (a / 2 ^ k) (b / 2 ^ k)
shift-bit_and zero a b = simp div-one
shift-bit_and (suc k) a b =
    rw (div-pow-suc (bit_and a b) k, half-bit_and a b, div-pow-suc a k, div-pow-suc b k)
      (shift-bit_and k (a / 2) (b / 2))

pub shift-bit_or : (k a b : ℕ) → bit_or a b / 2 ^ k ≡ bit_or (a / 2 ^ k) (b / 2 ^ k)
shift-bit_or zero a b = simp div-one
shift-bit_or (suc k) a b =
    rw (div-pow-suc (bit_or a b) k, half-bit_or a b, div-pow-suc a k, div-pow-suc b k)
      (shift-bit_or k (a / 2) (b / 2))

-- On single bits `&` is the minimum and `|` the maximum.
pub bit_and_bits : (a b : ℕ) → a < 2 → b < 2 → bit_and a b ≡ min a b
bit_and_bits zero b p q = omega (arith, bit_and-bitwise 0 b)
bit_and_bits (suc zero) zero p q = refl
bit_and_bits (suc zero) (suc zero) p q = refl
bit_and_bits (suc zero) (suc (suc b)) p q = absurd (omega arith)
bit_and_bits (suc (suc a)) b p q = absurd (omega arith)

pub bit_or_bits : (a b : ℕ) → a < 2 → b < 2 → bit_or a b ≡ max a b
bit_or_bits zero b p q = omega (arith, bit_or-bitwise 0 b)
bit_or_bits (suc zero) zero p q = refl
bit_or_bits (suc zero) (suc zero) p q = refl
bit_or_bits (suc zero) (suc (suc b)) p q = absurd (omega arith)
bit_or_bits (suc (suc a)) b p q = absurd (omega arith)

pub shift-bit_xor : (k a b : ℕ) → bit_xor a b / 2 ^ k ≡ bit_xor (a / 2 ^ k) (b / 2 ^ k)
shift-bit_xor zero a b = simp div-one
shift-bit_xor (suc k) a b =
    rw (div-pow-suc (bit_xor a b) k, half-bit_xor a b, div-pow-suc a k, div-pow-suc b k)
      (shift-bit_xor k (a / 2) (b / 2))

pub bit_xor_bits : (a b : ℕ) → a < 2 → b < 2 → bit_xor a b ≡ max a b - min a b
bit_xor_bits zero b p q = omega (arith, bit_xor-bitwise 0 b)
bit_xor_bits (suc zero) zero p q = refl
bit_xor_bits (suc zero) (suc zero) p q = refl
bit_xor_bits (suc zero) (suc (suc b)) p q = absurd (omega arith)
bit_xor_bits (suc (suc a)) b p q = absurd (omega arith)

bit_and-zero_below : (n a : ℕ) → a ≤ n → bit_and a 0 ≡ 0
bit_and-zero_below n zero h = refl
bit_and-zero_below zero (suc a) h = absurd (omega arith)
bit_and-zero_below (suc n) (suc a) h =
    omega (arith, bit_and_digit (suc a) 0, bit_and-zero_below n (suc a / 2) (omega arith))

pub bit_and-zero : (a : ℕ) → bit_and a 0 ≡ 0
bit_and-zero a = bit_and-zero_below a a (omega arith)

-- A mask of `k` low ones is a remainder.
pub bit_and_mask : (k a : ℕ) → bit_and a (2 ^ k - 1) ≡ a % 2 ^ k
bit_and_mask zero a = omega (arith, bit_and-zero a)
bit_and_mask (suc k) a = ground (
  arith,
  pow-suc 2 k,
  one-le-pow k 2,
  bit_and_digit a (2 ^ suc k - 1),
  bit_and_mask k (a / 2),
  mod-pow-suc a k,
)

bit_or_fuel : (n a b : ℕ) → a ≤ n → b ≤ n → bit_or a b ≡ bit_or b a
bit_or_fuel zero a b p q =
    let a' : a ≡ 0 = omega arith in let b' : b ≡ 0 = omega arith in rw (a', b') refl
bit_or_fuel (suc n) a b p q = omega (
  arith,
  bit_or_digit a b,
  bit_or_digit b a,
  bit_or_fuel n (a / 2) (b / 2) (omega arith) (omega arith),
)

pub bit_or_comm : (a b : ℕ) → bit_or a b ≡ bit_or b a
bit_or_comm a b = bit_or_fuel (a + b) a b (omega arith) (omega arith)

bit_or_none : (n a : ℕ) → a ≤ n → bit_or a 0 ≡ a
bit_or_none zero a p = let a' : a ≡ 0 = omega arith in rw a' (omega (arith, bit_or-bitwise 0 0))
bit_or_none (suc n) a p = omega (arith, bit_or_digit a 0, bit_or_none n (a / 2) (omega arith))

-- `|` of a shifted word and of bits below it is a sum.
pub bit_or-add : (k a b : ℕ) → b < 2 ^ k → bit_or (a * 2 ^ k) b ≡ a * 2 ^ k + b
bit_or-add zero a b lt =
    let none' : b ≡ 0 = omega arith in
    let same : a * 2 ^ 0 ≡ a = omega arith in
    rw (none', same, bit_or_none a a (omega arith)) (omega arith)
bit_or-add (suc k) a b lt =
    let whole : a * 2 ^ suc k ≡ 2 * (a * 2 ^ k) =
      omega (arith, ap (λ (t : ℕ). a * t) (pow-suc 2 k)) in
    let half : a * 2 ^ suc k / 2 ≡ a * 2 ^ k = omega (arith, whole) in
    omega (
      arith,
      whole,
      bit_or_digit (a * 2 ^ suc k) b,
      ap (λ (t : ℕ). bit_or t (b / 2)) half,
      bit_or-add k a (b / 2) (omega (arith, pow-suc 2 k)),
    )
