-- ===== src/Rpc/Bytes.antt =====
-- Numbers as bytes, the lowest first, and C strings.
use demo.Common.{
  ℕ, zero, suc, ◌+◌, ◌*◌, ◌/◌, ◌%◌, ◌<◌, ◌≡◌, ◌≢◌, refl, arith, List, [], ◌∷◌, ◌++◌, length, All,
  ◌==◌, if◌then◌else◌, ne→==,
}

-- `n` bytes of the number `v`, as memory holds them.
abbrev pub le_bytes : ℕ → ℕ → List ℕ
le_bytes zero v = []
le_bytes (suc n) v = (v % 256) ∷ le_bytes n (v / 256)

abbrev pub from_le : List ℕ → ℕ
from_le [] = 0
from_le (b ∷ bs) = b + 256 * from_le bs

-- The number of values of `n` bytes.
abbrev pub span : ℕ → ℕ
span zero = 1
span (suc n) = 256 * span n

pub length-le_bytes : (n v : ℕ) → length (le_bytes n v) ≡ n
length-le_bytes zero v = refl
length-le_bytes (suc n) v = omega (arith, length-le_bytes n (v / 256))

pub from_le-le_bytes : (n v : ℕ) → v < span n → from_le (le_bytes n v) ≡ v
from_le-le_bytes zero v lt = omega arith
from_le-le_bytes (suc n) v lt = omega (arith, from_le-le_bytes n (v / 256) (omega arith))

-- Zeros behind do not change the number.
pub zeros : ℕ → List ℕ
zeros zero = []
zeros (suc n) = 0 ∷ zeros n

pub length-zeros : (n : ℕ) → length (zeros n) ≡ n
unfolding zeros
length-zeros zero = refl
length-zeros (suc n) = omega (arith, length-zeros n)

from_le-zeros : (n : ℕ) → from_le (zeros n) ≡ 0
unfolding zeros
from_le-zeros zero = refl
from_le-zeros (suc n) = omega (arith, from_le-zeros n)

pub from_le-append_zeros : (bs : List ℕ) (n : ℕ) → from_le (bs ++ zeros n) ≡ from_le bs
from_le-append_zeros [] n = from_le-zeros n
from_le-append_zeros (b ∷ bs) n = omega (arith, from_le-append_zeros bs n)

-- The string at the start of some bytes, without its NUL: what `strlen`, `strcmp` and `strcat` see.
abbrev pub c_string : List ℕ → List ℕ
c_string [] = []
c_string (b ∷ bs) = let rest = c_string bs in if b == 0 then [] else (b ∷ rest)

abbrev pub IsChar : ℕ → Type 0
IsChar b = b ≢ 0

abbrev pub IsText : List ℕ → Type 0
IsText s = All IsChar s

pub c_string-append : (s rest : List ℕ) → IsText s → c_string (s ++ (0 ∷ rest)) ≡ s
c_string-append [] rest p = refl
c_string-append (b ∷ s) rest p = rw (ne→== b 0 p.0, c_string-append s rest p.1) refl
