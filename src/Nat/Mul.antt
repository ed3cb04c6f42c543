-- ===== src/Nat/Mul.antt =====
-- cmake/bigint/src/natmul.c: a product by a word, and the school method.
pub mod Scan
pub mod Word
pub mod Round
pub mod Written
pub mod Basic
pub mod Karatsuba
pub mod Whole
pub mod Square
use demo.Common.{ℕ, zero, suc, ◌+◌, min, Bool, ltb, ◌==◌, ◌||◌, if◌then◌else◌}
use demo.Memory.{M, pure, ◌>>=◌, ◌>>◌}
use demo.Word.Carry.{u64, uint_add, uint_mul}
use demo.Nat.{Nat, get, put, nat_new, nat_new_len, nat_part, nat_norm, nat_clear}
use demo.Nat.Loop.{word_loop}

abbrev pub mul_ww : ℕ → ℕ → ℕ × ℕ
mul_ww x y = uint_mul x y

unfoldable pub mul_add_www : ℕ → ℕ → ℕ → ℕ × ℕ
mul_add_www x y c = let p = uint_mul x y in let s = uint_add p.0 c 0 in (s.0, u64 (p.1 + s.1))

-- One round of `addMulVVW`, on a word of `x`, a word of `z` and the carry.
unfoldable pub add_mul_round : ℕ → ℕ → ℕ → ℕ → ℕ × ℕ
add_mul_round y a b c =
    let p = mul_add_www a y b in let s = uint_add p.0 c 0 in (s.0, u64 (s.1 + p.1))

unfoldable pub add_mul_vvw : Nat → Nat → ℕ → M ℕ
add_mul_vvw z x y = word_loop (add_mul_round y) z x z (min z.len x.len) 0 0

-- The loop of `basicMul`: `n` rounds from index `i` on.
unfoldable pub basic_mul_loop : Nat → Nat → Nat → ℕ → ℕ → M (Unit {0})
basic_mul_loop z x y zero i = pure tt
basic_mul_loop z x y (suc n) i = do
  w ← get y i
  if w == 0 then basic_mul_loop z x y n (i + 1) else do
    part ← nat_part z i (i + x.len)
    c ← add_mul_vvw part x w
    put z (x.len + i) c
    basic_mul_loop z x y n (i + 1)

unfoldable pub basic_mul : Nat → Nat → Nat → M (Unit {0})
basic_mul z x y = do all ← nat_part z 0 (x.len + y.len); nat_clear all; basic_mul_loop z x y y.len 0

unfoldable pub mul_add_vww : Nat → Nat → ℕ → ℕ → M ℕ
mul_add_vww z x y r = word_loop (λ a b c. mul_add_www a y c) z x x (min z.len x.len) 0 r

unfoldable pub nat_mul_add_ww : Nat → ℕ → ℕ → M Nat
nat_mul_add_ww x y r = if x.len == 0 || y == 0 then nat_new r else do
  z ← nat_new_len (x.len + 1)
  zz ← nat_part z 0 x.len
  c ← mul_add_vww zz x y r
  put z x.len c
  nat_norm z
