-- ===== src/Nat/Mul/Karatsuba.antt =====
-- cmake/bigint/src/natmul.c: Karatsuba's method, on views whose length is a power of 2 times at most
-- the threshold. `none` is a fault of the heap, a failed assertion, or a recursion deeper than the
-- fuel.
pub mod Threshold
use demo.Common.{
  ℕ, zero, suc, ◌+◌, ◌*◌, ◌/◌, ◌%◌, ◌^◌, Bool, true, false, not, ltb, ◌==◌, ◌&&◌, ◌||◌,
  if◌then◌else◌,
}
use demo.Memory.{M, pure, fault, ◌>>=◌, ◌>>◌, memcpy}
use demo.Nat.{Nat, nat_part}
use demo.Nat.Add.{add_vv, add_vw}
use demo.Nat.Sub.{sub_vv, sub_vw}
use demo.Nat.Mul.{basic_mul}

abbrev pub karatsuba_threshold : ℕ
karatsuba_threshold = 40

-- The loop of `karatsubaLen`, on `n` and `i`: `n` falls in each round, so that the fuel `n` is enough.
unfoldable pub karatsuba_len_loop : ℕ → ℕ → ℕ → ℕ → ℕ
karatsuba_len_loop threshold zero n i = n * 2 ^ i
karatsuba_len_loop threshold (suc f) n i =
    let rest = karatsuba_len_loop threshold f (n / 2) (suc i) in
    if ltb threshold n then rest else n * 2 ^ i

unfoldable pub karatsuba_len : ℕ → ℕ → ℕ
karatsuba_len n threshold = karatsuba_len_loop threshold n n 0

-- What `karatsubaAdd` and `karatsubaSub` do with the carry of the first `n` words.
abbrev pub carry_on : (Nat → Nat → ℕ → M ℕ) → Nat → ℕ → ℕ → M (Unit {0})
carry_on op z n c = if c == 0 then pure tt else do
  low ← nat_part z n (n + n / 2)
  high ← nat_part z n z.len
  op low high c >>= λ _. pure tt

unfoldable pub karatsuba_add : Nat → Nat → ℕ → M (Unit {0})
karatsuba_add z x n = do low ← nat_part z 0 n; c ← add_vv low z x; carry_on add_vw z n c

unfoldable pub karatsuba_sub : Nat → Nat → ℕ → M (Unit {0})
karatsuba_sub z x n = do low ← nat_part z 0 n; c ← sub_vv low z x; carry_on sub_vw z n c

-- `d = |a - b|`: whether the operands were swapped, so that the sign `s` changes.
unfoldable pub sub_halves : Nat → Nat → Nat → M Bool
sub_halves d a b = do
  c ← sub_vv d a b
  if c == 0 then pure false else (sub_vv d b a >>= λ _. pure true)

-- Where `s` is 1, and where it is -1.
abbrev pub add_middle : Bool → Nat → Nat → ℕ → M (Unit {0})
add_middle true z p n = karatsuba_add z p n
add_middle false z p n = karatsuba_sub z p n

abbrev pub is_basic : ℕ → ℕ → Bool
is_basic threshold n = not (n % 2 == 0) || ltb n threshold || ltb n 2

unfoldable pub karatsuba : ℕ → Nat → Nat → Nat → M (Unit {0})
karatsuba zero z x y = fault
karatsuba (suc f) z x y = if is_basic karatsuba_threshold y.len then basic_mul z x y else do
  let n = y.len
  let n2 = n / 2
  x0 ← nat_part x 0 n2
  x1 ← nat_part x n2 x.len
  y0 ← nat_part y 0 n2
  y1 ← nat_part y n2 y.len
  karatsuba f z x0 y0
  zn ← nat_part z n z.len
  karatsuba f zn x1 y1
  xd ← nat_part z (2 * n) (2 * n + n2)
  swapped_x ← sub_halves xd x1 x0
  yd ← nat_part z (2 * n + n2) (3 * n)
  swapped_y ← sub_halves yd y0 y1
  p ← nat_part z (n * 3) z.len
  karatsuba f p xd yd
  r ← nat_part z (n * 4) z.len
  memcpy r.blk r.off z.blk z.off (n * 2)
  z2 ← nat_part z n2 z.len
  karatsuba_add z2 r n
  rn ← nat_part r n r.len
  karatsuba_add z2 rn n
  add_middle ((swapped_x && swapped_y) || (not swapped_x && not swapped_y)) z2 p n
