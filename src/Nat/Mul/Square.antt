-- ===== src/Nat/Mul/Square.antt =====
-- cmake/bigint/src/natmul.c: squares. `none` is a fault of the heap, a failed assertion, or a
-- recursion deeper than the fuel.
pub mod Laws
use demo.Common.{ℕ, zero, suc, ◌+◌, ◌-◌, ◌*◌, ◌/◌, max, not, ltb, ◌==◌, if◌then◌else◌}
use demo.Memory.{M, pure, fault, ◌>>=◌, ◌>>◌}
use demo.Nat.{Nat, get, put, nat_new_len, nat_part, nat_norm, nat_clear, nat_free, nat_copy}
use demo.Nat.Shift.{shl_vu}
use demo.Nat.Add.{add_vv}
use demo.Nat.Mul.{mul_ww, add_mul_vvw, basic_mul}
use demo.Nat.Mul.Karatsuba.{is_basic, sub_halves, karatsuba_len, karatsuba_add, karatsuba_sub}
use demo.Nat.Mul.Whole.{add_at, add_product, nat_mul}

abbrev pub basic_sqr_threshold : ℕ
basic_sqr_threshold = 20

abbrev pub karatsuba_sqr_threshold : ℕ
karatsuba_sqr_threshold = 260

-- `z[i] = mulWW(d, d, &z[i + 1])`
unfoldable pub put_square : Nat → ℕ → ℕ → M (Unit {0})
put_square z i d = do put z (i + 1) (mul_ww d d).1; put z i (mul_ww d d).0

-- The loop of `basicSqr`: `n` rounds from index `i` on.
unfoldable pub sqr_loop : Nat → Nat → Nat → ℕ → ℕ → M (Unit {0})
sqr_loop z t x zero i = pure tt
sqr_loop z t x (suc n) i = do
  d ← get x i
  put_square z (2 * i) d
  part ← nat_part t i (2 * i)
  below ← nat_part x 0 i
  c ← add_mul_vvw part below d
  put t (2 * i) c
  sqr_loop z t x n (i + 1)

unfoldable pub basic_sqr : Nat → Nat → M Nat
basic_sqr z x = do
  let n = x.len
  t ← nat_new_len (2 * n)
  d ← get x 0
  put_square z 0 d
  sqr_loop z t x (n - 1) 1
  t1 ← nat_part t 1 (2 * n - 1)
  c ← shl_vu t1 t1 1
  put t (2 * n - 1) c
  add_vv z z t >>= λ _. nat_free t >>= λ _. pure z

unfoldable pub karatsuba_sqr : ℕ → Nat → Nat → M (Unit {0})
karatsuba_sqr zero z x = fault
karatsuba_sqr (suc f) z x =
    if is_basic karatsuba_sqr_threshold x.len
    then (do part ← nat_part z 0 (2 * x.len); basic_sqr part x >>= λ _. pure tt)
    else do
      let n = x.len
      let n2 = n / 2
      x0 ← nat_part x 0 n2
      x1 ← nat_part x n2 x.len
      karatsuba_sqr f z x0
      z1 ← nat_part z n z.len
      karatsuba_sqr f z1 x1
      xd ← nat_part z (2 * n) (2 * n + n2)
      sub_halves xd x1 x0 >>= λ _. pure tt
      p ← nat_part z (n * 3) z.len
      karatsuba_sqr f p xd
      r ← nat_part z (n * 4) z.len
      low ← nat_part z 0 (n * 2)
      nat_copy r low
      z2 ← nat_part z n2 z.len
      karatsuba_add z2 r n
      rn ← nat_part r n r.len
      karatsuba_add z2 rn n
      karatsuba_sub z2 p n

-- `natSqr` of one word.
abbrev pub sqr_word : Nat → M Nat
sqr_word x = do d ← get x 0; z ← nat_new_len 2; put_square z 0 d; nat_norm z

-- `natSqr` below the two thresholds.
abbrev pub sqr_short : Nat → M Nat
sqr_short x = do z ← nat_new_len (2 * x.len); basic_mul z x x; nat_norm z

abbrev pub sqr_middle : Nat → M Nat
sqr_middle x = do z ← nat_new_len (2 * x.len); z' ← basic_sqr z x; nat_norm z'

-- What `karatsubaSqr` of the first `k` words leaves out.
abbrev pub sqr_others : (Nat → M Nat) → ℕ → Nat → Nat → Nat → ℕ → M (Unit {0})
sqr_others sqr f z x x0 k = if not (ltb k x.len) then pure tt else do
  x0' ← nat_norm x0
  x1 ← nat_part x k x.len
  t ← nat_mul f x0' x1
  add_at z t k
  add_at z t k
  nat_free t >>= λ _. pure tt
  t' ← sqr x1
  add_at z t' (2 * k)
  nat_free t' >>= λ _. pure tt

unfoldable pub sqr_large : (Nat → M Nat) → ℕ → Nat → M Nat
sqr_large sqr f x = do
  let k = karatsuba_len x.len karatsuba_sqr_threshold
  x0 ← nat_part x 0 k
  z ← nat_new_len (max (6 * k) (2 * x.len))
  karatsuba_sqr f z x0
  z' ← nat_part z 0 (2 * x.len)
  high ← nat_part z' (2 * k) z'.len
  nat_clear high
  sqr_others sqr f z' x x0 k
  nat_norm z'

unfoldable pub nat_sqr : ℕ → Nat → M Nat
nat_sqr zero x = fault
nat_sqr (suc f) x =
    let large = sqr_large (nat_sqr f) f x in
    if x.len == 0
    then nat_new_len 0
    else (if x.len == 1
        then sqr_word x
        else (if ltb x.len basic_sqr_threshold
            then sqr_short x
            else (if ltb x.len karatsuba_sqr_threshold then sqr_middle x else large)))
