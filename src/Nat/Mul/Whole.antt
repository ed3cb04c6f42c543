-- ===== src/Nat/Mul/Whole.antt =====
-- cmake/bigint/src/natmul.c: the product of two views of any lengths. `none` is a fault of the heap,
-- a failed assertion, or a recursion deeper than the fuel.
pub mod Laws
use demo.Common.{ℕ, zero, suc, ◌+◌, ◌-◌, ◌*◌, max, ltb, not, ◌==◌, ◌&&◌, ◌||◌, if◌then◌else◌}
use demo.Memory.{M, pure, fault, ◌>>=◌, ◌>>◌}
use demo.Nat.{Nat, get, nat_new, nat_new_len, nat_part, nat_norm, nat_clear, nat_free}
use demo.Nat.Add.{add_vv, add_vw}
use demo.Nat.Mul.{basic_mul, nat_mul_add_ww}
use demo.Nat.Mul.Karatsuba.{karatsuba, karatsuba_len, karatsuba_threshold}

-- What `addAt` does with the carry above word `j`.
abbrev pub add_rest : Nat → ℕ → ℕ → M (Unit {0})
add_rest z j c =
    if not (c == 0) && ltb j z.len
    then (do z3 ← nat_part z j z.len; add_vw z3 z3 c >>= λ _. pure tt)
    else pure tt

unfoldable pub add_at : Nat → Nat → ℕ → M (Unit {0})
add_at z x i = if x.len == 0 then pure tt else do
  z1 ← nat_part z i (i + x.len)
  z2 ← nat_part z i z.len
  c ← add_vv z1 z2 x
  add_rest z (i + x.len) c

-- `t = natMul(x, y); addAt(z, t, i); natFree(&t);`, with the product as an argument.
unfoldable pub add_product : (Nat → Nat → M Nat) → Nat → Nat → Nat → ℕ → M (Unit {0})
add_product mul z x y i = do t ← mul x y; add_at z t i; nat_free t >>= λ _. pure tt

-- At most `k` words of `x` from index `i` on.
abbrev pub chunk : Nat → ℕ → ℕ → M Nat
chunk x k i = do xi ← nat_part x i x.len; if ltb k xi.len then nat_part xi 0 k else pure xi

-- The loop of `natMul` on `i`, which grows by `k`, at least 1: as many rounds as `x` has words are
-- enough.
unfoldable pub mul_chunks : (Nat → Nat → M Nat) → Nat → Nat → Nat → Nat → ℕ → ℕ → ℕ → M (Unit {0})
mul_chunks mul z x y0 y1 k zero i = if ltb i x.len then fault else pure tt
mul_chunks mul z x y0 y1 k (suc f) i = if not (ltb i x.len) then pure tt else do
  part ← chunk x k i
  xi ← nat_norm part
  add_product mul z xi y0 i
  add_product mul z xi y1 (i + k)
  mul_chunks mul z x y0 y1 k f (i + k)

-- The products that `karatsuba` leaves out, added.
unfoldable pub add_others : (Nat → Nat → M Nat) → Nat → Nat → Nat → Nat → Nat → ℕ → M (Unit {0})
add_others mul z x y x0 y0 k = if not (ltb k y.len || not (x.len == y.len)) then pure tt else do
  x0' ← nat_norm x0
  y1 ← nat_part y k y.len
  add_product mul z x0' y1 k
  y0' ← nat_norm y0
  mul_chunks mul z x y0' y1 k x.len k

-- `natMul` where `y` is not the longer one, and has at least `karatsubaThreshold` words.
unfoldable pub mul_large : (Nat → Nat → M Nat) → ℕ → Nat → Nat → M Nat
mul_large mul f x y = do
  let k = karatsuba_len y.len karatsuba_threshold
  x0 ← nat_part x 0 k
  y0 ← nat_part y 0 k
  z ← nat_new_len (max (6 * k) (x.len + y.len))
  karatsuba f z x0 y0
  z' ← nat_part z 0 (x.len + y.len)
  high ← nat_part z' (2 * k) z'.len
  nat_clear high
  add_others mul z' x y x0 y0 k
  nat_norm z'

unfoldable pub mul_small : Nat → Nat → M Nat
mul_small x y = do z ← nat_new_len (x.len + y.len); basic_mul z x y; nat_norm z

-- `natMul` where `y` is not the longer one.
unfoldable pub mul_longer : (Nat → Nat → M Nat) → ℕ → Nat → Nat → M Nat
mul_longer mul f x y =
    if x.len == 0 || y.len == 0
    then nat_new 0
    else (if y.len == 1
        then (do w ← get y 0; nat_mul_add_ww x w 0)
        else (if ltb y.len karatsuba_threshold then mul_small x y else mul_large mul f x y))

unfoldable pub nat_mul : ℕ → Nat → Nat → M Nat
nat_mul zero x y = fault
nat_mul (suc f) x y =
    let swapped = nat_mul f y x in if ltb x.len y.len then swapped else mul_longer (nat_mul f) f x y
