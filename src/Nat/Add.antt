-- ===== src/Nat/Add.antt =====
-- cmake/bigint/src/natadd.c: sums of word vectors.
pub mod Scan
pub mod Vector
pub mod Longer
pub mod Laws
use demo.Common.{ℕ, zero, suc, ◌+◌, ◌^◌, min, Bool, ltb, ◌==◌, ◌||◌, if◌then◌else◌}
use demo.Memory.{M, pure, fault, ◌>>=◌, ◌>>◌, memcpy}
use demo.Word.Carry.{uint_add}
use demo.Nat.{Nat, get, put, nat_new_len, nat_part, nat_set_value, nat_norm}
use demo.Nat.Loop.{word_loop}

-- The index is an `int`: at 2^31 rounds its increment overflows, which is undefined.
unfoldable pub add_vv : Nat → Nat → Nat → M ℕ
add_vv z x y =
    let n = min z.len (min x.len y.len) in
    if ltb n (2 ^ 31) then word_loop uint_add z x y n 0 0 else fault

-- One round of the loops of `addVW` and `subVW`: the state is `c` and `oc`. What `oc` holds from
-- the round before is the carry that goes in.
abbrev pub pass_carry : (ℕ → ℕ → ℕ → ℕ × ℕ) → ℕ → ℕ → ℕ × ℕ → ℕ × (ℕ × ℕ)
pass_carry op a b (c, oc) = ((op a c oc).0, ((op a c oc).1, (op a c oc).1))

-- The loops of `addVWlarge` and `subVWlarge`: `n` rounds from index `i` on. Once the carry is 0 they
-- copy `x.len` words.
unfoldable pub large_loop : (ℕ → ℕ → ℕ → ℕ × ℕ) → Nat → Nat → ℕ → ℕ → ℕ → ℕ → M ℕ
large_loop op z x zero i c oc = pure c
large_loop op z x (suc n) i c oc =
    if c == 0 then (memcpy z.blk (z.off + i) x.blk (x.off + i) x.len >>= λ _. pure c) else do
      a ← get x i
      put z i (op a c oc).0
      large_loop op z x n (i + 1) (op a c oc).1 (op a c oc).1

unfoldable pub add_vw_large : Nat → Nat → ℕ → M ℕ
add_vw_large z x y = large_loop uint_add z x (min z.len x.len) 0 y 0

unfoldable pub add_vw : Nat → Nat → ℕ → M ℕ
add_vw z x y =
    if ltb 32 z.len
    then add_vw_large z x y
    else do s ← word_loop (pass_carry uint_add) z x x (min z.len x.len) 0 (y, 0); pure s.0

-- What `natAdd` does with the words of `x` above those of `y`.
unfoldable pub add_high : Nat → Nat → Nat → ℕ → M ℕ
add_high x y z c =
    if ltb y.len x.len
    then (do zz ← nat_part z y.len x.len; xx ← nat_part x y.len x.len; add_vw zz xx c)
    else pure c

-- `natAdd` where `x` is not the shorter one.
unfoldable pub add_longer : Nat → Nat → M Nat
add_longer x y = if x.len == 0 || y.len == 0 then pure x else do
  z ← nat_new_len (x.len + 1)
  z1 ← nat_part z 0 y.len
  c ← add_vv z1 x y
  c' ← add_high x y z c
  nat_set_value z x.len c'
  nat_norm z

unfoldable pub nat_add : Nat → Nat → M Nat
nat_add x y = if ltb x.len y.len then add_longer y x else add_longer x y
