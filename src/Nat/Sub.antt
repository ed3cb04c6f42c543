-- ===== src/Nat/Sub.antt =====
-- cmake/bigint/src/natsub.c: differences of word vectors. The rounds of its loops are those of
-- natadd.c, with `UIntSub` for `UIntAdd`.
pub mod Scan
pub mod Vector
pub mod Laws
use demo.Common.{ℕ, zero, suc, ◌+◌, min, Bool, ltb, leb, ◌==◌, ◌||◌, if◌then◌else◌}
use demo.Memory.{M, pure, assert, ◌>>=◌, ◌>>◌}
use demo.Word.Carry.{uint_sub}
use demo.Nat.{Nat, nat_new_len, nat_part, nat_norm}
use demo.Nat.Loop.{word_loop}
use demo.Nat.Add.{pass_carry, large_loop}

unfoldable pub sub_vv : Nat → Nat → Nat → M ℕ
sub_vv z x y = word_loop uint_sub z x y (min z.len (min x.len y.len)) 0 0

unfoldable pub sub_vw_large : Nat → Nat → ℕ → M ℕ
sub_vw_large z x y = large_loop uint_sub z x (min z.len x.len) 0 y 0

unfoldable pub sub_vw : Nat → Nat → ℕ → M ℕ
sub_vw z x y =
    if ltb 32 z.len
    then sub_vw_large z x y
    else do s ← word_loop (pass_carry uint_sub) z x x (min z.len x.len) 0 (y, 0); pure s.0

-- What `natSub` does with the words of `x` above those of `y`.
unfoldable pub sub_high : Nat → Nat → Nat → ℕ → M ℕ
sub_high x y z c =
    if ltb y.len x.len
    then (do zz ← nat_part z y.len z.len; xx ← nat_part x y.len x.len; sub_vw zz xx c)
    else pure c

unfoldable pub nat_sub : Nat → Nat → M Nat
nat_sub x y = do
  assert (leb y.len x.len)
  if x.len == 0 || y.len == 0 then pure x else do
    z ← nat_new_len x.len
    z1 ← nat_part z 0 y.len
    c ← sub_vv z1 x y
    c' ← sub_high x y z c
    assert (c' == 0)
    nat_norm z
