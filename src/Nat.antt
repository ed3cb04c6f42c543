-- ===== src/Nat.antt =====
-- cmake/bigint/src/nat.h and nat.c: the struct `nat`, a view of words on the heap, least
-- significant first, and the operations that make, cut, copy, compare and free such views.
pub mod Value
pub mod Loop
pub mod Laws
pub mod Norm
pub mod Compare
pub mod Add
pub mod Sub
pub mod New
pub mod Mul
pub mod Div
pub mod Shift
pub mod Exp
pub mod Text
use demo.Common.{
  ℕ, zero, suc, ◌+◌, ◌-◌, ◌≡◌, Bool, true, false, ltb, leb, ◌==◌, if◌then◌else◌, not, ◌||◌,
}
use demo.Memory.{M, pure, fault, assert, ◌>>=◌, ◌>>◌, load, store, calloc, free, memcpy}

-- `data` is the pointer `blk`, `off`.
pub record Nat : Type 0 where
  pub blk : ℕ
  pub off : ℕ
  pub len : ℕ
  pub cap : ℕ
  pub part : Bool

-- `x.data[i]`, read and written.
unfoldable pub get : Nat → ℕ → M ℕ
get x i = load x.blk (x.off + i)

unfoldable pub put : Nat → ℕ → ℕ → M (Unit {0})
put x i w = store x.blk (x.off + i) w

abbrev pub null_nat : Nat
null_nat = record { blk = 0; off = 0; len = 0; cap = 0; part = false }

unfoldable pub nat_new_len : ℕ → M Nat
nat_new_len zero = pure null_nat
nat_new_len (suc n) = do
  b ← calloc (suc n)
  let len = if b == 0 then 0 else suc n
  pure (record { blk = b; off = 0; len = len; cap = len; part = false })

unfoldable pub nat_new : ℕ → M Nat
nat_new v = do t ← nat_new_len 8; put t 0 v; pure (record t { len = 1 })

-- `to - from` words of `p` from index `from` on, in place.
unfoldable pub nat_part : Nat → ℕ → ℕ → M Nat
nat_part p from to = do
  assert (leb from to)
  pure (record {
    blk = p.blk;
    off = p.off + from;
    len = to - from;
    cap = to - from;
    part = ltb 0 from;
  })

-- The argument is a pointer in the source: what it points to is returned.
unfoldable pub nat_free : Nat → M Nat
nat_free p = if p.part then pure p else (free p.blk p.off >>= λ _. pure null_nat)

unfoldable pub nat_make : Nat → ℕ → M Nat
nat_make z n =
    if ltb n z.cap
    then nat_part z 0 n
    else (nat_free z >>= λ _.
        if n == 1 then nat_new_len 1 else do t ← nat_new_len (n + 4); pure (record t { len = n }))

unfoldable pub nat_set_word : Nat → ℕ → M Nat
nat_set_word z x = if x == 0 then nat_part z 0 0 else do z' ← nat_make z 1; put z' 0 x; pure z'

unfoldable pub nat_dup : Nat → M Nat
nat_dup x = do
  z ← nat_new_len x.len
  memcpy z.blk z.off x.blk x.off x.len
  pure (record z { cap = x.len; len = x.len })

unfoldable pub nat_set_value : Nat → ℕ → ℕ → M (Unit {0})
nat_set_value t index value = do assert (ltb index t.len); put t index value

unfoldable pub nat_copy : Nat → Nat → M (Unit {0})
nat_copy dst src = do assert (leb src.len dst.cap); memcpy dst.blk dst.off src.blk src.off src.len

unfoldable pub nat_set : Nat → Nat → M Nat
nat_set z x = do z' ← nat_make z x.len; nat_copy z' x; pure z'

-- The loop of `natNorm`, at `i`: the length without leading zeros.
unfoldable pub norm_len : Nat → ℕ → M ℕ
norm_len p zero = pure 0
norm_len p (suc i) = do w ← get p i; if w == 0 then norm_len p i else pure (suc i)

unfoldable pub nat_norm : Nat → M Nat
nat_norm p = do i ← norm_len p p.len; pure (record p { len = i })

-- The results -1, 0 and 1 of `natCmp`.
pub data Order : Type 0 where
  less equal greater : Order

unfoldable pub order : ℕ → ℕ → Order
order a b = if ltb a b then less else (if ltb b a then greater else equal)

-- The loop of `natCmp`, at `i`: the highest index at which the words differ, or 0.
unfoldable pub cmp_index : Nat → Nat → ℕ → M ℕ
cmp_index x y zero = pure 0
cmp_index x y (suc i) = do
  a ← get x (suc i)
  b ← get y (suc i)
  if a == b then cmp_index x y i else pure (suc i)

unfoldable pub nat_cmp : Nat → Nat → M Order
unfolding order
nat_cmp x y =
    if not (x.len == y.len) || x.len == 0
    then pure (order x.len y.len)
    else do i ← cmp_index x y (x.len - 1); a ← get x i; b ← get y i; pure (order a b)

unfoldable pub clear_loop : Nat → ℕ → ℕ → M (Unit {0})
clear_loop x zero i = pure tt
clear_loop x (suc n) i = do put x i 0; clear_loop x n (i + 1)

unfoldable pub nat_clear : Nat → M (Unit {0})
nat_clear x = clear_loop x x.len 0
