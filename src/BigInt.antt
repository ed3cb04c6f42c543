-- ===== src/BigInt.antt =====
-- cmake/bigint/src/bigint.c: signed integers, a sign beside a view of words. A `BigInt*` is the
-- structure that it points to, or `none` for NULL.
pub mod Sign
pub mod Result
pub mod Grant
pub mod New
pub mod Sum
pub mod Product
pub mod Text
use demo.Common.{
  ℕ, ◌+◌, ◌-◌, ◌%◌, ◌^◌, Bool, true, false, not, ◌&&◌, Option, none, some, ltb, leb, ◌==◌,
  if◌then◌else◌,
}
use demo.Memory.{Heap, M, pure, fault, ◌>>=◌, ◌>>◌}
use demo.Nat.{Nat, nat_new, nat_free, Order, less, equal, greater, nat_cmp, nat_norm}
use demo.Nat.Add.{nat_add}
use demo.Nat.Sub.{nat_sub}
use demo.Nat.Mul.Whole.{nat_mul}
use demo.Nat.Div.Whole.{nat_div}

pub record BigInt : Type 0 where
  pub neg : Bool
  pub abs : Nat

-- `malloc(sizeof(BigInt))`: whether it is granted. The structure itself is held by value.
unfoldable pub malloc_big_int : M Bool
malloc_big_int h = some (not (h.fails h.next), record h { next = h.next + 1 })

abbrev pub same_sign : Bool → Bool → Bool
same_sign true b = b
same_sign false b = not b

-- `v` is the bit pattern of an `int64_t`.
unfoldable pub big_int_new_i : ℕ → M (Option BigInt)
big_int_new_i v = do
  granted ← malloc_big_int
  if not granted then pure none else do
    let neg = leb (2 ^ 63) v
    abs ← nat_new (if neg then (2 ^ 64 - v) % 2 ^ 64 else v)
    pure (some (record { neg = neg; abs = abs }))

unfoldable pub big_int_new_u : ℕ → M (Option BigInt)
big_int_new_u v = do
  granted ← malloc_big_int
  if not granted
      then pure none
      else do abs ← nat_new v; pure (some (record { neg = false; abs = abs }))

unfoldable pub big_int_free : BigInt → M BigInt
big_int_free t = do abs ← nat_free t.abs; pure (record t { abs = abs })

-- The difference of the magnitudes with its sign, `neg` where `x` is not the smaller one.
unfoldable pub sub_magnitudes : Bool → Nat → Nat → M BigInt
sub_magnitudes neg x y = do
  o ← nat_cmp x y
  elim o [
    | less ↦ do abs ← nat_sub y x; pure (record { neg = not neg; abs = abs })
    | _ ↦ do abs ← nat_sub x y; pure (record { neg = neg; abs = abs })
  ]

-- `z->neg = z->abs.len > 0 && neg`
unfoldable pub settle : BigInt → BigInt
settle z = record { neg = ltb 0 z.abs.len && z.neg; abs = z.abs }

unfoldable pub big_int_add : BigInt → BigInt → M (Option BigInt)
big_int_add x y = do
  granted ← malloc_big_int
  if not granted then pure none else do
    z ←
        if same_sign x.neg y.neg
        then (do abs ← nat_add x.abs y.abs; pure (record { neg = x.neg; abs = abs }))
        else sub_magnitudes x.neg x.abs y.abs
    pure (some (settle z))

unfoldable pub big_int_sub : BigInt → BigInt → M (Option BigInt)
big_int_sub x y = do
  granted ← malloc_big_int
  if not granted then pure none else do
    z ←
        if not (same_sign x.neg y.neg)
        then (do abs ← nat_add x.abs y.abs; pure (record { neg = x.neg; abs = abs }))
        else sub_magnitudes x.neg x.abs y.abs
    pure (some (settle z))

unfoldable pub big_int_mul : ℕ → BigInt → BigInt → M (Option BigInt)
big_int_mul f x y = do
  granted ← malloc_big_int
  if not granted then pure none else do
    z ← (do
      abs ← nat_mul f x.abs y.abs
      pure (record { neg = not (same_sign x.neg y.neg); abs = abs }))
    pure (some (settle z))

-- The quotient and the remainder. `z_abs` and `r_abs` stand for what the structures hold that
-- `malloc` handed out: `z->abs` and `(*r)->abs` are read before they are assigned.
unfoldable pub quo_rem : ℕ → Nat → Nat → BigInt → BigInt → M (Option (BigInt × BigInt))
quo_rem f z_abs r_abs x y = do
  granted ← malloc_big_int
  if not granted then pure none else do
    d ← nat_div f z_abs r_abs x.abs y.abs
    rr ← nat_norm d.1
    let z = settle (record { neg = not (same_sign x.neg y.neg); abs = d.0 })
    pure (some (z, settle (record { neg = x.neg; abs = rr })))

-- The static integer 1, whose word is the block `word1`.
abbrev pub int_one : ℕ → BigInt
int_one word1 = record {
  neg = false;
  abs = record { blk = word1; off = 0; len = 1; cap = 1; part = true };
}

-- A structure behind a pointer: `none` once it was freed.
abbrev pub Cell : Type 0
Cell = Option BigInt

unfoldable pub free_cell : Cell → M Cell
free_cell none = fault
free_cell (some t) = big_int_free t >>= λ _. pure none

-- `r->neg`
unfoldable pub cell_neg : Cell → M Bool
cell_neg none = fault
cell_neg (some t) = pure t.neg

-- What `BigIntDiv` does after `QuoRem`: `r` is freed, also where `QuoRem` did not assign it.
unfoldable pub after_quotient : ℕ → Bool → Nat → Option (BigInt × BigInt) → M (Option BigInt)
after_quotient word1 y_neg r_abs none = nat_free r_abs >>= λ _. pure none
after_quotient word1 y_neg r_abs (some (z, r)) = do
  cell ← free_cell (some r)
  neg ← cell_neg cell
  if not neg
      then pure (some z)
      else if y_neg
      then big_int_add z (int_one word1)
      else big_int_sub z (int_one word1)

unfoldable pub big_int_div : ℕ → ℕ → Nat → Nat → BigInt → BigInt → M (Option BigInt)
big_int_div word1 f z_abs r_abs x y = do
  granted ← malloc_big_int
  if not granted
      then pure none
      else do d ← quo_rem f z_abs r_abs x y; after_quotient word1 y.neg r_abs d
