-- ===== src/Nat/Div/Recursive.antt =====
-- cmake/bigint/src/natdiv.c: the division of long views by a recursion on the halves of the divisor.
-- The array `temps` is a list, which each step returns as it leaves it. `none` is a fault of the
-- heap, a failed assertion, or a recursion deeper than the fuel.
use demo.Common.{
  ℕ, zero, suc, ◌+◌, ◌-◌, ◌*◌, ◌/◌, Bool, true, false, not, ltb, ◌==◌, if◌then◌else◌, List, [], ◌∷◌,
  get_elem?, set, length, replicate,
}
use demo.Memory.{M, pure, fault, assert, ◌>>=◌, ◌>>◌, calloc, free}
use demo.Word.Count.{len}
use demo.Nat.{
  Nat, null_nat, nat_new_len, nat_make, nat_part, nat_norm, nat_clear, nat_free, nat_cmp, Order,
  greater,
}
use demo.Nat.Sub.{sub_vv, sub_vw}
use demo.Nat.Mul.Whole.{nat_mul, add_at}
use demo.Nat.Div.{attempt}
use demo.Nat.Div.Basic.{nat_div_basic}

abbrev pub div_recursive_threshold : ℕ
div_recursive_threshold = 100

abbrev pub is_greater : Order → Bool
is_greater greater = true
is_greater _ = false

-- `natCmp(qhatv, natNorm(uu)) > 0`
unfoldable pub exceeds : Nat → Nat → M Bool
exceeds qhatv uu = do rest ← nat_norm uu; o ← nat_cmp qhatv rest; pure (is_greater o)

-- Where the guess is too large: it is lowered by 1, and the divisor's words are taken from the product
-- and added to what is left of the dividend.
unfoldable pub lower_quotient : Nat → Nat → Nat → Nat → ℕ → M (Unit {0})
lower_quotient qhat qhatv uu v s = do
  sub_vw qhat qhat 1 >>= λ _. pure tt
  low ← nat_part qhatv 0 s
  v0 ← nat_part v 0 s
  c ← sub_vv low low v0
  (if ltb s qhatv.len
      then (do high ← nat_part qhatv s qhatv.len; sub_vw high high c >>= λ _. pure tt)
      else pure tt)
  rest ← nat_part uu s uu.len
  v1 ← nat_part v s v.len
  add_at rest v1 0

-- The loop that stops at the first guess that fits.
unfoldable pub lower_until : ℕ → Nat → Nat → Nat → Nat → ℕ → M (Unit {0})
lower_until zero qhat qhatv uu v s = pure tt
lower_until (suc i) qhat qhatv uu v s = do
  more ← exceeds qhatv uu
  if more then (lower_quotient qhat qhatv uu v s >> lower_until i qhat qhatv uu v s) else pure tt

-- The loop that goes on to its end.
unfoldable pub lower_each : ℕ → Nat → Nat → Nat → Nat → ℕ → M (Unit {0})
lower_each zero qhat qhatv uu v s = pure tt
lower_each (suc i) qhat qhatv uu v s = do
  more ← exceeds qhatv uu
  (if more then lower_quotient qhat qhatv uu v s else pure tt)
  lower_each i qhat qhatv uu v s

-- The product is taken from the dividend: the borrow.
unfoldable pub take_product : Nat → Nat → M ℕ
take_product uu qhatv = do
  more ← exceeds qhatv uu
  assert (not more)
  low ← nat_part uu 0 qhatv.len
  c ← sub_vv low low qhatv
  if c == 0 then pure 0 else do high ← nat_part uu qhatv.len uu.len; sub_vw high high c

-- `temps[depth]`, made large enough.
unfoldable pub take_temp : List Nat → ℕ → ℕ → ℕ → M Nat
take_temp temps depth n b = do
  t ← attempt (get_elem? temps depth)
  if t.blk == 0 then nat_new_len n else nat_make t (b + 1)

-- `natDivRecursiveStep(z, u, v, depth, ...)`, as an argument.
abbrev pub StepFun : Type 0
StepFun = Nat → Nat → Nat → ℕ → List Nat → M (List Nat)

-- The loop on `j`: `b` is `B` of the source.
unfoldable pub block_loop :
    StepFun → ℕ → Nat → Nat → Nat → Nat → ℕ → ℕ → ℕ → ℕ → List Nat → M (ℕ × List Nat)
block_loop step f z u v temp b depth zero j temps = fault
block_loop step f z u v temp b depth (suc rounds) j temps =
    let s = b - 1 in
    if not (ltb b j) then pure (j, temps) else do
      uu ← nat_part u (j - b) u.len
      nat_clear temp
      assert (ltb (depth + 1) (length temps))
      u1 ← nat_part uu s (b + v.len)
      v1 ← nat_part v s v.len
      temps' ← step temp u1 v1 (depth + 1) temps
      qhat ← nat_norm temp
      v0 ← nat_part v 0 s
      qhatv ← nat_mul f qhat v0
      lower_until 2 qhat qhatv uu v s
      take_product uu qhatv >>= λ _. pure tt
      add_at z qhat (j - b)
      nat_free qhatv >>= λ _. block_loop step f z u v temp b depth rounds (j - b) temps'

-- What follows the loop: the lowest digits.
unfoldable pub last_block : StepFun → ℕ → Nat → Nat → Nat → Nat → ℕ → ℕ → List Nat → M (List Nat)
last_block step f z u v temp b depth temps = do
  let s = b - 1
  nat_clear temp
  assert (ltb (depth + 1) (length temps))
  part ← nat_part u s u.len
  u1 ← nat_norm part
  v1 ← nat_part v s v.len
  temps' ← step temp u1 v1 (depth + 1) temps
  qhat ← nat_norm temp
  v0 ← nat_part v 0 s
  qhatv ← nat_mul f qhat v0
  lower_each 2 qhat qhatv u v s
  c ← take_product u qhatv
  assert (c == 0)
  digits ← nat_norm qhat
  add_at z digits 0
  nat_free qhatv >>= λ _. pure temps'

-- `natDivRecursiveStep` of two views that are cut, the divisor not the longer one.
unfoldable pub split_step : StepFun → ℕ → Nat → Nat → Nat → ℕ → List Nat → M (List Nat)
split_step step f z u v depth temps = do
  let n = v.len
  let b = n / 2
  temp ← take_temp temps depth n b
  let temps' = set temps depth temp
  rest ← block_loop step f z u v temp b depth (u.len + 1) (u.len - n) temps'
  last_block step f z u v temp b depth rest.1

unfoldable pub div_step : ℕ → StepFun
div_step zero z u v depth temps = fault
div_step (suc f) z u v depth temps = do
  u' ← nat_norm u
  v' ← nat_norm v
  if u'.len == 0
      then (nat_clear z >> pure temps)
      else (if ltb v'.len div_recursive_threshold
          then (nat_div_basic z u' v' >> pure temps)
          else (if ltb u'.len v'.len
              then pure temps
              else split_step (div_step f) f z u' v' depth temps))

unfoldable pub free_all : List Nat → M (Unit {0})
free_all [] = pure tt
free_all (t ∷ ts) = nat_free t >>= λ _. free_all ts

-- `temps` is allocated as a block of its own, of one word for each of its views.
unfoldable pub nat_div_recursive : ℕ → Nat → Nat → Nat → M (Unit {0})
nat_div_recursive f z u v = do
  bits ← attempt (len v.len)
  let depth = 2 * bits
  tmp ← nat_new_len (3 * v.len)
  block ← calloc depth
  if block == 0 then pure tt else do
    nat_clear z
    temps ← div_step f z u v 0 (replicate depth null_nat)
    free_all temps
    free block 0
    nat_free tmp >>= λ _. pure tt
