-- ===== src/Nat/Div/Whole.antt =====
-- cmake/bigint/src/natdiv.c: the quotient and the remainder of two views. `none` is a fault of the
-- heap, a failed assertion, a recursion deeper than the fuel, or a read of a variable that was not
-- assigned.
pub mod Laws
pub mod ByWord
use demo.Common.{ℕ, ◌+◌, ◌-◌, ltb, ◌==◌, if◌then◌else◌, Option, Bool, true, false}
use demo.Memory.{M, pure, assert, ◌>>=◌, ◌>>◌}
use demo.Nat.{
  Nat, get, put, nat_new_len, nat_make, nat_part, nat_norm, nat_free, nat_cmp, nat_set,
  nat_set_word, Order, less, equal, greater,
}
use demo.Nat.Shift.{shl_vu, shr_vu}
use demo.Nat.Div.{nlz, attempt, nat_div_w}
use demo.Nat.Div.Basic.{get_below, nat_div_basic}
use demo.Nat.Div.Recursive.{div_recursive_threshold, nat_div_recursive}

-- The quotient, and what is stored through `r`.
unfoldable pub nat_div_large : ℕ → Nat → Nat → Nat → Nat → M (Nat × Nat)
nat_div_large f z u u_in v_in = do
  let n = v_in.len
  top ← get_below v_in n 1
  shift ← attempt (nlz top)
  v ← nat_new_len n
  shl_vu v v_in shift >>= λ _. pure tt
  u' ← nat_make u (u_in.len + 1)
  low ← nat_part u' 0 u_in.len
  c ← shl_vu low u_in shift
  put u' u_in.len c
  q ← nat_make z (u_in.len - n + 1)
  (if ltb n div_recursive_threshold then nat_div_basic q u' v else nat_div_recursive f q u' v)
  q' ← nat_norm q
  shr_vu u' u' shift >>= λ _. pure tt
  r ← nat_norm u'
  nat_free v >>= λ _. pure (q', r)

-- `natDiv` by a view of one word, where `r2` is read whether it was assigned or not.
unfoldable pub nat_div_word : Nat → Nat → ℕ → M (Nat × Nat)
nat_div_word z2 u w = do d ← nat_div_w u w; r2 ← attempt d.1; r ← nat_set_word z2 r2; pure (d.0, r)

abbrev pub is_less : Order → Bool
is_less less = true
is_less _ = false

unfoldable pub nat_div : ℕ → Nat → Nat → Nat → Nat → M (Nat × Nat)
nat_div f z z2 u v = do
  assert (ltb 0 v.len)
  o ← nat_cmp u v
  if is_less o
      then (do q ← nat_part z 0 0; r ← nat_set z2 u; pure (q, r))
      else (if v.len == 1 then (do w ← get v 0; nat_div_word z2 u w) else nat_div_large f z z2 u v)

unfoldable pub nat_rem : ℕ → Nat → Nat → Nat → M Nat
nat_rem f z u v = do qp ← nat_new_len 0; d ← nat_div f qp z u v; pure d.1
