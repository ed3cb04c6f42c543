-- ===== src/Nat/Exp.antt =====
-- cmake/bigint/src/natconv.c: the number of bits of a view, and powers. `none` is a fault of the heap,
-- undefined behaviour, or a product or a quotient deeper than the fuel.
use demo.Common.{
  ℕ, zero, suc, ◌+◌, ◌-◌, ◌*◌, ◌/◌, ◌^◌, bit_and, bit_or, Bool, false, Option, none, some, ltb, not,
  ◌==◌, ◌&&◌, if◌then◌else◌,
}
use demo.Memory.{M, pure, fault, ◌>>=◌, ◌>>◌}
use demo.Word.Carry.{u64, uint_size}
use demo.Word.Count.{len}
use demo.Word.Count.Trailing.{trailing_zeros}
use demo.Nat.{
  Nat, get, null_nat, nat_new, nat_new_len, nat_make, nat_free, nat_norm, nat_set, nat_set_word,
}
use demo.Nat.Mul.Whole.{nat_mul}
use demo.Nat.Mul.Square.{nat_sqr}
use demo.Nat.Div.{nlz, attempt}
use demo.Nat.Div.Whole.{nat_div, nat_rem}

-- `top |= top >> k`
abbrev pub smear : ℕ → ℕ → ℕ
smear k top = bit_or top (top / 2 ^ k)

-- The lines of `natBitLen` that set each bit of `top` below its highest one.
unfoldable pub smear_all : ℕ → ℕ
smear_all top =
    let t = smear 8 (smear 4 (smear 2 (smear 1 top))) in
    let t' = smear 16 t in bit_or t' (t' / 2 ^ 16 / 2 ^ 16)

unfoldable pub nat_bit_len : Nat → M ℕ
nat_bit_len x = if x.len == 0 then pure 0 else do
  top ← get x (x.len - 1)
  l ← attempt (len (smear_all top))
  pure ((x.len - 1) * uint_size + l)

-- The loop of `natIsPower2`, at `i`: the lowest word that is not 0, and its index. A view without
-- leading zeros has one, so as many rounds as it has words are enough.
unfoldable pub lowest_word : Nat → ℕ → ℕ → M (ℕ × ℕ)
lowest_word x zero i = fault
lowest_word x (suc f) i = do w ← get x i; if w == 0 then lowest_word x f (i + 1) else pure (i, w)

-- `none` is the result -1.
unfoldable pub nat_is_power2 : Nat → M (Option ℕ)
nat_is_power2 x = do
  (i, w) ← lowest_word x x.len 0
  if i == x.len - 1 && bit_and w (w - 1) == 0
      then (do n ← attempt (trailing_zeros w); pure (some (i * uint_size + n)))
      else pure none

-- `natExpNNMontgomery`, `natExpNNWindowed` and `natExpNNMontgomeryEven`, which have the same body.
unfoldable pub nat_exp_nn_large : Nat → M Nat
nat_exp_nn_large z = nat_norm z

-- The local variables of `natExpNN` in its loops.
pub record Exp : Type 0 where
  pub z : Nat
  pub zz : Nat
  pub q : Nat
  pub r : Nat
  pub v : ℕ

-- Where the top bit of `v` is set: the new `z` and `zz`.
unfoldable pub times : ℕ → Nat → ℕ → Nat × Nat → M (Nat × Nat)
times f x v (z, zz) =
    if bit_and v (2 ^ (uint_size - 1)) == 0
    then pure (z, zz)
    else (do t ← nat_mul f z x; t' ← nat_free z; pure (t, t'))

-- One round of either loop on `j`.
unfoldable pub exp_round : ℕ → Nat → Nat → Exp → M Exp
exp_round f x m e = do
  square ← nat_sqr f e.z
  old ← nat_free e.z
  (z, zz) ← times f x e.v (square, old)
  if m.len == 0 then pure (record e { z = z; zz = zz; v = u64 (e.v * 2) }) else do
    d ← nat_div f zz e.r z m
    z' ← nat_free z
    pure (record { z = d.1; zz = e.q; q = d.0; r = z'; v = u64 (e.v * 2) })

unfoldable pub exp_rounds : ℕ → Nat → Nat → ℕ → Exp → M Exp
exp_rounds f x m zero e = pure e
exp_rounds f x m (suc n) e = do e' ← exp_round f x m e; exp_rounds f x m n e'

-- The loop on `i`: the words of `y` below `i` are left.
unfoldable pub exp_words : ℕ → Nat → Nat → Nat → ℕ → Exp → M Exp
exp_words f x y m zero e = pure e
exp_words f x y m (suc i) e = do
  v ← get y i
  e' ← exp_rounds f x m uint_size (record e { v = v })
  exp_words f x y m i e'

-- The variables before the loops: `zz`, `q` and `r` are empty.
abbrev pub exp_start : Nat → ℕ → Exp
exp_start z v = record { z = z; zz = null_nat; q = null_nat; r = null_nat; v = v }

-- `natExpNN` from `z = natSet(z, x)` on. A shift by the width of a word is undefined.
unfoldable pub exp_loops : ℕ → Nat → Nat → Nat → Nat → M Nat
exp_loops f z0 x y m = do
  z ← nat_set z0 x
  v ← get y (y.len - 1)
  zeros ← attempt (nlz v)
  (if ltb (zeros + 1) uint_size then pure tt else fault)
  e ← exp_rounds f x m (uint_size - (zeros + 1)) (exp_start z (u64 (v * 2 ^ (zeros + 1))))
  e' ← exp_words f x y m (y.len - 1) e
  nat_norm e'.z

-- `natExpNN` where `y` is above 1.
unfoldable pub exp_large : ℕ → Nat → Nat → Nat → Nat → Bool → M Nat
exp_large f z x y m slow = if m.len == 0 then exp_loops f z x y m else do
  z' ← nat_make z m.len
  if not (ltb 1 y.len && not slow) then exp_loops f z' x y m else do
    low ← get m 0
    if bit_and low 1 == 1
        then nat_exp_nn_large z'
        else (nat_is_power2 m >>= λ _. nat_exp_nn_large z')

-- `x.len == 1 && x.data[0] == 1`
unfoldable pub is_one : Nat → M Bool
is_one x = if x.len == 1 then (do w ← get x 0; pure (w == 1)) else pure false

-- `natExpNN` where neither `x` nor `y` is 0, and `m` is not 1.
unfoldable pub exp_some : ℕ → Nat → Nat → Nat → Nat → Bool → M Nat
exp_some f z x y m slow = do
  x_one ← is_one x
  if x_one then nat_set_word z 1 else do
    y_one ← is_one y
    if y_one
        then (if m.len == 0 then nat_set z x else nat_rem f z x m)
        else exp_large f z x y m slow

unfoldable pub nat_exp_nn : ℕ → Nat → Nat → Nat → Nat → Bool → M Nat
nat_exp_nn f z x y m slow = do
  m_one ← is_one m
  if m_one
      then nat_set_word z 0
      else if y.len == 0
      then nat_set_word z 1
      else if x.len == 0
      then nat_set_word z 0
      else exp_some f z x y m slow

unfoldable pub nat_exp_ww : ℕ → Nat → ℕ → ℕ → M Nat
nat_exp_ww f z x y = do
  nx ← nat_new x
  ny ← nat_new y
  m ← nat_new_len 0
  r ← nat_exp_nn f z nx ny m false
  nat_free nx >>= λ _. nat_free ny >>= λ _. pure r
