-- ===== src/Nat/Div.antt =====
-- cmake/bigint/src/natdiv.c: the division of two words by one with a reciprocal, and of a view by a
-- word.
pub mod Reciprocal
pub mod Correct
pub mod Pair
pub mod Single
pub mod Basic
pub mod Recursive
pub mod Whole
use demo.Common.{
  ℕ, zero, suc, ◌+◌, ◌-◌, ◌*◌, ◌/◌, ◌^◌, bit_or, Bool, not, ltb, leb, ◌==◌, ◌&&◌, ◌||◌, Option,
  none, some, if◌then◌else◌,
}
use demo.Memory.{M, pure, fault, assert, ◌>>=◌, ◌>>◌}
use demo.Word.Carry.{B, u64, not64, uint_size, uint_add, uint_sub, uint_mul}
use demo.Word.Count.{leading_zeros}
use demo.Word.Div.Long.{uint_div}
use demo.Nat.{Nat, get, put, nat_new, nat_new_len, nat_dup, nat_norm}

abbrev pub nlz : ℕ → Option ℕ
nlz x = leading_zeros x

abbrev pub quotient_of : Option (ℕ × ℕ) → Option ℕ
quotient_of none = none
quotient_of (some (q, r)) = some q

-- `d1` shifted by `s`, and divided into the words `~u` and `_M`.
abbrev pub reciprocal_shifted : ℕ → Option ℕ → Option ℕ
reciprocal_shifted d1 none = none
reciprocal_shifted d1 (some s) =
    let u = u64 (d1 * 2 ^ s) in quotient_of (uint_div (not64 u) (B - 1) u)

unfoldable pub reciprocal_word : ℕ → Option ℕ
reciprocal_word d1 = reciprocal_shifted d1 (nlz d1)

-- `++qq; r0 -= d;`
abbrev pub raise : ℕ → ℕ × ℕ → ℕ × ℕ
raise d (qq, r0) = (u64 (qq + 1), u64 (r0 + 2 ^ 64 - d))

-- The corrections of the quotient, and of the remainder `r1`, `r0`.
unfoldable pub correct : ℕ → ℕ → ℕ × ℕ → ℕ × ℕ
correct d r1 a = let b = if r1 == 0 then a else raise d a in if leb d b.1 then raise d b else b

-- `divWW` after the shift: the quotient by `d`, and the remainder before it is shifted back.
unfoldable pub div_normal : ℕ → ℕ → ℕ → ℕ → ℕ × ℕ
div_normal x1 x0 d m =
    let t = uint_mul m x1 in
    let c = (uint_add t.0 x0 0).1 in
    let qq = (uint_add t.1 x1 c).0 in
    let dq = uint_mul d qq in
    let low = uint_sub x0 dq.0 0 in correct d (uint_sub x1 dq.1 low.1).0 (qq, low.0)

-- `*r = r0 >> s`
abbrev pub shift_back : ℕ → ℕ × ℕ → ℕ × ℕ
shift_back s (qq, r0) = (qq, r0 / 2 ^ s)

abbrev pub div_shifted : ℕ → ℕ → ℕ → ℕ → Option ℕ → Option (ℕ × ℕ)
div_shifted x1 x0 y m none = none
div_shifted x1 x0 y m (some s) =
    let x1' = bit_or (u64 (x1 * 2 ^ s)) (x0 / 2 ^ (uint_size - s)) in
    let shifted = div_normal x1' (u64 (x0 * 2 ^ s)) (u64 (y * 2 ^ s)) m in
    some (shift_back s (if s == 0 then div_normal x1 x0 y m else shifted))

unfoldable pub div_ww : ℕ → ℕ → ℕ → ℕ → Option (ℕ × ℕ)
div_ww x1 x0 y m = div_shifted x1 x0 y m (nlz y)

-- A result that is undefined is a fault.
abbrev pub attempt : {A : Type 0} → Option A → M A
attempt none = fault
attempt (some a) = pure a

-- The loop of `natDivWVW`, at `i`: the words of `z` below `i` are left.
unfoldable pub div_words : Nat → Nat → ℕ → ℕ → ℕ → ℕ → M ℕ
div_words z x y rec zero r = pure r
div_words z x y rec (suc i) r = do
  a ← get x i
  d ← attempt (div_ww r a y rec)
  put z i d.0
  div_words z x y rec i d.1

unfoldable pub nat_div_wvw : Nat → ℕ → Nat → ℕ → M ℕ
nat_div_wvw z xn x y =
    if x.len == 1
    then (do a ← get x 0; d ← attempt (uint_div xn a y); put z 0 d.0; pure d.1)
    else (do rec ← attempt (reciprocal_word y); div_words z x y rec z.len xn)

-- The quotient, and what is stored through `r`: `none` where `*r` is not assigned.
unfoldable pub nat_div_w : Nat → ℕ → M (Nat × Option ℕ)
nat_div_w x y = do
  assert (not (y == 0))
  if y == 1
      then (do q ← nat_dup x; pure (q, none))
      else (if x.len == 0
          then (do q ← nat_new 0; pure (q, none))
          else do z ← nat_new_len x.len; r ← nat_div_wvw z 0 x y; q ← nat_norm z; pure (q, some r))

unfoldable pub greater_than : ℕ → ℕ → ℕ → ℕ → Bool
greater_than x1 x2 y1 y2 = ltb y1 x1 || (x1 == y1 && ltb y2 x2)
