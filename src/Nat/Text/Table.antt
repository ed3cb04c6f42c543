-- ===== src/Nat/Text/Table.antt =====
-- cmake/bigint/src/natconv.c: the table of powers by which a long number is divided before its digits
-- are written. `none` is a fault of the heap, or a loop that takes more rounds than its fuel.
use demo.Common.{
  ℕ, zero, suc, ◌+◌, ◌-◌, ◌*◌, ◌/◌, Bool, List, [], ◌∷◌, leb, ltb, not, ◌==◌, if◌then◌else◌,
}
use demo.Memory.{M, pure, fault, ◌>>=◌, ◌>>◌}
use demo.Nat.{Nat, nat_new_len, nat_dup, nat_copy, nat_free}
use demo.Nat.Mul.{mul_add_vww}
use demo.Nat.Mul.Square.{nat_sqr}
use demo.Nat.Exp.{nat_bit_len, nat_exp_ww}

-- The struct `divisor`.
pub record Divisor : Type 0 where
  pub bbb : Nat
  pub nbits : ℕ
  pub ndigits : ℕ

abbrev pub leaf_size : ℕ
leaf_size = 8

-- The loop on `words`, which doubles: `m` rounds are enough.
unfoldable pub table_len : ℕ → ℕ → ℕ → ℕ → ℕ
table_len zero m words k = k
table_len (suc f) m words k =
    let rest = table_len f m (words * 2) (k + 1) in if ltb words (m / 2) then rest else k

-- The loop that multiplies `larger` by `b` as long as no word is carried: the digits counted.
unfoldable pub enlarge : ℕ → Nat → Nat → ℕ → ℕ → M ℕ
enlarge zero larger bbb b count = fault
enlarge (suc f) larger bbb b count = do
  c ← mul_add_vww larger larger b 0
  if c == 0 then (do nat_copy bbb larger; enlarge f larger bbb b (count + 1)) else pure count

-- An entry of the table from its power and its digits on.
unfoldable pub fill_entry : ℕ → ℕ → Nat → ℕ → M Divisor
fill_entry f b bbb count = do
  larger ← nat_dup bbb
  count' ← enlarge f larger bbb b count
  bits ← nat_bit_len bbb
  nat_free larger >>= λ _. pure (record { bbb = bbb; nbits = bits; ndigits = count' })

-- The entries after `d`.
unfoldable pub fill_next : ℕ → ℕ → Divisor → ℕ → M (List Divisor)
fill_next f b d zero = pure []
fill_next f b d (suc k) = do
  bbb ← nat_sqr f d.bbb
  d' ← fill_entry f b bbb (2 * d.ndigits)
  rest ← fill_next f b d' k
  pure (d' ∷ rest)

-- The table, and no entry where the source returns NULL. `granted` tells whether `calloc` of the table
-- succeeds; `tableNum` is set before, so that a result of NULL keeps it at 0.
unfoldable pub divisors : ℕ → Bool → ℕ → ℕ → ℕ → ℕ → M (List Divisor)
divisors f granted m b ndigits bb =
    if leb m leaf_size then pure [] else if not granted then pure [] else do
      storage ← nat_new_len 0
      bbb ← nat_exp_ww f storage bb leaf_size
      d ← fill_entry f b bbb (ndigits * leaf_size)
      rest ← fill_next f b d (table_len m m leaf_size 1 - 1)
      pure (d ∷ rest)
