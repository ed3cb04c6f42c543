-- ===== src/Nat/Text/Whole.antt =====
-- cmake/bigint/src/natconv.c: `natI2a`, the text of a number in a base from 2 to 62. `log_len` stands
-- for `(ssize_t)((double)bits / log2((double)base))`, the floating-point estimate of the length.
-- `none` is a fault of the heap, a read or a write outside the text, a failed assertion, or a loop that
-- takes more rounds than its fuel.
use demo.Common.{
  ℕ, zero, suc, ◌+◌, ◌-◌, ◌*◌, ◌/◌, ◌^◌, bit_and, bit_or, Bool, List, [], ◌∷◌, ◌++◌, Option, none,
  some, length, take, drop, replicate, leb, ltb, not, ◌==◌, ◌&&◌, if◌then◌else◌,
}
use demo.Memory.{M, pure, fault, assert, ◌>>=◌, ◌>>◌}
use demo.Word.Carry.{u64, uint_size}
use demo.Word.Count.Trailing.{trailing_zeros}
use demo.Nat.{Nat, get, nat_free}
use demo.Nat.Div.{attempt}
use demo.Nat.Exp.{nat_bit_len}
use demo.Nat.Text.{digit, put_char, max_pow}
use demo.Nat.Text.Table.{Divisor, divisors}
use demo.Nat.Text.Convert.{on_chars, convert_words}

abbrev pub max_base : ℕ
max_base = 62

-- The index `i`, and the array `s`.
abbrev pub Text : Type 0
Text = ℕ × List ℕ

-- `--i; s[i] = c;`
unfoldable pub put_before : ℕ → Text → M Text
put_before c (zero, s) = fault
put_before c (suc i, s) = do w ← on_chars (put_char i c) s; pure (i, w.1)

-- `--i; s[i] = digits[d];`
unfoldable pub put_digit : ℕ → Text → M Text
put_digit d (i, s) = do c ← on_chars (digit d) s; put_before c.0 (i, s)

-- The word `w`, the count `nbits` of its bits that are left, and the text.
abbrev pub Bits : Type 0
Bits = ℕ × (ℕ × Text)

-- The loop on `nbits >= shift`: `shift` is at least 1, so 64 rounds are enough.
unfoldable pub whole_digits : ℕ → ℕ → ℕ → Bits → M Bits
whole_digits zero shift mask (w, (nbits, t)) =
    if leb shift nbits then fault else pure (w, (nbits, t))
whole_digits (suc f) shift mask (w, (nbits, t)) =
    if not (leb shift nbits) then pure (w, (nbits, t)) else (do
      t' ← put_digit (bit_and w mask) t
      whole_digits f shift mask (w / 2 ^ shift, (nbits - shift, t')))

-- The next word `a` of the number, with a digit that two words share.
unfoldable pub join_word : ℕ → ℕ → ℕ → Bits → M Bits
join_word shift mask a (w, (nbits, t)) = if nbits == 0 then pure (a, (uint_size, t)) else (do
  t' ← put_digit (bit_and (bit_or w (u64 (a * 2 ^ nbits))) mask) t
  pure (a / 2 ^ (shift - nbits), (uint_size - (shift - nbits), t')))

-- The loop on `k`, with `n` rounds to go.
unfoldable pub bit_words : Nat → ℕ → ℕ → ℕ → ℕ → Bits → M Bits
bit_words x shift mask zero k b = pure b
bit_words x shift mask (suc n) k b = do
  b' ← whole_digits 64 shift mask b
  a ← get x k
  b'' ← join_word shift mask a b'
  bit_words x shift mask n (k + 1) b''

-- The loop on `w != 0`.
unfoldable pub last_digits : ℕ → ℕ → ℕ → ℕ → Text → M Text
last_digits zero shift mask w t = if w == 0 then pure t else fault
last_digits (suc f) shift mask w t =
    if w == 0
    then pure t
    else do t' ← put_digit (bit_and w mask) t; last_digits f shift mask (w / 2 ^ shift) t'

-- The branch for a base that is a power of 2.
unfoldable pub i2a_bits : Nat → ℕ → Text → M Text
i2a_bits x b t = do
  shift ← attempt (trailing_zeros b)
  let mask = u64 (2 ^ shift) - 1
  w ← get x 0
  e ← bit_words x shift mask (x.len - 1) 1 (w, (uint_size, t))
  last_digits 64 shift mask e.0 e.1.1

-- The loop on `s[i] == '0'`.
unfoldable pub skip_zeros : List ℕ → Option ℕ
skip_zeros [] = none
skip_zeros (c ∷ s) =
    if not (c == 48) then some 0 else elim (skip_zeros s) [ none ↦ none | some i ↦ some (suc i) ]

unfoldable pub free_table : List Divisor → M (Unit {0})
free_table [] = pure tt
free_table (d ∷ table) = nat_free d.bbb >>= λ _. free_table table

-- The branch for the other bases, with `slen` chars before the last one.
unfoldable pub i2a_words : ℕ → Bool → Nat → ℕ → ℕ → List ℕ → M Text
i2a_words f granted x b slen s = do
  p ← attempt (max_pow b)
  table ← divisors f granted x.len b p.1 p.0
  s' ← convert_words f b p.1 p.0 table (length table) x slen s
  i ← attempt (skip_zeros s')
  free_table table
  pure (i, s')

-- The text moved to the front of its array, and its end marked.
unfoldable pub finish : ℕ → Text → M (List ℕ)
finish slen (i, s) =
    if ltb slen i
    then fault
    else on_chars (put_char (slen - i) 0) (take (slen - i) (drop i s) ++ drop (slen - i) s) >>= λ w.
        pure w.1

-- `natI2a` of a number that is not 0, with `slen` chars.
unfoldable pub i2a_some : ℕ → Bool → Nat → Bool → ℕ → ℕ → M (List ℕ)
i2a_some f granted x neg b slen = do
  let s = replicate (slen + 1) 0
  t ←
      (if b == bit_and b (u64 (2 ^ 64 - b))
        then i2a_bits x b (slen, s)
        else i2a_words f granted x b slen s)
  t' ← (if neg then put_before 45 t else pure t)
  finish slen t'

-- The array of the text. `none` inside the result is NULL; `got_text` and `got_table` tell whether the
-- allocations of the text and of the table succeed. A base below 0 fails the assertion, as 0 does.
unfoldable pub nat_i2a : (ℕ → ℕ → ℕ) → ℕ → Bool → Bool → Nat → Bool → ℕ → M (Option (List ℕ))
nat_i2a log_len f got_text got_table x neg base = do
  assert (leb 2 base && leb base max_base)
  if not got_text then pure none else if x.len == 0 then pure (some (48 ∷ 0 ∷ [])) else do
    bits ← nat_bit_len x
    let i = log_len bits base + 1
    s ← i2a_some f got_table x neg base (if neg then i + 1 else i)
    pure (some s)
