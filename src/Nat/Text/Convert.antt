-- ===== src/Nat/Text/Convert.antt =====
-- cmake/bigint/src/natconv.c: the digits of a number, for a base that is not a power of 2. `none` is a fault of the heap, a read or a write
-- outside an array, a failed assertion, or a loop that takes more rounds than its fuel.
use demo.Common.{
  ℕ, zero, suc, ◌-◌, ◌/◌, Bool, true, false, List, ◌++◌, Option, none, some, length, get_elem?,
  take, drop, leb, ltb, not, ◌==◌, if◌then◌else◌,
}
use demo.Memory.{M, pure, fault, assert, ◌>>=◌, ◌>>◌}
use demo.Nat.{Nat, Order, less, nat_new_len, nat_dup, nat_free, nat_cmp}
use demo.Nat.Div.{attempt, nat_div_w}
use demo.Nat.Div.Whole.{nat_div}
use demo.Nat.Exp.{nat_bit_len}
use demo.Nat.Text.{Write, write_digits, write_decimals, write_zeros}
use demo.Nat.Text.Table.{Divisor, leaf_size}

-- What writes to the array `s`, on the heap.
abbrev pub on_chars : {A : Type 0} → Write A → List ℕ → M (A × List ℕ)
on_chars w s = attempt (w s)

-- `r` is 0 where `natDivW` does not assign it.
abbrev pub or_zero : Option ℕ → ℕ
or_zero none = 0
or_zero (some r) = r

-- The digits of one word, in either loop on `j`.
abbrev pub write_word : ℕ → ℕ → ℕ → ℕ → Write ℕ
write_word b n r i = if b == 10 then write_decimals n r i else write_digits b n r i

-- The loop on `q.len`, and the zeros before the digits.
unfoldable pub convert_leaf : ℕ → ℕ → ℕ → ℕ → Nat → ℕ → List ℕ → M (List ℕ)
convert_leaf zero b n bb q i s = fault
convert_leaf (suc f) b n bb q i s =
    if q.len == 0 then (nat_free q >>= λ _. do w ← on_chars (write_zeros i) s; pure w.1) else (do
      d ← nat_div_w q bb
      nat_free q >>= λ _. do
        w ← on_chars (write_word b n (or_zero d.1) i) s
        convert_leaf f b n bb d.0 w.0 w.1)

-- The loop on `index`, which is one less than the count of entries, `k`.
unfoldable pub lower_index : List Divisor → ℕ → ℕ → M ℕ
lower_index table min_len zero = pure 0
lower_index table min_len (suc zero) = pure 1
lower_index table min_len (suc (suc k)) = do
  d ← attempt (get_elem? table k)
  if ltb min_len d.nbits then lower_index table min_len (suc k) else pure (suc (suc k))

-- `natCmp(...) >= 0`
abbrev pub is_not_less : Order → Bool
is_not_less less = false
is_not_less _ = true

-- The step to a smaller entry, where the entry's power is not below `q`.
unfoldable pub step_down : List Divisor → Nat → ℕ → ℕ → M ℕ
step_down table q max_len k = do
  (if k == 0 then fault else pure tt)
  d ← attempt (get_elem? table (k - 1))
  if not (leb max_len d.nbits) then pure k else do
    o ← nat_cmp d.bbb q
    if is_not_less o then (do assert (ltb 1 k); pure (k - 1)) else pure k

-- A call of `convertWords` for the chars of `s` from `h` on.
abbrev pub convert_after : (Nat → ℕ → List ℕ → M (List ℕ)) → Nat → ℕ → ℕ → List ℕ → M (List ℕ)
convert_after convert r h n s = do s' ← convert r n (drop h s); pure (take h s ++ s')

-- The loop on `q.len > leafSize`, with a conversion that uses `k` entries as an argument: the last `q`,
-- `r` and `slen`.
unfoldable pub convert_large :
    (ℕ → Nat → ℕ → List ℕ → M (List ℕ))
    → ℕ
    → List Divisor
    → ℕ
    → Nat
    → Nat
    → ℕ
    → List ℕ
    → M ((Nat × Nat) × (ℕ × List ℕ))
convert_large convert zero table k q r n s = fault
convert_large convert (suc f) table k q r n s =
    if not (ltb leaf_size q.len) then pure ((q, r), (n, s)) else (do
      max_len ← nat_bit_len q
      k1 ← lower_index table (max_len / 2) k
      k2 ← step_down table q max_len k1
      d ← attempt (get_elem? table (k2 - 1))
      qr ← nat_div f q r q d.bbb
      (if ltb n d.ndigits then fault else pure tt)
      s' ← convert_after (convert (k2 - 1)) qr.1 (n - d.ndigits) d.ndigits s
      convert_large convert f table k2 qr.0 qr.1 (n - d.ndigits) s')

-- `convertWords` for the first `slen` chars of `s`, with the first `k` entries of the table.
unfoldable pub convert_words : ℕ → ℕ → ℕ → ℕ → List Divisor → ℕ → Nat → ℕ → List ℕ → M (List ℕ)
convert_words zero b n bb table k x slen s = fault
convert_words (suc f) b n bb table k x slen s = do
  q ← nat_dup x
  if leb 1 (length table)
      then (do
        r ← nat_new_len 0
        st ← convert_large (convert_words f b n bb table) f table k q r slen s
        nat_free st.0.1 >>= λ _. convert_leaf f b n bb st.0.0 st.1.0 st.1.1)
      else convert_leaf f b n bb q slen s
