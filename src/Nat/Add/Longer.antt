-- ===== src/Nat/Add/Longer.antt =====
-- `natAdd` with `x` the longer operand: the words that it writes, and the number they make.
use demo.Common.{
  ℕ, ◌+◌, ◌*◌, ◌^◌, ◌-◌, ◌<◌, ◌≤◌, ◌≡◌, arith, ap, List, [], ◌∷◌, ◌++◌, length, inl, inr, ◌∙◌, some,
  ne→==, length-append, replicate,
}
use demo.Word.Carry.{uint_add}
use demo.Memory.{Heap, word_at, ◌>>=◌, words, put_words}
use demo.Memory.Laws.{
  word_at-put_words, words-put_words, words-parts, length-words, put_words-append,
}
use demo.Nat.{Nat}
use demo.Nat.Value.{
  value, radix, AllWords, AllWords-append, AllWords-front, AllWords-back, value-parts, scan,
  length-scan,
}
use demo.Nat.Laws.{
  new_nat, word_at-grow_new, nat_new_len-grow, nat_set_value-put_words, words-grow, words-grow_new,
  IsReady, Holds, part_of, nat_part-part_of, grow, Returns,
}
use demo.Nat.Norm.{nat_norm-filled}
use demo.Nat.Add.{add_vv, add_high, add_longer}
use demo.Nat.Add.Scan.{scan-uint_add}
use demo.Nat.Add.Vector.{AddsCarry, add_vv-scan}

-- The words that `add_longer` writes.
module _ (h : Heap) (x y : Nat) {xs ys : List ℕ} (r : IsReady h) (vx : Holds h x xs)
    (vy : Holds h y ys) (low high : List ℕ) (split : xs ≡ low ++ high)
    (even : length low ≡ length ys) (few : length ys < 2 ^ 31) (le : y.len ≤ x.len) where
  abbrev pub sum_view : Nat
  sum_view = new_nat h (x.len + 1)

  low_words :
      (words h x.blk x.off y.len ≡ some low)
      × (words h x.blk (x.off + y.len) (x.len - y.len) ≡ some high)
  low_words =
      words-parts h x.blk x.off y.len (x.len - y.len) x.len low high (omega arith)
        (even ∙ length-words h y.blk y.off y.len vy.at) (rw split at vx.at)

  pub all_parts : AllWords low × AllWords high
  all_parts =
      let all : AllWords (low ++ high) = rw split at vx.all in
      (AllWords-front low high all, AllWords-back low high all)

  abbrev pub low_scan : List ℕ × ℕ
  low_scan = scan uint_add low ys 0

  add_low :
      add_vv (part_of sum_view 0 y.len) x y (grow h (x.len + 1))
      ≡ some (low_scan.1, put_words (grow h (x.len + 1)) h.next 0 low_scan.0)
  add_low =
      add_vv-scan (part_of sum_view 0 y.len) x y y.len (grow h (x.len + 1)) (omega arith)
        (omega (arith, few, length-words h y.blk y.off y.len vy.at))
        (words-grow h (x.len + 1) x.blk x.off y.len vx.old ∙ low_words.0)
        (words-grow h (x.len + 1) y.blk y.off y.len vy.old ∙ vy.at)
        (words-grow_new h (x.len + 1) 0 y.len (omega arith))
        (inl (λ e. absurd (omega (arith, vx.old)))) (inl (λ e. absurd (omega (arith, vy.old))))

  pub low_sum :
      (value low_scan.0 + radix y.len * low_scan.1 ≡ value low + value ys)
      × AllWords low_scan.0
      × (low_scan.1 ≤ 1)
      × (length low_scan.0 ≡ y.len)
  low_sum =
      let size : length low ≡ y.len = even ∙ length-words h y.blk y.off y.len vy.at in
      let (sum, words, carry) = scan-uint_add low ys 0 even all_parts.0 vy.all (omega arith) in
      (rw size at sum ∙ omega arith, words, carry, length-scan uint_add low ys 0 even ∙ size)

  abbrev pub after_low : Heap
  after_low = put_words (grow h (x.len + 1)) h.next 0 low_scan.0

  -- The high words of `x` and of the new block, above what `addVV` wrote.
  pub high_words :
      (words after_low x.blk (x.off + y.len) (x.len - y.len) ≡ some high)
      × (words after_low h.next (0 + y.len) (x.len - y.len) ≡ some (replicate (x.len - y.len) 0))
  high_words = (
    words-put_words _ h.next 0 low_scan.0 x.blk _ _ (inl (λ e. absurd (omega (arith, vx.old))))
        ∙ words-grow h _ x.blk _ _ vx.old
        ∙ low_words.1,
    words-put_words _ h.next 0 low_scan.0 h.next _ _ (inr (inr (omega (arith, low_sum.3))))
        ∙ words-grow_new h (x.len + 1) (0 + y.len) (x.len - y.len) (omega arith),
  )

  module _ (number : ℕ)
      (add_rest : AddsCarry after_low
        (part_of sum_view y.len x.len)
        high
        number
        (add_high x y sum_view low_scan.1 after_low)) where
    abbrev sum_words : List ℕ
    sum_words = (low_scan.0 ++ add_rest.out) ++ (add_rest.carry ∷ [])

    length-sum_words : length sum_words ≡ x.len + 1
    length-sum_words = omega (
      arith,
      length-append (low_scan.0 ++ add_rest.out) (add_rest.carry ∷ []),
      length-append low_scan.0 add_rest.out,
      low_sum.3,
      add_rest.size,
      length-words h x.blk (x.off + y.len) (x.len - y.len) low_words.1,
    )

    value-sum_words : value sum_words ≡ value low_scan.0 + radix y.len * number
    value-sum_words = omega (
      arith,
      value-parts low_scan.0 add_rest.out add_rest.carry,
      ap (λ (n : ℕ). radix n * (value add_rest.out + radix (length add_rest.out) * add_rest.carry))
          low_sum.3,
      ap (λ (n : ℕ). radix y.len * (radix n * add_rest.carry)) add_rest.size,
      ap (λ (t : ℕ). radix y.len * t) add_rest.total,
    )

    -- The top word of the new block, where the carry goes.
    top_word :
        word_at (put_words after_low h.next (0 + y.len) add_rest.out) h.next (0 + x.len) ≡ some 0
    top_word =
        word_at-put_words after_low h.next (0 + y.len) add_rest.out h.next (0 + x.len)
          (inr (inr (omega (arith, add_rest.size, length-words h x.blk _ _ low_words.1))))
        ∙ word_at-put_words (grow h (x.len + 1)) h.next 0 low_scan.0 h.next (0 + x.len)
            (inr (inr (omega (arith, low_sum.3))))
        ∙ word_at-grow_new h (x.len + 1) (0 + x.len) (omega arith)

    all_written :
        put_words
          (put_words after_low h.next (0 + y.len) add_rest.out)
          h.next
          (0 + x.len)
          (add_rest.carry ∷ [])
        ≡ put_words (grow h (x.len + 1)) h.next 0 sum_words
    all_written =
        ap (λ k. put_words k h.next (0 + x.len) (add_rest.carry ∷ []))
          (put_words-append (grow h (x.len + 1)) h.next 0 low_scan.0 add_rest.out
            (omega (arith, low_sum.3)))
        ∙ put_words-append (grow h (x.len + 1)) h.next 0 (low_scan.0 ++ add_rest.out) _ (
            omega (
              arith,
              length-append low_scan.0 add_rest.out,
              low_sum.3,
              add_rest.size,
              length-words h x.blk _ _ low_words.1,
            ))

    sum-AllWords : AllWords sum_words
    sum-AllWords =
        AllWords-append (low_scan.0 ++ add_rest.out) _
          (AllWords-append low_scan.0 add_rest.out low_sum.1 add_rest.all) (add_rest.word, tt)

    pub add_longer-Returns :
        0 < y.len → Returns h (value low_scan.0 + radix y.len * number) (add_longer x y h)
    unfolding add_longer
    add_longer-Returns pos =
        rw
          (
            ne→== x.len 0 (λ e. absurd (omega arith)),
            ne→== y.len 0 (λ e. absurd (omega arith)),
            nat_new_len-grow h (x.len + 1) r (omega arith),
            ◌>>=◌,
            nat_part-part_of (grow h (x.len + 1)) sum_view 0 y.len (omega arith),
            add_low,
            add_rest.returns,
            nat_set_value-put_words (put_words after_low h.next (0 + y.len) add_rest.out) sum_view
                x.len add_rest.carry (omega arith) top_word,
            all_written,
          )
          (rw (← value-sum_words)
            (nat_norm-filled h (x.len + 1) sum_words r length-sum_words sum-AllWords))
