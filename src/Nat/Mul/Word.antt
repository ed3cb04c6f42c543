-- ===== src/Nat/Mul/Word.antt =====
-- `natMulAddWW` multiplies by a word and adds a word.
use demo.Common.{
  ℕ, min, ◌-◌, ◌+◌, ◌*◌, ◌<◌, ◌≡◌, refl, arith, ap, sym, ◌∙◌, some, List, [], ◌∷◌, ◌++◌, length,
  inl, inr, length-append, ne→==, Bool-cases, ◌==◌, ==→eq, ==→ne, ◌||◌, true,
}
use demo.Word.Carry.{B}
use demo.Memory.{Heap, ◌>>=◌, put_words, word_at}
use demo.Memory.Laws.{length-words, word_at-put_words, put_words-append}
use demo.Nat.{Nat}
use demo.Nat.Value.{value, radix, AllWords, AllWords-append, value-snoc, scan, length-scan}
use demo.Nat.Loop.{word_loop-start}
use demo.Nat.Laws.{
  IsReady, Holds, Returns, grow, new_nat, nat_new_len-grow, part_of, nat_part-part_of,
  put-put_words, word_at-grow_new, words-grow, words-grow_new,
}
use demo.Nat.Norm.{nat_norm-filled}
use demo.Nat.New.{nat_new-Returns}
use demo.Nat.Mul.{mul_add_www, mul_add_vww, nat_mul_add_ww}
use demo.Nat.Mul.Scan.{scan-mul_add_www}

module _ (h : Heap) (x : Nat) (y c : ℕ) {xs : List ℕ} (r : IsReady h) (vx : Holds h x xs)
    (hy : y < B) (hc : c < B) where
  abbrev product_view : Nat
  product_view = new_nat h (x.len + 1)

  abbrev rounds : List ℕ × ℕ
  rounds = scan (λ a b c. mul_add_www a y c) xs xs c

  size : length xs ≡ x.len
  size = length-words h x.blk x.off x.len vx.at

  length-rounds : length rounds.0 ≡ x.len
  length-rounds = length-scan (λ a b c. mul_add_www a y c) xs xs c refl ∙ size

  low_product :
      mul_add_vww (part_of product_view 0 x.len) x y c (grow h (x.len + 1))
      ≡ some (rounds.1, put_words (grow h (x.len + 1)) h.next 0 rounds.0)
  unfolding mul_add_vww
  low_product =
      let here = words-grow h (x.len + 1) x.blk x.off x.len vx.old ∙ vx.at in
      let shared : min (x.len - 0) x.len ≡ x.len = omega arith in
      rw shared (
        word_loop-start (λ a b c. mul_add_www a y c) (part_of product_view 0 x.len) x x x.len c
          (grow h (x.len + 1)) here here (words-grow_new h (x.len + 1) 0 x.len (omega arith))
          (inl (λ e. absurd (omega (arith, vx.old)))) (inl (λ e. absurd (omega (arith, vx.old)))))

  abbrev product_words : List ℕ
  product_words = rounds.0 ++ (rounds.1 ∷ [])

  length-product_words : length product_words ≡ x.len + 1
  length-product_words = omega (arith, length-append rounds.0 (rounds.1 ∷ []), length-rounds)

  value-product_words : value product_words ≡ value xs * y + c
  value-product_words = omega (
    arith,
    value-snoc rounds.0 rounds.1,
    ap (λ (n : ℕ). radix n * rounds.1) (length-rounds ∙ sym size),
    (scan-mul_add_www y xs c hy vx.all hc).0,
  )

  product-AllWords : AllWords product_words
  product-AllWords =
      let s = scan-mul_add_www y xs c hy vx.all hc in
      AllWords-append rounds.0 (rounds.1 ∷ []) s.1 (s.2, tt)

  top_word : word_at (put_words (grow h (x.len + 1)) h.next 0 rounds.0) h.next (0 + x.len) ≡ some 0
  top_word =
      word_at-put_words (grow h (x.len + 1)) h.next 0 rounds.0 h.next (0 + x.len)
        (inr (inr (omega (arith, length-rounds))))
      ∙ word_at-grow_new h (x.len + 1) (0 + x.len) (omega arith)

  product_longer : 0 < x.len → 0 < y → Returns h (value xs * y + c) (nat_mul_add_ww x y c h)
  unfolding nat_mul_add_ww
  product_longer pos ne =
      rw
        (
          ne→== x.len 0 (λ e. absurd (omega arith)),
          ne→== y 0 (λ e. absurd (omega arith)),
          nat_new_len-grow h (x.len + 1) r (omega arith),
          ◌>>=◌,
          nat_part-part_of (grow h (x.len + 1)) product_view 0 x.len (omega arith),
          low_product,
          put-put_words (put_words (grow h (x.len + 1)) h.next 0 rounds.0) product_view x.len
              rounds.1 top_word,
          put_words-append (grow h (x.len + 1)) h.next 0 rounds.0 (rounds.1 ∷ []) {j = 0 + x.len}
              (omega (arith, length-rounds)),
        )
        (rw (← value-product_words)
          (nat_norm-filled h (x.len + 1) product_words r length-product_words product-AllWords))

pub length-zero : (ws : List ℕ) → length ws ≡ 0 → ws ≡ []
length-zero [] e = refl
length-zero (w ∷ ws) e = absurd (omega arith)

mul_add_small :
    (h : Heap) (x : Nat) (y c : ℕ)
    → IsReady h
    → c < B
    → (x.len == 0 || y == 0) ≡ true
    → Returns h c (nat_mul_add_ww x y c h)
unfolding nat_mul_add_ww
mul_add_small h x y c r hc e = rw e (nat_new-Returns h c r hc)

-- `natMulAddWW` allocates a view of x * y + r, for a number x and words y and r, and changes nothing
-- that was there before, where memory is granted.
pub nat_mul_add_ww-Returns :
    (h : Heap) (x : Nat) (y r : ℕ) {xs : List ℕ}
    → IsReady h
    → Holds h x xs
    → y < B
    → r < B
    → Returns h (value xs * y + r) (nat_mul_add_ww x y r h)
nat_mul_add_ww-Returns h x y r {xs} ready vx hy hr = elim (Bool-cases (x.len == 0)) [
  | inl e ↦
      let none' = length-zero xs (length-words h x.blk x.off x.len vx.at ∙ ==→eq x.len 0 e) in
      let sum : value xs * y + r ≡ r = rw none' (omega arith) in
      rw sum (mul_add_small h x y r ready hr (rw e refl))
  | inr e ↦ elim (Bool-cases (y == 0)) [
    | inl e' ↦
        let sum : value xs * y + r ≡ r = rw (==→eq y 0 e') (omega arith) in
        rw sum (mul_add_small h x y r ready hr (rw (e, e') refl))
    | inr e' ↦
        product_longer h x y r ready vx hy hr (omega (arith, ==→ne x.len 0 e))
          (omega (arith, ==→ne y 0 e'))
  ]
]
