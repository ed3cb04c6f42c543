-- ===== src/Nat/Loop.antt =====
-- The loops of natadd.c, natsub.c and natmul.c that go through the words of two views, write one
-- word in each round, and hand a state (the carry) on.
use demo.Common.{
  ℕ, zero, suc, ◌+◌, ◌≤◌, ◌≡◌, ◌≢◌, ◌⊎◌, refl, arith, some, List, ◌∷◌, inr, inl, ◌∙◌, ap,
}
use demo.Memory.{Heap, M, pure, ◌>>=◌, ◌>>◌, word_at, words, put_words, put_word}
use demo.Memory.Laws.{
  words-suc, words-zero, words-put_word, words-place, load-some, store-some, put_words-cons,
}
use demo.Nat.{Nat, get, put}
use demo.Nat.Value.{scan}

module _ {S : Type 0} (f : ℕ → ℕ → S → ℕ × S) (z x y : Nat) where
  -- `n` rounds from index `i` on.
  unfoldable pub word_loop : ℕ → ℕ → S → M S
  word_loop zero i s = pure s
  word_loop (suc n) i s = do
    a ← get x i
    b ← get y i
    put z i (f a b s).0
    word_loop n (i + 1) (f a b s).1

-- Words written at an index of `z` are not read at a later index of `x`, `n` words from `i` on.
abbrev pub Behind : Nat → Nat → ℕ → Type 0
Behind z x e = (z.blk ≢ x.blk) ⊎ ((z.off ≤ x.off) ⊎ (x.off + e ≤ z.off))

module _ {S : Type 0} (f : ℕ → ℕ → S → ℕ × S) (z x y : Nat) where
  later :
      (h : Heap) (v : Nat) (i a b : ℕ) (s : S) (n : ℕ) {vs : List ℕ}
      → Behind z v (i + suc n)
      → words h v.blk (v.off + i + 1) n ≡ some vs
      → words (put_word h z.blk (z.off + i) (f a b s).0) v.blk (v.off + (i + 1)) n ≡ some vs
  later h v i a b s n apart e =
      words-place _ v.blk (omega arith) refl
      ∙ words-put_word h z.blk (z.off + i) (f a b s).0 v.blk (v.off + i + 1) n (ground arith)
      ∙ e

  word_loop_step :
      (n i : ℕ) (s : S) (h : Heap) {a b c : ℕ}
      → word_at h x.blk (x.off + i) ≡ some a
      → word_at h y.blk (y.off + i) ≡ some b
      → word_at h z.blk (z.off + i) ≡ some c
      → word_loop f z x y (suc n) i s h
        ≡ word_loop f z x y n (i + 1) (f a b s).1 (put_word h z.blk (z.off + i) (f a b s).0)
  unfolding word_loop get put
  word_loop_step n i s h {a} {b} at_x at_y at_z = rw (
    word_loop,
    ◌>>=◌,
    load-some h x.blk (x.off + i) at_x,
    load-some h y.blk (y.off + i) at_y,
    store-some h z.blk (z.off + i) (f a b s).0 at_z,
  )

  -- The loop computes `scan`, and writes its words to `z`.
  pub word_loop-scan :
      (n i e : ℕ) (s : S) (h : Heap) {xs ys zs : List ℕ}
      → e ≡ i + n
      → words h x.blk (x.off + i) n ≡ some xs
      → words h y.blk (y.off + i) n ≡ some ys
      → words h z.blk (z.off + i) n ≡ some zs
      → Behind z x e
      → Behind z y e
      → word_loop f z x y n i s h
        ≡ some ((scan f xs ys s).1, put_words h z.blk (z.off + i) (scan f xs ys s).0)
  word_loop-scan zero i e s h he hx hy hz bx by =
      rw (words-zero h x.blk (x.off + i) hx) (unfold word_loop put_words in refl)
  word_loop-scan (suc n) i e s h he hx hy hz bx by =
      let (a, xs', at_x, rest_x, split_x) = words-suc h x.blk (x.off + i) n hx in
      let (b, ys', at_y, rest_y, split_y) = words-suc h y.blk (y.off + i) n hy in
      let (c, zs', at_z, rest_z, split_z) = words-suc h z.blk (z.off + i) n hz in
      rw (split_x, split_y)
        (word_loop_step n i s h at_x at_y at_z
          ∙ word_loop-scan n (i + 1) e (f a b s).1 (put_word h z.blk (z.off + i) (f a b s).0)
              (omega arith) (later h x i a b s n (ground arith) rest_x)
              (later h y i a b s n (ground arith) rest_y)
              (later h z i a b s n (inr (inl (omega arith))) rest_z) bx by
          ∙ ap (λ k. some ((scan f (a ∷ xs') (b ∷ ys') s).1, k))
              (put_words-cons h z.blk (z.off + i) (f a b s).0 _ (omega arith)))

  -- The loop from the first word on.
  pub word_loop-start :
      (n : ℕ) (s : S) (h : Heap) {xs ys zs : List ℕ}
      → words h x.blk x.off n ≡ some xs
      → words h y.blk y.off n ≡ some ys
      → words h z.blk z.off n ≡ some zs
      → Behind z x n
      → Behind z y n
      → word_loop f z x y n 0 s h
        ≡ some ((scan f xs ys s).1, put_words h z.blk z.off (scan f xs ys s).0)
  word_loop-start n s h {xs} {ys} hx hy hz bx by =
      let at_zero : z.off + 0 ≡ z.off = omega arith in
      word_loop-scan n 0 n s h (omega arith) (words-place h x.blk (omega arith) refl ∙ hx)
        (words-place h y.blk (omega arith) refl ∙ hy) (words-place h z.blk at_zero refl ∙ hz) bx by
      ∙ ap (λ k. some ((scan f xs ys s).1, put_words h z.blk k (scan f xs ys s).0)) at_zero
