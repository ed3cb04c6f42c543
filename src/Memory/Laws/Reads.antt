-- ===== src/Memory/Laws/Reads.antt =====
-- Reads and writes of several words: put together, cut in parts, and how `memcpy` uses them.
use demo.Common.{
  ℕ, zero, suc, ◌+◌, ◌≡◌, inl, inr, refl, Option, none, some, arith, ◌∙◌, List, [], ◌∷◌, ◌++◌,
  length, ap, ap₂, take, drop, take-drop, take-append, drop-append, sym,
}
use demo.Memory.{Heap, word_at, put_word, words, put_words, load, store, memcpy, cons?}
use demo.Memory.Laws.Frame.{word_at-put_word_apart, word_at-put_word_self, Apart, words-put_word}

cons?-inv :
    (o : Option ℕ) (p : Option (List ℕ)) {ws : List ℕ}
    → cons? o p ≡ some ws
    → (w : ℕ) × (rest : List ℕ) × (o ≡ some w) × (p ≡ some rest) × (ws ≡ w ∷ rest)
cons?-inv none p e = cc
cons?-inv (some w) none e = cc
cons?-inv (some w) (some rest) e = (w, rest, refl, refl, cc)

-- A read of some words is a read of the first, and of the rest.
pub words-suc :
    (h : Heap) (b i n : ℕ) {ws : List ℕ}
    → words h b i (suc n) ≡ some ws
    → (w : ℕ) × (rest : List ℕ) × (word_at h b i ≡ some w)
      × (words h b (i + 1) n ≡ some rest)
      × (ws ≡ w ∷ rest)
unfolding words
words-suc h b i n e = cons?-inv (word_at h b i) (words h b (i + 1) n) e

pub words-cons :
    (h : Heap) (b i n : ℕ) {w : ℕ} {rest : List ℕ}
    → word_at h b i ≡ some w
    → words h b (i + 1) n ≡ some rest
    → words h b i (suc n) ≡ some (w ∷ rest)
unfolding words
words-cons h b i n p q = rw (p, q)

pub words-zero : (h : Heap) (b i : ℕ) {ws : List ℕ} → words h b i zero ≡ some ws → ws ≡ []
unfolding words
words-zero h b i e = cc

-- The same words, their place written in another way.
pub words-place : (h : Heap) (b : ℕ) {i j m n : ℕ} → i ≡ j → m ≡ n → words h b i m ≡ words h b j n
words-place h b p q = ap₂ (words h b) p q

pub length-words : (h : Heap) (b i n : ℕ) {ws : List ℕ} → words h b i n ≡ some ws → length ws ≡ n
length-words h b i zero e = rw (words-zero h b i e)
length-words h b i (suc n) e =
    let (w, rest, at, then_rest, split) = words-suc h b i n e in
    rw split (ap suc (length-words h b (i + 1) n then_rest))

pub words-append :
    (h : Heap) (b i m n : ℕ) {xs ys : List ℕ}
    → words h b i m ≡ some xs
    → words h b (i + m) n ≡ some ys
    → words h b i (m + n) ≡ some (xs ++ ys)
words-append h b i zero n p q =
    rw (words-zero h b i p) (words-place h b (omega arith) (omega arith) ∙ q)
words-append h b i (suc m) n p q =
    let (w, rest, at, then_rest, split) = words-suc h b i m p in
    rw split (
      words-place h b refl (omega arith)
      ∙ words-cons h b i (m + n) at
          (words-append h b (i + 1) m n then_rest (words-place h b (omega arith) refl ∙ q)))

pub word_at-put_words :
    (h : Heap) (b i : ℕ) (ws : List ℕ) (b' i' : ℕ)
    → Apart b' i' 1 b i (length ws)
    → word_at (put_words h b i ws) b' i' ≡ word_at h b' i'
unfolding put_words
word_at-put_words h b i [] b' i' a = refl
word_at-put_words h b i (w ∷ ws) b' i' a =
    word_at-put_words (put_word h b i w) b (i + 1) ws b' i' (ground arith)
    ∙ word_at-put_word_apart h b i w b' i' (ground arith)

-- The words that were written are read.
pub words-put_words_self :
    (h : Heap) (b i : ℕ) (ws : List ℕ) {old : List ℕ}
    → words h b i (length ws) ≡ some old
    → words (put_words h b i ws) b i (length ws) ≡ some ws
unfolding put_words
words-put_words_self h b i [] e = unfold words in refl
words-put_words_self h b i (w ∷ ws) e =
    let (old_w, rest, at, then_rest, split) = words-suc h b i (length ws) e in
    words-cons _ b i (length ws)
      (word_at-put_words (put_word h b i w) b (i + 1) ws b i (inr (inl (omega arith)))
        ∙ word_at-put_word_self h b i w at)
      (words-put_words_self (put_word h b i w) b (i + 1) ws
        (words-put_word h b i w b (i + 1) (length ws) (inr (inr (omega arith))) ∙ then_rest))

-- A part of what is read, at the front and at the back.
pub words-take :
    (h : Heap) (b i m n k : ℕ) {ws : List ℕ}
    → k ≡ m + n
    → words h b i k ≡ some ws
    → words h b i m ≡ some (take m ws)
words-take h b i zero n k s e = unfold words in refl
words-take h b i (suc m) n k s e =
    let (w, rest, at, then_rest, split) =
      words-suc h b i (m + n) (words-place h b refl (omega arith) ∙ e) in
    rw split (words-cons h b i m at (words-take h b (i + 1) m n (m + n) refl then_rest))

pub words-drop :
    (h : Heap) (b i m n k : ℕ) {ws : List ℕ}
    → k ≡ m + n
    → words h b i k ≡ some ws
    → words h b (i + m) n ≡ some (drop m ws)
words-drop h b i zero n k s e = words-place h b (omega arith) (omega arith) ∙ e
words-drop h b i (suc m) n k s e =
    let (w, rest, at, then_rest, split) =
      words-suc h b i (m + n) (words-place h b refl (omega arith) ∙ e) in
    rw split
      (words-place h b (omega arith) refl ∙ words-drop h b (i + 1) m n (m + n) refl then_rest)

pub next-put_words : (h : Heap) (b i : ℕ) (ws : List ℕ) → (put_words h b i ws).next ≡ h.next
unfolding put_words put_word
next-put_words h b i [] = refl
next-put_words h b i (w ∷ ws) = next-put_words (put_word h b i w) b (i + 1) ws

pub fails-put_words : (h : Heap) (b i : ℕ) (ws : List ℕ) → (put_words h b i ws).fails ≡ h.fails
unfolding put_words put_word
fails-put_words h b i [] = refl
fails-put_words h b i (w ∷ ws) = fails-put_words (put_word h b i w) b (i + 1) ws

pub load-some : (h : Heap) (b i : ℕ) {w : ℕ} → word_at h b i ≡ some w → load b i h ≡ some (w, h)
unfolding load
load-some h b i e = rw (e, load)

pub store-some :
    (h : Heap) (b i v : ℕ) {w : ℕ}
    → word_at h b i ≡ some w
    → store b i v h ≡ some (tt, put_word h b i v)
unfolding store
store-some h b i v e = rw (e, store)

pub put_words-cons :
    (h : Heap) (b i w : ℕ) (ws : List ℕ) {j : ℕ}
    → j ≡ i + 1
    → put_words (put_word h b i w) b j ws ≡ put_words h b i (w ∷ ws)
unfolding put_words
put_words-cons h b i w ws e = rw e

-- A read of `m` words and then `n` more, in two parts.
pub words-split :
    (h : Heap) (b i m n k : ℕ) {ws : List ℕ}
    → k ≡ m + n
    → words h b i k ≡ some ws
    → (xs : List ℕ) × (ys : List ℕ) × (words h b i m ≡ some xs)
      × (words h b (i + m) n ≡ some ys)
      × (ws ≡ xs ++ ys)
words-split h b i m n k {ws} s e = (
  take m ws,
  drop m ws,
  words-take h b i m n k s e,
  words-drop h b i m n k s e,
  sym (take-drop m ws),
)

-- The two parts of a read of `xs ++ ys`.
pub words-parts :
    (h : Heap) (b i m n k : ℕ) (xs ys : List ℕ)
    → k ≡ m + n
    → length xs ≡ m
    → words h b i k ≡ some (xs ++ ys)
    → (words h b i m ≡ some xs) × (words h b (i + m) n ≡ some ys)
words-parts h b i m n k xs ys s size e = (
  words-take h b i m n k s e ∙ ap some (rw (← size) (take-append xs ys)),
  words-drop h b i m n k s e ∙ ap some (rw (← size) (drop-append xs ys)),
)

pub words-snoc :
    (h : Heap) (b i n : ℕ) {ws : List ℕ}
    → words h b i (suc n) ≡ some ws
    → (xs : List ℕ) × (w : ℕ) × (words h b i n ≡ some xs)
      × (word_at h b (i + n) ≡ some w)
      × (ws ≡ xs ++ (w ∷ []))
words-snoc h b i n e =
    let (xs, ys, at_xs, at_ys, split) = words-split h b i n 1 (suc n) (omega arith) e in
    let (w, rest, at_w, at_rest, split') = words-suc h b (i + n) zero at_ys in
    (
      xs,
      w,
      at_xs,
      at_w,
      split
          ∙ ap (λ (t : List ℕ). xs ++ t) (split' ∙ ap (◌∷◌ w) (words-zero h b (i + n + 1) at_rest)),
    )

-- Two writes, one behind the other, are one write.
pub put_words-append :
    (h : Heap) (b i : ℕ) (xs ys : List ℕ) {j : ℕ}
    → j ≡ i + length xs
    → put_words (put_words h b i xs) b j ys ≡ put_words h b i (xs ++ ys)
unfolding put_words
put_words-append h b i [] ys {j} e = ap (λ k. put_words h b k ys) (omega (arith, e))
put_words-append h b i (x ∷ xs) ys e =
    put_words-append (put_word h b i x) b (i + 1) xs ys (omega arith)

pub memcpy-some :
    (h : Heap) (b i b' i' n : ℕ) {ws old : List ℕ}
    → words h b' i' n ≡ some ws
    → words h b i n ≡ some old
    → memcpy b i b' i' n h ≡ some (tt, put_words h b i ws)
unfolding memcpy
memcpy-some h b i b' i' n e e' = rw (memcpy, e, e')
