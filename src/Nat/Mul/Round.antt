-- ===== src/Nat/Mul/Round.antt =====
-- A round of the loop of `basicMul`: what it has written, and what it leaves.
use demo.Common.{
  ℕ, suc, min, ◌+◌, ◌*◌, ◌<◌, ◌≡◌, ◌≢◌, refl, arith, ap, sym, ◌∙◌, some, List, [], ◌∷◌, ◌++◌,
  length, inl, inr, length-append, replicate, eq→==, ne→==,
}
use demo.Word.Carry.{B}
use demo.Memory.{Heap, ◌>>=◌, words, put_words, word_at}
use demo.Memory.Laws.{
  length-words, words-suc, words-split, words-place, words-append, words-cons, words-put_words,
  words-put_words_self, word_at-put_words, put_words-append, next-put_words, fails-put_words, Apart,
  load-some,
}
use demo.Nat.{Nat, get}
use demo.Nat.Value.{
  value, radix, AllWords, AllWords-append, AllWords-front, AllWords-back, value-append, value-snoc,
  scan, length-scan,
}
use demo.Nat.Loop.{word_loop-start}
use demo.Nat.Laws.{part_of, nat_part-part_of, put-put_words}
use demo.Nat.Mul.{add_mul_round, add_mul_vvw, basic_mul_loop}
use demo.Nat.Mul.Scan.{scan-add_mul_round}

-- What has been written in `z`, since the heap `h`: `k` words that hold `number`, and `rest` zeros.
pub record Written (h : Heap) (z : Nat) (k rest number : ℕ) (h' : Heap) : Type 0 where
  pub out : List ℕ
  pub at : words h' z.blk z.off k ≡ some out
  pub zeros : words h' z.blk (z.off + k) rest ≡ some (replicate rest 0)
  pub total : value out ≡ number
  pub all : AllWords out
  pub same : (b i n : ℕ) → Apart b i n z.blk z.off (k + rest) → words h' b i n ≡ words h b i n
  pub next : h'.next ≡ h.next
  pub fails : h'.fails ≡ h.fails

-- `addMulVVW` adds x * w to the words of z.
add_mul_vvw-scan :
    (z x : Nat) (w n : ℕ) (h : Heap) {xs zs : List ℕ}
    → min z.len x.len ≡ n
    → words h x.blk x.off n ≡ some xs
    → words h z.blk z.off n ≡ some zs
    → z.blk ≢ x.blk
    → add_mul_vvw z x w h
      ≡ some (
        (scan (add_mul_round w) xs zs 0).1,
        put_words h z.blk z.off (scan (add_mul_round w) xs zs 0).0,
      )
unfolding add_mul_vvw
add_mul_vvw-scan z x w n h e hx hz apart =
    rw e
      (word_loop-start (add_mul_round w) z x z n 0 h hx hz hz (inl apart) (inr (inl (omega arith))))

-- The round of a word that is not 0.
module _ (h : Heap) (z x : Nat) (i n w number : ℕ) (h' : Heap) {xs : List ℕ}
    (sofar : Written h z (i + x.len) (suc n) number h') (hx : words h' x.blk x.off x.len ≡ some xs)
    (all : AllWords xs) (hw : w < B) (apart : z.blk ≢ x.blk) where
  pub parts :
      (lo : List ℕ) × (hi : List ℕ) × (words h' z.blk z.off i ≡ some lo)
      × (words h' z.blk (z.off + i) x.len ≡ some hi)
      × (sofar.out ≡ lo ++ hi)
  parts = words-split h' z.blk z.off i x.len (i + x.len) refl sofar.at

  abbrev lo : List ℕ
  lo = parts.0

  abbrev hi : List ℕ
  hi = parts.1

  lo-AllWords : AllWords lo
  lo-AllWords = AllWords-front lo hi (rw parts.4 at sofar.all)

  hi-AllWords : AllWords hi
  hi-AllWords = AllWords-back lo hi (rw parts.4 at sofar.all)

  size_x : length xs ≡ x.len
  size_x = length-words h' x.blk x.off x.len hx

  size_lo : length lo ≡ i
  size_lo = length-words h' z.blk z.off i parts.2

  abbrev sums : List ℕ × ℕ
  sums = scan (add_mul_round w) xs hi 0

  even : length xs ≡ length hi
  even = size_x ∙ sym (length-words h' z.blk (z.off + i) x.len parts.3)

  size_sums : length sums.0 ≡ x.len
  size_sums = length-scan (add_mul_round w) xs hi 0 even ∙ size_x

  abbrev top : List ℕ
  top = sums.0 ++ (sums.1 ∷ [])

  size_top : length top ≡ x.len + 1
  size_top = omega (arith, length-append sums.0 (sums.1 ∷ []), size_sums)

  abbrev pub after : Heap
  after = put_words h' z.blk (z.off + i) top

  first_zero :
      (word_at h' z.blk (z.off + (i + x.len)) ≡ some 0)
      × (words h' z.blk (z.off + (i + x.len) + 1) n ≡ some (replicate n 0))
  first_zero =
      let (v, rest, at_v, at_rest, split) =
        words-suc h' z.blk (z.off + (i + x.len)) n sofar.zeros in
      (at_v ∙ cc, at_rest ∙ cc)

  top_there : words h' z.blk (z.off + i) (x.len + 1) ≡ some (hi ++ (0 ∷ []))
  top_there = words-append h' z.blk (z.off + i) x.len 1 parts.3 (
      words-cons h' z.blk (z.off + i + x.len) 0 (ap (word_at h' z.blk) (omega arith) ∙ first_zero.0)
        (unfold words in refl))

  value-top : value top ≡ value xs * w + value hi
  value-top = omega (
    arith,
    value-snoc sums.0 sums.1,
    ap (λ (k : ℕ). radix k * sums.1) (size_sums ∙ sym size_x),
    (scan-add_mul_round w xs hi 0 hw even all hi-AllWords (omega arith)).0,
  )

  top_word : word_at (put_words h' z.blk (z.off + i) sums.0) z.blk (z.off + (x.len + i)) ≡ some 0
  top_word =
      word_at-put_words h' z.blk (z.off + i) sums.0 z.blk (z.off + (x.len + i))
        (inr (inr (omega (arith, size_sums))))
      ∙ ap (word_at h' z.blk) (omega arith)
      ∙ first_zero.0

  pub round-Written : Written h z (i + 1 + x.len) n (number + radix i * (value xs * w)) after
  round-Written =
      let s = scan-add_mul_round w xs hi 0 hw even all hi-AllWords (omega arith) in
      record {
        out = lo ++ top;
        at =
            words-place after z.blk refl (omega arith)
            ∙ words-append after z.blk z.off i (x.len + 1)
                (words-put_words h' z.blk (z.off + i) top z.blk z.off i (inr (inl (omega arith)))
                  ∙ parts.2)
                (words-place after z.blk refl (sym size_top)
                  ∙ words-put_words_self h' z.blk (z.off + i) top
                      (words-place h' z.blk refl size_top ∙ top_there));
        zeros =
            words-put_words h' z.blk (z.off + i) top z.blk (z.off + (i + 1 + x.len)) n
              (inr (inr (omega (arith, size_top))))
            ∙ words-place h' z.blk (omega arith) refl
            ∙ first_zero.1;
        total = omega (
          arith,
          value-append lo top,
          ap (λ (t : ℕ). radix (length lo) * t) value-top,
          ap (λ (k : ℕ). radix k * (value xs * w)) size_lo,
          sym sofar.total ∙ ap value parts.4 ∙ value-append lo hi,
        );
        all = AllWords-append lo top lo-AllWords (AllWords-append sums.0 _ s.1 (s.2, tt));
        same = λ b j m a.
            words-put_words h' z.blk (z.off + i) top b j m (ground (arith, size_top))
            ∙ sofar.same b j m (ground arith);
        next = next-put_words h' z.blk (z.off + i) top ∙ sofar.next;
        fails = fails-put_words h' z.blk (z.off + i) top ∙ sofar.fails;
      }

  pub round-loop :
      (y : Nat)
      → word_at h' y.blk (y.off + i) ≡ some w
      → w ≢ 0
      → basic_mul_loop z x y (suc n) i h' ≡ basic_mul_loop z x y n (i + 1) after
  unfolding basic_mul_loop get
  round-loop y at_w pos =
      rw
        (
          basic_mul_loop,
          ◌>>=◌,
          load-some h' y.blk (y.off + i) at_w,
          ne→== w 0 pos,
          nat_part-part_of h' z i (i + x.len) (omega arith),
          add_mul_vvw-scan (part_of z i (i + x.len)) x w x.len h' (omega arith) hx parts.3 apart,
          put-put_words (put_words h' z.blk (z.off + i) sums.0) z (x.len + i) sums.1 top_word,
          put_words-append h' z.blk (z.off + i) sums.0 (sums.1 ∷ []) {j = z.off + (x.len + i)}
              (omega (arith, size_sums)),
        )
        refl

  -- The round of a word that is 0 writes nothing: there is one more zero on top.
  pub skip-Written : Written h z (i + 1 + x.len) n number h'
  skip-Written = record {
    out = sofar.out ++ (0 ∷ []);
    at =
        words-place h' z.blk refl (omega arith)
        ∙ words-append h' z.blk z.off (i + x.len) 1 sofar.at
            (words-cons h' z.blk (z.off + (i + x.len)) 0 first_zero.0 (unfold words in refl));
    zeros = words-place h' z.blk (omega arith) refl ∙ first_zero.1;
    total = omega (arith, value-snoc sofar.out 0, sofar.total);
    all = AllWords-append sofar.out (0 ∷ []) sofar.all (omega arith, tt);
    same = λ b j m a. sofar.same b j m (ground arith);
    next = sofar.next;
    fails = sofar.fails;
  }

  pub skip-loop :
      (y : Nat)
      → word_at h' y.blk (y.off + i) ≡ some w
      → w ≡ 0
      → basic_mul_loop z x y (suc n) i h' ≡ basic_mul_loop z x y n (i + 1) h'
  unfolding basic_mul_loop get
  skip-loop y at_w none' =
      rw (basic_mul_loop, ◌>>=◌, load-some h' y.blk (y.off + i) at_w, eq→== w 0 none') refl
