-- ===== src/Nat/Mul/Written.antt =====
-- Views into which a loop has written words: one word at a time from the top, and cut by `natNorm`.
use demo.Common.{
  ℕ, suc, ◌+◌, ◌*◌, ◌<◌, ◌≡◌, refl, arith, ap, sym, ◌∙◌, Bool, some, List, length, [], ◌∷◌, ◌++◌,
  inl, inr,
}
use demo.Word.Carry.{B}
use demo.Memory.{Heap, words, put_words, word_at}
use demo.Memory.Laws.{
  length-words, words-cons, words-place, words-append, words-put_words, words-put_words_self,
  next-put_words, fails-put_words,
}
use demo.Nat.{Nat, nat_norm}
use demo.Nat.Value.{value, AllWords, radix, AllWords-append, value-snoc}
use demo.Nat.Laws.{IsReady, Holds, Returns, grow, grow-IsReady, new_nat, words-grow, next-grow}
use demo.Nat.Norm.{nat_norm-Trimmed}
use demo.Nat.Mul.Round.{Written}

pub nothing-Written : (h : Heap) (z : Nat) → Written h z 0 0 0 h
unfolding words
nothing-Written h z = record {
  out = [];
  at = refl;
  zeros = refl;
  total = refl;
  all = tt;
  same = λ b i n a. refl;
  next = refl;
  fails = refl;
}

-- The words below a word that was written before them.
pub top-Written :
    (h : Heap) (z : Nat) (h' : Heap) (i q number : ℕ) {w : ℕ}
    → word_at h z.blk (z.off + i) ≡ some w
    → q < B
    → Written (put_words h z.blk (z.off + i) (q ∷ [])) z i 0 number h'
    → Written h z (suc i) 0 (number + radix i * q) h'
top-Written h z h' i q number at_w q_lt rest =
    let h1 : Heap = put_words h z.blk (z.off + i) (q ∷ []) in
    let size = length-words h' z.blk z.off i rest.at in
    let one : words h z.blk (z.off + i) 1 ≡ some (_ ∷ []) =
      words-cons h z.blk (z.off + i) 0 at_w (unfold words in refl) in
    let top : words h' z.blk (z.off + i) 1 ≡ some (q ∷ []) =
      rest.same z.blk (z.off + i) 1 (inr (inr (omega arith)))
      ∙ words-put_words_self h z.blk (z.off + i) (q ∷ []) one in
    record {
      out = rest.out ++ (q ∷ []);
      at = words-place h' z.blk refl (omega arith) ∙ words-append h' z.blk z.off i 1 rest.at top;
      zeros = unfold words in refl;
      total = omega (arith, value-snoc rest.out q, rest.total, ap (λ (n : ℕ). radix n * q) size);
      all = AllWords-append rest.out (q ∷ []) rest.all (q_lt, tt);
      same = λ b j n a.
          rest.same b j n (ground arith)
          ∙ words-put_words h z.blk (z.off + i) (q ∷ []) b j n (ground arith);
      next = rest.next ∙ next-put_words h z.blk (z.off + i) (q ∷ []);
      fails = rest.fails ∙ fails-put_words h z.blk (z.off + i) (q ∷ []);
    }

-- A new view into which a number was written, cut by `natNorm`.
pub Written-Returns :
    (h h' : Heap) (n number : ℕ)
    → IsReady h
    → Written (grow h n) (new_nat h n) n 0 number h'
    → Returns h number (nat_norm (new_nat h n) h')
Written-Returns h h' n number r w =
    let v : Holds h' (new_nat h n) w.out = record {
      at = w.at;
      old = omega (arith, w.next, next-grow h n);
      all = w.all;
    } in
    let (t, returns) = nat_norm-Trimmed h' (new_nat h n) v in
    record {
      view = record (new_nat h n) { len = t.k };
      heap = h';
      digits = t.front;
      returns = returns;
      holds = record { at = t.at; old = v.old; all = t.all };
      total = t.same ∙ w.total;
      keeps = record {
        grows = omega (arith, w.next, next-grow h n);
        same = λ b i k p. w.same b i k (inl (λ e. absurd (omega arith))) ∙ words-grow h n b i k p;
      };
      ready = record {
        nonnull = omega (arith, w.next, next-grow h n);
        plenty = λ b. ap (λ (f : ℕ → Bool). f b) w.fails ∙ (grow-IsReady h n r).plenty b;
      };
    }

-- Words that are all written at once.
pub put_words-Written :
    (h : Heap) (z : Nat) (ws : List ℕ) (n : ℕ) {old : List ℕ}
    → length ws ≡ n
    → words h z.blk z.off n ≡ some old
    → AllWords ws
    → Written h z n 0 (value ws) (put_words h z.blk z.off ws)
put_words-Written h z ws n size there all = record {
  out = ws;
  at =
      words-place (put_words h z.blk z.off ws) z.blk refl (sym size)
      ∙ words-put_words_self h z.blk z.off ws (words-place h z.blk refl size ∙ there);
  zeros = unfold words in refl;
  total = refl;
  all = all;
  same = λ b i k a. words-put_words h z.blk z.off ws b i k (ground (arith, size));
  next = next-put_words h z.blk z.off ws;
  fails = fails-put_words h z.blk z.off ws;
}
