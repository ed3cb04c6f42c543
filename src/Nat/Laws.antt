-- ===== src/Nat/Laws.antt =====
-- What the operations of nat.c give and how they change the heap.
use demo.Common.{
  ℕ, zero, suc, ◌+◌, ◌-◌, ◌≤◌, ◌<◌, ◌≡◌, refl, arith, Bool, false, some, Option, ltb, List, [], ◌∷◌,
  replicate, length, ◌∙◌, ap, sym, get_elem?, le→leb, lt→ltb, ne→==, eq→==, inl,
}
use demo.Memory.{Heap, ◌>>=◌, words, word_at, update, calloc, put_words}
use demo.Memory.Laws.{
  words-cons, words-place, store-some, next-put_words, fails-put_words, words-put_words,
  words-put_words_self,
}
use demo.Nat.{Nat, nat_new_len, nat_part, nat_set_value, put}
use demo.Nat.Value.{AllWords, value}

-- The allocator works: block 0 is not handed out, and no allocation fails.
pub record IsReady (h : Heap) : Type 0 where
  pub nonnull : 0 < h.next
  pub plenty : (b : ℕ) → h.fails b ≡ false

-- The view `x` holds the words `ws`, in a block that is allocated.
pub record Holds (h : Heap) (x : Nat) (ws : List ℕ) : Type 0 where
  pub at : words h x.blk x.off x.len ≡ some ws
  pub old : x.blk < h.next
  pub all : AllWords ws

-- The heap with one more block, of `n` zeros.
pub grow : Heap → ℕ → Heap
grow h n = record h { blocks = update h.blocks h.next (some (replicate n 0)); next = suc h.next }

pub grow-IsReady : (h : Heap) (n : ℕ) → IsReady h → IsReady (grow h n)
unfolding grow
grow-IsReady h n r = record { nonnull = omega arith; plenty = r.plenty }

word_at-grow : (h : Heap) (n b i : ℕ) → b < h.next → word_at (grow h n) b i ≡ word_at h b i
unfolding grow word_at
word_at-grow h n b i p = rw (ne→== b h.next (λ e. absurd (omega arith)))

-- The blocks that were there hold what they held.
pub words-grow : (h : Heap) (n b i k : ℕ) → b < h.next → words (grow h n) b i k ≡ words h b i k
unfolding words
words-grow h n b i zero p = refl
words-grow h n b i (suc k) p = rw (word_at-grow h n b i p, words-grow h n b (i + 1) k p)

get_elem?-replicate : (n i : ℕ) → i < n → get_elem? {A = ℕ} (replicate n 0) i ≡ some 0
get_elem?-replicate zero i h = absurd (omega arith)
get_elem?-replicate (suc n) zero h = refl
get_elem?-replicate (suc n) (suc i) h = get_elem?-replicate n i (omega arith)

pub word_at-grow_new : (h : Heap) (n i : ℕ) → i < n → word_at (grow h n) h.next i ≡ some 0
unfolding grow word_at
word_at-grow_new h n i p = rw (eq→== h.next h.next refl) (get_elem?-replicate n i p)

-- The new block holds zeros.
pub words-grow_new :
    (h : Heap) (n i k : ℕ) → i + k ≤ n → words (grow h n) h.next i k ≡ some (replicate k 0)
words-grow_new h n i zero p = unfold words in refl
words-grow_new h n i (suc k) p =
    words-cons (grow h n) h.next i k (word_at-grow_new h n i (omega arith))
      (words-grow_new h n (i + 1) k (omega arith))

calloc-grow : (h : Heap) (n : ℕ) → IsReady h → calloc n h ≡ some (h.next, grow h n)
unfolding calloc grow
calloc-grow h n r = rw (r.plenty h.next)

abbrev pub new_nat : Heap → ℕ → Nat
new_nat h n = record { blk = h.next; off = 0; len = n; cap = n; part = false }

pub nat_new_len-grow :
    (h : Heap) (n : ℕ) → IsReady h → 0 < n → nat_new_len n h ≡ some (new_nat h n, grow h n)
unfolding nat_new_len
nat_new_len-grow h zero r p = absurd (omega arith)
nat_new_len-grow h (suc n) r p =
    rw (calloc-grow h (suc n) r, ◌>>=◌, ne→== h.next 0 (λ e. absurd (omega (arith, r.nonnull))))

abbrev pub part_of : Nat → ℕ → ℕ → Nat
part_of p from to = record {
  blk = p.blk;
  off = p.off + from;
  len = to - from;
  cap = to - from;
  part = ltb 0 from;
}

pub nat_part-part_of :
    (h : Heap) (p : Nat) (from to : ℕ)
    → from ≤ to
    → nat_part p from to h ≡ some (part_of p from to, h)
unfolding nat_part
nat_part-part_of h p from to le = rw (le→leb from to le)

pub put-put_words :
    (h : Heap) (z : Nat) (i v : ℕ) {w : ℕ}
    → word_at h z.blk (z.off + i) ≡ some w
    → put z i v h ≡ some (tt, put_words h z.blk (z.off + i) (v ∷ []))
unfolding put put_words
put-put_words h z i v e = store-some h z.blk (z.off + i) v e

pub nat_set_value-put_words :
    (h : Heap) (z : Nat) (i v : ℕ) {w : ℕ}
    → i < z.len
    → word_at h z.blk (z.off + i) ≡ some w
    → nat_set_value z i v h ≡ some (tt, put_words h z.blk (z.off + i) (v ∷ []))
unfolding nat_set_value
nat_set_value-put_words h z i v lt e = rw (lt→ltb i z.len lt) (put-put_words h z i v e)

-- What was allocated in `h` is as it was.
pub record Keeps (h h' : Heap) : Type 0 where
  pub grows : h.next ≤ h'.next
  pub same : (b i k : ℕ) → b < h.next → words h' b i k ≡ words h b i k

pub Keeps-refl : (h : Heap) → Keeps h h
Keeps-refl h = record { grows = omega arith; same = λ b i k p. refl }

pub Keeps-trans : {h h' h'' : Heap} → Keeps h h' → Keeps h' h'' → Keeps h h''
Keeps-trans p q = record {
  grows = omega (arith, p.grows, q.grows);
  same = λ b i k lt. q.same b i k (omega (arith, p.grows)) ∙ p.same b i k lt;
}

pub Holds-keep : {h h' : Heap} {x : Nat} {ws : List ℕ} → Keeps h h' → Holds h x ws → Holds h' x ws
Holds-keep {x} k v = record {
  at = k.same x.blk x.off x.len v.old ∙ v.at;
  old = omega (arith, k.grows, v.old);
  all = v.all;
}

pub next-grow : (h : Heap) (n : ℕ) → (grow h n).next ≡ suc h.next
unfolding grow
next-grow h n = refl

pub grow-Keeps : (h : Heap) (n : ℕ) → Keeps h (grow h n)
grow-Keeps h n = record {
  grows = omega (arith, next-grow h n);
  same = λ b i k p. words-grow h n b i k p;
}

-- A computation that returns a view of a number, and leaves what was there.
pub record Returns (h : Heap) (number : ℕ) (result : Option (Nat × Heap)) : Type 0 where
  pub view : Nat
  pub heap : Heap
  pub digits : List ℕ
  pub returns : result ≡ some (view, heap)
  pub holds : Holds heap view digits
  pub total : value digits ≡ number
  pub keeps : Keeps h heap
  pub ready : IsReady heap

-- A new block, into which the words `ws` are written.
module _ (h : Heap) (n : ℕ) (ws : List ℕ) (r : IsReady h) where
  next-written : (put_words (grow h n) h.next 0 ws).next ≡ suc h.next
  unfolding grow
  next-written = next-put_words (grow h n) h.next 0 ws

  pub written-Keeps : Keeps h (put_words (grow h n) h.next 0 ws)
  written-Keeps = record {
    grows = omega (arith, next-written);
    same = λ b i k p.
        words-put_words (grow h n) h.next 0 ws b i k (inl (λ e. absurd (omega arith)))
        ∙ words-grow h n b i k p;
  }

  pub written-IsReady : IsReady (put_words (grow h n) h.next 0 ws)
  written-IsReady = record {
    nonnull = omega (arith, next-written);
    plenty = λ b.
        ap (λ (f : ℕ → Bool). f b) (fails-put_words (grow h n) h.next 0 ws)
        ∙ (grow-IsReady h n r).plenty b;
  }

  pub written-Holds :
      {m : ℕ}
      → length ws ≡ m
      → m ≤ n
      → AllWords ws
      → Holds (put_words (grow h n) h.next 0 ws) (record (new_nat h n) { len = m }) ws
  written-Holds {m} size room all = record {
    at =
        words-place (put_words (grow h n) h.next 0 ws) h.next refl (sym size)
        ∙ words-put_words_self (grow h n) h.next 0 ws
            (words-place (grow h n) h.next refl size ∙ words-grow_new h n 0 m (omega arith));
    old = omega (arith, next-written);
    all = all;
  }

-- A new block, filled with the words `ws`.
module _ (h : Heap) (n : ℕ) (ws : List ℕ) (r : IsReady h) (size : length ws ≡ n) where
  abbrev pub filled : Heap
  filled = put_words (grow h n) h.next 0 ws

  pub filled-Keeps : Keeps h filled
  filled-Keeps = written-Keeps h n ws r

  pub filled-IsReady : IsReady filled
  filled-IsReady = written-IsReady h n ws r

  pub filled-Holds : AllWords ws → Holds filled (new_nat h n) ws
  filled-Holds all = written-Holds h n ws r size (omega arith) all
