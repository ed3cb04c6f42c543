-- ===== src/Memory/Laws/Frame.antt =====
-- What a read gives after a write.
use demo.Common.{
  ℕ, zero, suc, ◌+◌, ◌≤◌, ◌<◌, ◌≡◌, ◌≢◌, ◌⊎◌, inl, inr, refl, Option, none, some, arith, ◌∙◌, List,
  [], ◌∷◌, length, get_elem?, get_elem?-set_self, get_elem?-set_ne, ◌==◌, Bool-cases, ==→eq, eq→==,
  ne→==,
}
use demo.Memory.{Heap, word_at, put_word, words, put_words, in_block, set_block}

in_block-set_block_ne :
    (o : Option (List ℕ)) (i w i' : ℕ) → i ≢ i' → in_block (set_block o i w) i' ≡ in_block o i'
in_block-set_block_ne none i w i' ne = refl
in_block-set_block_ne (some ws) i w i' ne = get_elem?-set_ne ws i i' w ne

get_elem?-some-lt : (ws : List ℕ) (i : ℕ) {v : ℕ} → get_elem? ws i ≡ some v → i < length ws
get_elem?-some-lt [] i e = cc
get_elem?-some-lt (w ∷ ws) zero e = omega arith
get_elem?-some-lt (w ∷ ws) (suc i) e = omega (arith, get_elem?-some-lt ws i e)

in_block-set_block_self :
    (o : Option (List ℕ)) (i w : ℕ) {v : ℕ}
    → in_block o i ≡ some v
    → in_block (set_block o i w) i ≡ some w
in_block-set_block_self none i w e = cc
in_block-set_block_self (some ws) i w e = get_elem?-set_self ws i w (get_elem?-some-lt ws i e)

pub word_at-put_word_block :
    (h : Heap) (b i w b' i' : ℕ) → b ≢ b' → word_at (put_word h b i w) b' i' ≡ word_at h b' i'
unfolding word_at put_word
word_at-put_word_block h b i w b' i' ne = rw (ne→== b' b (λ e. ne (omega arith)))

pub word_at-put_word_ne :
    (h : Heap) (b i w i' : ℕ) → i ≢ i' → word_at (put_word h b i w) b i' ≡ word_at h b i'
unfolding word_at put_word
word_at-put_word_ne h b i w i' ne =
    rw (eq→== b b refl) (in_block-set_block_ne (h.blocks b) i w i' ne)

pub word_at-put_word_self :
    (h : Heap) (b i w : ℕ) {v : ℕ}
    → word_at h b i ≡ some v
    → word_at (put_word h b i w) b i ≡ some w
unfolding word_at put_word
word_at-put_word_self h b i w e = rw (eq→== b b refl) (in_block-set_block_self (h.blocks b) i w e)

-- `n` words from index `i` of block `b` on do not meet `n'` words from index `i'` of `b'` on.
abbrev pub Apart : ℕ → ℕ → ℕ → ℕ → ℕ → ℕ → Type 0
Apart b i n b' i' n' = (b ≢ b') ⊎ ((i + n ≤ i') ⊎ (i' + n' ≤ i))

pub word_at-put_word_apart :
    (h : Heap) (b i w b' i' : ℕ)
    → (b ≢ b') ⊎ (i ≢ i')
    → word_at (put_word h b i w) b' i' ≡ word_at h b' i'
word_at-put_word_apart h b i w b' i' (inl ne) = word_at-put_word_block h b i w b' i' ne
word_at-put_word_apart h b i w b' i' (inr ne) = elim (Bool-cases (b == b')) [
  | inl e ↦ rw (← ==→eq b b' e) (word_at-put_word_ne h b i w i' ne)
  | inr e ↦ word_at-put_word_block h b i w b' i' (ground arith)
]

pub words-put_word :
    (h : Heap) (b i w b' i' n : ℕ)
    → Apart b' i' n b i 1
    → words (put_word h b i w) b' i' n ≡ words h b' i' n
unfolding words
words-put_word h b i w b' i' zero a = refl
words-put_word h b i w b' i' (suc n) a = rw (
  word_at-put_word_apart h b i w b' i' (ground arith),
  words-put_word h b i w b' (i' + 1) n (ground arith),
)

-- A write elsewhere does not change what is read.
pub words-put_words :
    (h : Heap) (b i : ℕ) (ws : List ℕ) (b' i' n : ℕ)
    → Apart b' i' n b i (length ws)
    → words (put_words h b i ws) b' i' n ≡ words h b' i' n
unfolding put_words
words-put_words h b i [] b' i' n a = refl
words-put_words h b i (w ∷ ws) b' i' n a =
    words-put_words (put_word h b i w) b (i + 1) ws b' i' n (ground arith)
    ∙ words-put_word h b i w b' i' n (ground arith)
