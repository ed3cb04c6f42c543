-- ===== src/Memory.antt =====
-- The C heap as cmake/bigint uses it: blocks of words that `calloc` hands out and `free` takes
-- back. A pointer is a block's number and an index into it; block 0 is NULL. `none` is a fault:
-- undefined behaviour (an access outside a block, through NULL or to a freed block, a block freed
-- twice) or an assertion that fails.
pub mod Laws
pub use demo.Common.Effect.{fault, pure, assert, ◌>>=◌, ◌>>◌}
use demo.Common.Effect.{Effect}
use demo.Common.{
  ℕ, zero, suc, ◌+◌, ◌≡◌, Bool, true, false, Option, none, some, List, [], ◌∷◌, set, get_elem?,
  replicate, ◌==◌, if◌then◌else◌, length, ltb,
}
use mathlib.Core.Option

pub record Heap : Type 0 where
  -- The words of each block that is allocated.
  pub blocks : ℕ → Option (List ℕ)
  -- The number of the block that comes next, at least 1.
  pub next : ℕ
  -- Whether the allocation of that block fails: the allocator's choice.
  pub fails : ℕ → Bool

abbrev pub M : Type 0 → Type 0
M A = Effect Heap A

abbrev pub in_block : Option (List ℕ) → ℕ → Option ℕ
in_block none i = none
in_block (some ws) i = get_elem? ws i

abbrev pub set_block : Option (List ℕ) → ℕ → ℕ → Option (List ℕ)
set_block none i w = none
set_block (some ws) i w = some (set ws i w)

abbrev pub update : (ℕ → Option (List ℕ)) → ℕ → Option (List ℕ) → ℕ → Option (List ℕ)
update f b v k = if k == b then v else f k

-- The word at index `i` of block `b`.
unfoldable pub word_at : Heap → ℕ → ℕ → Option ℕ
word_at h b i = in_block (h.blocks b) i

unfoldable pub put_word : Heap → ℕ → ℕ → ℕ → Heap
put_word h b i w = record h { blocks = update h.blocks b (set_block (h.blocks b) i w) }

unfoldable pub load : ℕ → ℕ → M ℕ
load b i h = elim (word_at h b i) [ none ↦ none | some w ↦ some (w, h) ]

unfoldable pub store : ℕ → ℕ → ℕ → M (Unit {0})
store b i w h = elim (word_at h b i) [ none ↦ none | some _ ↦ some (tt, put_word h b i w) ]

-- `calloc(n, sizeof(Word))` for 0 < n.
unfoldable pub calloc : ℕ → M ℕ
calloc n h =
    if h.fails h.next
    then some (0, record h { next = suc h.next })
    else some (
      h.next,
      record h { blocks = update h.blocks h.next (some (replicate n 0)); next = suc h.next },
    )

-- `free` of a pointer: to the start of a block, or NULL.
unfoldable pub free : ℕ → ℕ → M (Unit {0})
free zero i h = some (tt, h)
free (suc b) (suc i) h = none
free (suc b) zero h = elim (h.blocks (suc b)) [
  | none ↦ none
  | some _ ↦ some (tt, record h { blocks = update h.blocks (suc b) none })
]

abbrev cons? : Option ℕ → Option (List ℕ) → Option (List ℕ)
cons? (some w) (some ws) = some (w ∷ ws)
cons? _ _ = none

-- The `n` words from index `i` of block `b` on, if they all lie in it.
unfoldable pub words : Heap → ℕ → ℕ → ℕ → Option (List ℕ)
words h b i zero = some []
words h b i (suc n) = cons? (word_at h b i) (words h b (i + 1) n)

unfoldable pub put_words : Heap → ℕ → ℕ → List ℕ → Heap
put_words h b i [] = h
put_words h b i (w ∷ ws) = put_words (put_word h b i w) b (i + 1) ws

-- `memcpy` of `n` words from `b'`, `i'` to `b`, `i`, two ranges that do not overlap.
unfoldable pub memcpy : ℕ → ℕ → ℕ → ℕ → ℕ → M (Unit {0})
memcpy b i b' i' n h = elim (words h b' i' n) [
  | none ↦ none
  | some ws ↦ elim (words h b i n) [ none ↦ none | some _ ↦ some (tt, put_words h b i ws) ]
]
