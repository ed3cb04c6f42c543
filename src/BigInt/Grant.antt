-- ===== src/BigInt/Grant.antt =====
-- `malloc(sizeof(BigInt))` where memory is granted.
use demo.Common.{ℕ, zero, suc, ◌+◌, ◌≡◌, refl, arith, true, some}
use demo.Memory.{Heap, words, word_at}
use demo.Nat.Laws.{IsReady, Keeps}
use demo.BigInt.{malloc_big_int}

-- The heap after `malloc(sizeof(BigInt))`.
abbrev pub granted : Heap → Heap
granted h = record h { next = h.next + 1 }

words-granted : (h : Heap) (b i k : ℕ) → words (granted h) b i k ≡ words h b i k
unfolding words word_at
words-granted h b i zero = refl
words-granted h b i (suc k) = rw (words-granted h b (i + 1) k)

pub granted-Keeps : (h : Heap) → Keeps h (granted h)
granted-Keeps h = record { grows = omega arith; same = λ b i k p. words-granted h b i k }

pub granted-IsReady : (h : Heap) → IsReady h → IsReady (granted h)
granted-IsReady h r = record { nonnull = omega arith; plenty = r.plenty }

pub malloc-granted : (h : Heap) → IsReady h → malloc_big_int h ≡ some (true, granted h)
unfolding malloc_big_int
malloc-granted h r = rw (r.plenty h.next)
