-- ===== src/Coroutine/Open.antt =====
-- `co_open`: the capacity that it chooses, and the environment that it makes.
use demo.Common.{
  ℕ, zero, suc, ◌+◌, ◌*◌, ◌^◌, ◌≤◌, ◌<◌, ◌≡◌, arith, sym, length-replicate, replicate, Option, none,
  some, ◌==◌, if◌then◌else◌, get_elem?,
}
use mathlib.Core.Path.{subst}
use demo.Common.Alloc.{Heap}
use demo.Coroutine.{Coroutine, CoEnv, align, default_coroutine, new_env, stack_size_of}
use demo.Coroutine.Invariant.{SlotOk, IsValid, some-injective}
use demo.Coroutine.Insert.{count-empty}
use demo.Coroutine.Steps.{Steps}

-- The smallest power of two that is larger, between `cap` and twice `cap`.
record IsAligned (cap n : ℕ) : Type 0 where
  pub power : (k : ℕ) × (n ≡ 2 ^ k)
  pub larger : cap < n
  pub least : n ≤ 2 * cap

pub get-empty :
    (n i : ℕ) (s : Option Coroutine) → get_elem? (replicate n none) i ≡ some s → none ≡ s
get-empty zero i s e = ground arith
get-empty (suc n) zero s e = some-injective none s e
get-empty (suc n) (suc i) s e = get-empty n i s e

pub new_env-IsValid : (cap size : ℕ) → (k : ℕ) × (cap + 1 ≡ 2 ^ k) → IsValid (new_env cap size)
new_env-IsValid cap size power = record {
  size = length-replicate cap none;
  power = power;
  counted = sym (count-empty cap);
  slots = λ i s at. subst (SlotOk none size i) (get-empty cap i s at) tt;
  there = λ i e. ground arith;
}

-- The heap after `co_open`.
abbrev pub opened_heap : Heap → Heap
opened_heap h = record h { calls = suc (suc (suc h.calls)); live = suc (suc (suc h.live)) }

abbrev pub opened : ℕ → ℕ → CoEnv
opened cap size = new_env (if cap == 0 then default_coroutine else align cap) (stack_size_of size)
