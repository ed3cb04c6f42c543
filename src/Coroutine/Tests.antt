-- ===== src/Coroutine/Tests.antt =====
-- Environments of a few coroutines.
use demo.Common.{ℕ, zero, suc, ◌≡◌, refl, arith, false, [], ◌∷◌, Option, none, some, get_elem?}
use mathlib.Core.Path.{subst}
use demo.Common.Effect.{pure, ◌>>=◌}
use demo.Common.Alloc.{Heap, malloc, free}
use demo.Coroutine.{
  Turn, ended, Coroutine, CoEnv, World, Co, co_make, co_place, co_search, co_insert, co_new, slot,
  co_delete,
}
use demo.Coroutine.Run.{co_resume, co_join, enter, enter_status, current, co_end, leave}
use demo.Coroutine.Invariant.{IsValid, SlotOk, some-injective}
use demo.Coroutine.Insert.{fresh}
use demo.Coroutine.Open.{opened, opened_heap, get-empty}
use demo.Coroutine.Join.{quiet, Joined, co_join-Joined}

abbrev heap_of : ℕ → Heap
heap_of live = record { fails = λ k. false; calls = 0; live = live }

-- Room for three coroutines, and none there.
abbrev three_env : CoEnv
three_env = record {
  nco = 0;
  cap = 3;
  running_id = none;
  co = none ∷ none ∷ none ∷ [];
  stack_size = 4096;
}

abbrev three_world : World
three_world = record { heap = heap_of 3; env = three_env }

abbrev start : World
start = record { heap = opened_heap (heap_of 0); env = opened 3 0 }

-- A coroutine that is at its end when it is resumed.
abbrev stop : ℕ → Co Turn
stop id = pure ended

abbrev one_env : CoEnv
one_env = record three_env { nco = 1; co = some (fresh (0, 0)) ∷ none ∷ none ∷ [] }

one_slots : (i : ℕ) (s : Option Coroutine) → get_elem? one_env.co i ≡ some s → SlotOk none 4096 i s
one_slots zero s at =
    subst (SlotOk none 4096 0) (some-injective (some (fresh (0, 0))) s at)
      (refl, (λ e. ground arith))
one_slots (suc i) s at = subst (SlotOk none 4096 (suc i)) (get-empty 2 i s at) tt

one_env-IsValid : IsValid one_env
one_env-IsValid = record {
  size = refl;
  power = (2, refl);
  counted = refl;
  slots = one_slots;
  there = λ i e. ground arith;
}

co_join-Joined_example :
    Joined 0 one_env 3 (co_join stop 2 0 (record { heap = heap_of 5; env = quiet one_env }))
co_join-Joined_example =
    co_join-Joined stop 0 (heap_of 5) (heap_of 5) one_env (0, 0) 3 one_env-IsValid refl refl refl

-- With two of three coroutines left, the search for a place reads behind the array.
abbrev three_less_one : Co (Option ℕ)
three_less_one = do
  _ ← co_new (0, 0)
  _ ← co_new (0, 0)
  _ ← co_new (0, 0)
  _ ← co_resume stop 0
  _ ← co_resume stop 0
  co_new (0, 0)

search_faults : three_less_one three_world ≡ none
unfolding co_new co_resume co_make co_insert co_search slot co_place enter enter_status leave co_end
    current co_delete malloc free
search_faults = refl
