-- ===== src/Coroutine/Join.antt =====
-- `co_join` of a coroutine that runs to its end.
use demo.Common.{
  ℕ, ◌+◌, ◌-◌, ◌<◌, ◌≡◌, refl, arith, ◌∙◌, Bool, true, false, length, Option, none, some, lt→ltb,
  get_elem?, set, length-set, set-set, get_elem?-set_self,
}
use demo.Common.Effect.{pure, ◌>>=◌}
use demo.Common.Alloc.{Heap, free_one}
use demo.Coroutine.{
  Func, running, stoped, Turn, ended, Coroutine, CoEnv, World, Co, slot, co_delete,
}
use demo.Coroutine.Run.{co_resume, co_join, with_slot, enter_status, enter, current, co_end, leave}
use demo.Coroutine.Invariant.{IsValid, get-lt}
use demo.Coroutine.Insert.{fresh}

slot_lem :
    (id : ℕ) (w : World) (s : Option Coroutine)
    → get_elem? w.env.co id ≡ some s
    → slot id w ≡ some (s, w)
unfolding slot
slot_lem id w s at = rw (◌>>=◌, at) refl

-- The environment with nothing running, and with the coroutine at `id` running.
abbrev pub quiet : CoEnv → CoEnv
quiet e = record e { running_id = none }

abbrev busy : CoEnv → ℕ → CoEnv
busy e id = record e { running_id = some id }

module _ (turn : ℕ → Co Turn) (id : ℕ) where
  enter_lem :
      (h : Heap) (e : CoEnv) (s : Option Coroutine)
      → id < e.cap
      → get_elem? e.co id ≡ some s
      → enter id (record { heap = h; env = quiet e })
        ≡ (elim s as (λ x. Co Bool) [ none ↦ pure false | some c ↦ enter_status id c c.status ])
            (record { heap = h; env = quiet e })
  unfolding enter
  enter_lem h e s lt at =
      rw (◌>>=◌, lt→ltb id e.cap lt, slot_lem id (record { heap = h; env = quiet e }) s at) refl

  -- The environment after the coroutine `c` came to its end.
  abbrev ended_env : CoEnv → Coroutine → CoEnv
  ended_env e c =
      quiet (record (with_slot e id (some (record c { status = stoped }))) { nco = e.nco - 1 })

  co_end_lem :
      (h : Heap) (e : CoEnv) (c : Coroutine)
      → get_elem? e.co id ≡ some (some c)
      → co_end (record { heap = h; env = busy e id })
        ≡ some (tt, record { heap = h; env = ended_env e c })
  unfolding co_end current
  co_end_lem h e c at =
      rw (◌>>=◌, slot_lem id (record { heap = h; env = busy e id }) (some c) at) refl

  -- The environment while the coroutine made by `fresh func` runs.
  abbrev running_env : CoEnv → Func → CoEnv
  running_env e func = with_slot e id (some (record (fresh func) { status = running }))

  first_resume :
      (h h' : Heap) (e : CoEnv) (func : Func)
      → id < e.cap
      → id < length e.co
      → get_elem? e.co id ≡ some (some (fresh func))
      → turn id (record { heap = h; env = busy (running_env e func) id })
        ≡ some (ended, record { heap = h'; env = busy (running_env e func) id })
      → co_resume turn id (record { heap = h; env = quiet e })
        ≡ some (
          true,
          record {
            heap = h';
            env = ended_env (running_env e func) (record (fresh func) { status = running });
          },
        )
  unfolding co_resume enter_status leave
  first_resume h h' e func lt inside at ends =
      rw
        (
          ◌>>=◌,
          enter_lem h e (some (fresh func)) lt at,
          ends,
          co_end_lem h' (running_env e func) (record (fresh func) { status = running })
              (get_elem?-set_self e.co id _ inside),
        )
        refl

  second_resume :
      (h : Heap) (e : CoEnv) (func : Func) (n : ℕ)
      → id < e.cap
      → h.live ≡ n + 2
      → get_elem? e.co id ≡ some (some (record (fresh func) { status = stoped }))
      → co_resume turn id (record { heap = h; env = quiet e })
        ≡ some (false, record { heap = record h { live = n }; env = with_slot (quiet e) id none })
  unfolding co_resume enter_status co_delete
  second_resume h e func n lt two at =
      rw
        (
          ◌>>=◌,
          enter_lem h e (some (record (fresh func) { status = stoped })) lt at,
          free_one h (n + 1) (omega (arith, two)),
          free_one (record h { live = n + 1 }) n (omega arith),
        )
        refl

-- A coroutine was joined: its place is empty, the others stay, and its memory is given back.
pub record Joined (id : ℕ) (e : CoEnv) (live : ℕ) (result : Option (Bool × World)) : Type 0 where
  pub after : World
  pub returns : result ≡ some (true, after)
  pub gone : after.env.co ≡ set e.co id none
  pub fewer : after.env.nco ≡ e.nco - 1
  pub idle_after : after.env.running_id ≡ none
  pub freed : after.heap.live ≡ live

-- The environment while the new coroutine `func` at `id` runs.
abbrev pub started : CoEnv → ℕ → Func → CoEnv
started e id func = busy (with_slot e id (some (record (fresh func) { status = running }))) id

-- `co_join` of a new coroutine whose function runs to its end and leaves the environment as it is, with
-- nothing else running, comes back after two rounds: the place is empty, the others stay, the count is
-- one less, and the coroutine's two blocks are freed.
pub co_join-Joined :
    (turn : ℕ → Co Turn) (id : ℕ) (h h' : Heap) (e : CoEnv) (func : Func) (live : ℕ)
    → IsValid e
    → get_elem? e.co id ≡ some (some (fresh func))
    → turn id (record { heap = h; env = started e id func })
      ≡ some (ended, record { heap = h'; env = started e id func })
    → h'.live ≡ live + 2
    → Joined id e live (co_join turn 2 id (record { heap = h; env = quiet e }))
unfolding co_join
co_join-Joined turn id h h' e func live v at ends two =
    let inside = get-lt e.co id (some (fresh func)) at in
    let lt : id < e.cap = omega (arith, inside, v.size) in
    let e1 = running_env turn id e func in
    let e2 = ended_env turn id e1 (record (fresh func) { status = running }) in
    let size1 = length-set e.co id (some (record (fresh func) { status = running })) in
    let inside1 : id < length e1.co = omega (arith, inside, size1) in
    record {
      after = record { heap = record h' { live = live }; env = with_slot (quiet e2) id none };
      returns =
          rw
            (
              ◌>>=◌,
              first_resume turn id h h' e func lt inside at ends,
              second_resume turn id h' e2 func live lt two (get_elem?-set_self e1.co id _ inside1),
            )
            refl;
      gone = set-set e1.co id _ none ∙ set-set e.co id _ none;
      fewer = refl;
      idle_after = refl;
      freed = refl;
    }
