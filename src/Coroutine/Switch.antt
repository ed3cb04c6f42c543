-- ===== src/Coroutine/Switch.antt =====
-- The operations that switch to a coroutine and back keep the environment's invariant.
use demo.Common.{
  ℕ, ◌+◌, ◌-◌, ◌≤◌, ◌≡◌, refl, arith, ap, sym, ◌∙◌, Bool, true, false, ◌&&◌, Option, none, some,
  ltb, leb, leb→le, ltb→le, eq→==, ne→==, get_elem?, set, get_elem?-set_self, Bool-cases, inl, inr,
}
use mathlib.Core.Path.{subst}
use demo.Common.Effect.{pure, fault, Holds, >>=-Holds, assert-Holds, ◌>>=◌}
use demo.Common.Alloc.{Heap, IsPlenty, IsPlenty-same, malloc}
use demo.Coroutine.{
  Status, idle, ready, running, suspend, stoped, Coroutine, World, Co, slot, free_if, co_delete,
  Turn, ended, swapped,
}
use demo.Coroutine.Run.{
  with_slot, enter_status, enter, is_none, save_stack, current, co_swap, co_end, leave,
}
use demo.Coroutine.Holds.{lift-Holds, slot-Holds, malloc-Keeps, free_if-Keeps, co_delete-Keeps}
use demo.Coroutine.Invariant.{
  is_running, is_alive, alive, is_at, IsThere, IsValid, changed-IsValid, count-set, get-lt,
  some-injective,
}

-- The invariant, where no allocation fails.
pub record IsGood (w : World) : Type 0 where
  pub valid : IsValid w.env
  pub plenty : IsPlenty w.heap

module _ (id : ℕ) (c : Coroutine) (w : World) (g : IsGood w)
    (at : get_elem? w.env.co id ≡ some (some c)) where
  -- The coroutine of a place is marked as running.
  run-IsGood :
      w.env.running_id ≡ none
      → alive (some c) ≡ 1
      → IsGood (record w {
        env = record (with_slot w.env id (some (record c { status = running }))) {
          running_id = some id;
        };
      })
  run-IsGood idle_env one = record {
    valid =
        changed-IsValid w.env g.valid id (some c) (some (record c { status = running })) at
          (some id) w.env.nco (omega (arith, one)) (sym (eq→== id id refl), (λ e. ground arith))
          (λ i ne. ne→== id i (λ e. ne (sym e)) ∙ ap (λ r. is_at r i) (sym idle_env))
          (λ i e.
            subst (IsThere (set w.env.co id (some (record c { status = running }))))
              (some-injective id i e)
              (
                record c { status = running },
                get_elem?-set_self w.env.co id _ (get-lt w.env.co id (some c) at),
              ));
    plenty = g.plenty;
  }

  -- A place that is emptied, where its coroutine has come to its end.
  delete-IsGood :
      (h : Heap)
      → w.env.running_id ≡ none
      → alive (some c) ≡ 0
      → h.fails ≡ w.heap.fails
      → IsGood (record { heap = h; env = with_slot w.env id none })
  delete-IsGood h idle_env over same = record {
    valid =
        changed-IsValid w.env g.valid id (some c) none at w.env.running_id w.env.nco
          (omega (arith, over)) tt (λ i ne. refl) (λ i e. ground arith);
    plenty = IsPlenty-same same g.plenty;
  }

  enter_status-Holds :
      (st : Status)
      → c.status ≡ st
      → w.env.running_id ≡ none
      → Holds (λ b w'. IsGood w') (enter_status id c st w)
  unfolding enter_status
  enter_status-Holds ready e idle_env =
      assert-Holds c.has_ctx _ _ w (λ ctx. run-IsGood idle_env (ap is_alive e))
  enter_status-Holds suspend e idle_env =
      assert-Holds (c.has_ctx && c.has_stack && leb c.size w.env.stack_size && leb c.size c.cap) _ _
        w (λ all. run-IsGood idle_env (ap is_alive e))
  enter_status-Holds stoped e idle_env =
      lift-Holds (co_delete c) _ (λ a h. h.fails ≡ w.heap.fails) _ w (co_delete-Keeps c w.heap)
        (λ a h same. delete-IsGood h idle_env (ap is_alive e) same)
  enter_status-Holds idle e idle_env = tt
  enter_status-Holds running e idle_env = tt

is_none-none : (r : Option ℕ) → is_none r ≡ true → r ≡ none
is_none-none none e = refl
is_none-none (some id) e = ground arith

enter_slot :
    (id : ℕ) (s : Option Coroutine) (w : World)
    → IsGood w
    → get_elem? w.env.co id ≡ some s
    → w.env.running_id ≡ none
    → Holds
        (λ b w'. IsGood w')
        ((elim s as (λ x. Co Bool) [ none ↦ pure false | some c ↦ enter_status id c c.status ]) w)
enter_slot id none w g at idle_env = g
enter_slot id (some c) w g at idle_env = enter_status-Holds id c w g at c.status refl idle_env

pub enter-Holds : (id : ℕ) (w : World) → IsGood w → Holds (λ b w'. IsGood w') (enter id w)
unfolding enter
enter-Holds id w g = assert-Holds (is_none w.env.running_id) _ _ w (λ idle_env.
    assert-Holds (ltb id w.env.cap) _ _ w (λ within.
      slot-Holds id _ _ w
        (λ s at. enter_slot id s w g at (is_none-none w.env.running_id idle_env))))

-- What `current` finds, in the state it was called in.
abbrev IsCurrent : World → ℕ × Coroutine → World → Type 0
IsCurrent w x w' =
    (w' ≡ w) × (w.env.running_id ≡ some (x.0)) × (get_elem? w.env.co (x.0) ≡ some (some (x.1)))

found_slot :
    (w : World) (id : ℕ) (s : Option Coroutine)
    → w.env.running_id ≡ some id
    → get_elem? w.env.co id ≡ some s
    → Holds
        (IsCurrent w)
        ((elim s as (λ x. Co (ℕ × Coroutine)) [ none ↦ fault | some c ↦ pure (id, c) ]) w)
found_slot w id none here at = tt
found_slot w id (some c) here at = (refl, here, at)

current-IsCurrent : (w : World) → Holds (IsCurrent w) (current w)
unfolding current
current-IsCurrent w = on w.env.running_id refl
  where
    on :
        (r : Option ℕ)
        → w.env.running_id ≡ r
        → Holds (IsCurrent w) (
            (elim r as (λ x. Co (ℕ × Coroutine)) [
              | none ↦ fault
              | some id ↦ slot id >>= λ s. elim s as (λ x. Co (ℕ × Coroutine)) [
                | none ↦ fault
                | some c ↦ pure (id, c)
              ]
            ])
              w)
    on none e = tt
    on (some id) e = slot-Holds id _ (IsCurrent w) w (λ s at. found_slot w id s e at)

-- The running coroutine, and what is done after it is looked up.
pub current-Holds :
    {B : Type 0} (f : ℕ × Coroutine → Co B) (Q : B → World → Type 0) (w : World)
    → ((id : ℕ) (c : Coroutine)
        → w.env.running_id ≡ some id
        → get_elem? w.env.co id ≡ some (some c)
        → Holds Q (f (id, c) w))
    → Holds Q ((current >>= f) w)
current-Holds f Q w rest =
    >>=-Holds current f (IsCurrent w) Q w (current-IsCurrent w)
      (λ x w' found. subst (λ v. Holds Q (f x v)) (sym found.0) (rest x.0 x.1 found.1 found.2))

running-alive : (st : Status) → is_running st ≡ true → is_alive st ≡ 1
running-alive st e = ground arith

module _ (id : ℕ) (c : Coroutine) (w : World) (g : IsGood w)
    (at : get_elem? w.env.co id ≡ some (some c)) (here : w.env.running_id ≡ some id) where
  one : is_alive c.status ≡ 1
  one =
      running-alive c.status
        ((g.valid.slots id (some c) at).0 ∙ ap (λ r. is_at r id) here ∙ eq→== id id refl)

  pub some_left : 1 ≤ w.env.nco
  some_left = omega (arith, g.valid.counted, count-set w.env.co id (some c) none at, one)

  -- The running coroutine stops to run.
  stop-IsGood :
      (c' : Coroutine) (n : ℕ) (h : Heap)
      → is_running c'.status ≡ false
      → n + 1 ≡ w.env.nco + is_alive c'.status
      → (c'.status ≡ suspend → (c'.size ≤ c'.cap) × (c'.size ≤ w.env.stack_size))
      → h.fails ≡ w.heap.fails
      → IsGood (record {
        heap = h;
        env = record (with_slot w.env id (some c')) { running_id = none; nco = n };
      })
  stop-IsGood c' n h stopped sum saved same = record {
    valid =
        changed-IsValid w.env g.valid id (some c) (some c') at none n (omega (arith, sum, one))
          (stopped, saved) (λ i ne. sym (ap (λ r. is_at r i) here ∙ ne→== id i (λ e. ne (sym e))))
          (λ i e. ground arith);
    plenty = IsPlenty-same same g.plenty;
  }

saved-fits :
    (depth : ℕ) (c : Coroutine) (h : Heap)
    → Holds
        (λ c' h'.
          (h'.fails ≡ h.fails) × (c'.status ≡ c.status) × (c'.size ≡ depth) × (depth ≤ c'.cap))
        (save_stack depth c h)
unfolding save_stack
saved-fits depth c h = elim (Bool-cases (ltb c.cap depth)) [
  | inl e ↦ rw e (
      >>=-Holds (free_if c.has_stack) _ (λ a h1. h1.fails ≡ h.fails) _ h
        (free_if-Keeps c.has_stack h)
        (λ a h1 same.
          >>=-Holds malloc _ (λ granted h2. h2.fails ≡ h1.fails) _ h1 (malloc-Keeps h1)
            (λ granted h2 same'. (same' ∙ same, refl, refl, omega arith))))
  | inr e ↦ rw e (refl, refl, refl, ltb→le c.cap depth e)
]

pub leave-Holds : (t : Turn) (w : World) → IsGood w → Holds (λ u w'. IsGood w') (leave t w)
unfolding leave co_end co_swap
leave-Holds ended w g = current-Holds _ _ w (λ id c here at.
    stop-IsGood id c w g at here (record c { status = stoped }) (w.env.nco - 1) w.heap refl
      (omega (arith, some_left id c w g at here)) (λ e. ground arith) refl)
leave-Holds (swapped depth) w g = current-Holds _ _ w (λ id c here at.
    assert-Holds (leb depth w.env.stack_size) _ _ w (λ fits.
      lift-Holds (save_stack depth (record c { status = suspend })) _ _ _ w
        (saved-fits depth (record c { status = suspend }) w.heap)
        (λ c' h saved.
          stop-IsGood id c w g at here c' w.env.nco h (ap is_running saved.1)
            (ap (λ n. w.env.nco + n) (sym (ap is_alive saved.1)))
            (λ e. (
              omega (arith, saved.2, saved.3),
              omega (arith, saved.2, leb→le depth w.env.stack_size fits),
            ))
            saved.0)))
