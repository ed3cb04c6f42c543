-- ===== src/Coroutine/Run.antt =====
-- co.c: the switch to a coroutine and back, and the loops that resume coroutines.
use demo.Common.{
  ℕ, zero, suc, ◌+◌, ◌-◌, Bool, true, false, not, ◌&&◌, ltb, leb, List, [], ◌∷◌, Option, none, some,
  if◌then◌else◌, set,
}
use demo.Common.Effect.{pure, fault, assert, ◌>>=◌, ◌>>◌}
use demo.Common.Alloc.{M, malloc, free}
use demo.Coroutine.{
  idle, ready, running, suspend, stoped, ended, swapped, Status, Turn, Coroutine, CoEnv, Co, lift,
  get_env, put, free_if, co_delete, slot,
}

-- `co->status` of the coroutine at `id`, and the running id.
abbrev pub with_slot : CoEnv → ℕ → Option Coroutine → CoEnv
with_slot e id c = record e { co = set e.co id c }

-- What `co_resume` does before the switch: whether there is one.
unfoldable pub enter_status : ℕ → Coroutine → Status → Co Bool
enter_status id c ready = do
  e ← get_env
  assert c.has_ctx
  put (record (with_slot e id (some (record c { status = running }))) { running_id = some id })
  pure true
enter_status id c suspend = do
  e ← get_env
  assert (c.has_ctx && c.has_stack && leb c.size e.stack_size && leb c.size c.cap)
  put (record (with_slot e id (some (record c { status = running }))) { running_id = some id })
  pure true
enter_status id c stoped = do e ← get_env; lift (co_delete c); put (with_slot e id none); pure false
enter_status id c idle = fault
enter_status id c running = fault

abbrev pub is_none : Option ℕ → Bool
is_none none = true
is_none (some id) = false

unfoldable pub enter : ℕ → Co Bool
enter id = do
  e ← get_env
  assert (is_none e.running_id)
  assert (ltb id e.cap)
  s ← slot id
  elim s [ none ↦ pure false | some c ↦ enter_status id c c.status ]

-- `_save_stack`, with `depth` bytes on the stack.
unfoldable pub save_stack : ℕ → Coroutine → M Coroutine
save_stack depth c =
    if ltb c.cap depth
    then (do
      free_if c.has_stack
      granted ← malloc
      pure (record c { cap = depth; has_stack = granted; size = depth }))
    else pure (record c { size = depth })

-- `env->co[env->running_id]`, which must be there.
unfoldable pub current : Co (ℕ × Coroutine)
current = do
  e ← get_env
  elim e.running_id [
    | none ↦ fault
    | some id ↦ do s ← slot id; elim s [ none ↦ fault | some c ↦ pure (id, c) ]
  ]

unfoldable pub co_swap : ℕ → Co (Unit {0})
co_swap depth = do
  (id, c) ← current
  e ← get_env
  assert (leb depth e.stack_size)
  c' ← lift (save_stack depth (record c { status = suspend }))
  put (record (with_slot e id (some c')) { running_id = none })

-- `_co_main` from the return of the coroutine's function on.
unfoldable pub co_end : Co (Unit {0})
co_end = do
  (id, c) ← current
  e ← get_env
  put (record (with_slot e id (some (record c { status = stoped }))) {
    running_id = none;
    nco = e.nco - 1;
  })

unfoldable pub leave : Turn → Co (Unit {0})
leave ended = co_end
leave (swapped depth) = co_swap depth

module _ (turn : ℕ → Co Turn) where
  unfoldable pub co_resume : ℕ → Co Bool
  co_resume id = do
    entered ← enter id
    if not entered then pure false else do t ← turn id; leave t; pure true

  -- `co_join` with a number of rounds: whether it returned.
  unfoldable pub co_join : ℕ → ℕ → Co Bool
  co_join zero id = pure false
  co_join (suc fuel) id = do again ← co_resume id; if again then co_join fuel id else pure true

  -- The inner loop of `co_wait`, from `i` on: `env->cap` is read again in each round.
  unfoldable pub co_pass : ℕ → ℕ → Bool → Co Bool
  co_pass zero i flag = pure flag
  co_pass (suc fuel) i flag = do
    e ← get_env
    if leb e.cap i
        then pure flag
        else do again ← co_resume i; co_pass fuel (i + 1) (if again then true else flag)

  -- `co_wait`, with a number of passes of at most `room` rounds.
  unfoldable pub co_wait : ℕ → ℕ → Co Bool
  co_wait zero room = pure false
  co_wait (suc fuel) room = do
    flag ← co_pass room 0 false
    if flag then co_wait fuel room else pure true

abbrev pub delete_all : List (Option Coroutine) → M (Unit {0})
delete_all [] = pure tt
delete_all (none ∷ cs) = delete_all cs
delete_all (some c ∷ cs) = do co_delete c; delete_all cs

unfoldable pub co_close : Option CoEnv → M (Unit {0})
co_close none = pure tt
co_close (some e) = do delete_all e.co; free; free; free

abbrev pub co_id : CoEnv → Option ℕ
co_id e = e.running_id
