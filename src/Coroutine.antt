-- ===== src/Coroutine.antt =====
-- cmake/coroutine/src/co.c, in the build with its own contexts (ctx.c): coroutines that share a stack.
-- What a coroutine does while it runs is a parameter, and so is the switch of the registers.
pub mod Run
pub mod Invariant
pub mod Holds
pub mod Switch
pub mod Insert
pub mod Steps
pub mod Open
pub mod Dense
pub mod Join
mod Tests
use demo.Common.{
  ℕ, zero, suc, ◌+◌, ◌-◌, ◌*◌, ◌^◌, Bool, true, false, not, ◌&&◌, ltb, leb, List, [], ◌∷◌, ◌++◌,
  length, Option, none, some, if◌then◌else◌, ◌==◌, get_elem?, set, replicate, bit_and,
}
use demo.Common.Effect.{Effect, pure, fault, assert, ◌>>=◌, ◌>>◌}
use demo.Common.Alloc.{Heap, M, malloc, realloc, free}
use demo.Word.Carry.{u64}

-- `state`
pub data Status : Type 0 where
  idle ready running suspend stoped : Status

-- What a coroutine comes to when it is resumed: the end of its function, or a `co_swap` with some bytes
-- on the stack.
pub data Turn : Type 0 where
  ended : Turn
  swapped : ℕ → Turn

abbrev pub default_stack_size : ℕ
default_stack_size = 1024 * 1024

abbrev pub default_coroutine : ℕ
default_coroutine = 15

-- A function and its argument, by their addresses.
abbrev pub Func : Type 0
Func = ℕ × ℕ

-- `func` and `arg` in one, whether there is a context, and the stack that was saved: its room, its
-- size, and whether there is memory for it.
pub record Coroutine : Type 0 where
  pub func : Func
  pub has_ctx : Bool
  pub status : Status
  pub cap : ℕ
  pub size : ℕ
  pub has_stack : Bool

-- `co_env`: a running id of -1 is `none`, an empty place of `co` too.
pub record CoEnv : Type 0 where
  pub nco : ℕ
  pub cap : ℕ
  pub running_id : Option ℕ
  pub co : List (Option Coroutine)
  pub stack_size : ℕ

-- The allocator and `env`.
pub record World : Type 0 where
  pub heap : Heap
  pub env : CoEnv

abbrev pub is_valid_cap : ℕ → Bool
is_valid_cap n = (bit_and (n + 1) n == 0) && ltb 0 n

-- The loop of `_align`: `n` is doubled until it is larger than `cap`.
unfoldable pub align_loop : ℕ → ℕ → ℕ → ℕ
align_loop zero cap n = n
align_loop (suc fuel) cap n =
    let rest = align_loop fuel cap (n * 2) in if leb n cap then rest else n

-- `_align`, less its assertion on the result; 16 rounds are enough for a `uint16_t`.
unfoldable pub align : ℕ → ℕ
align cap = align_loop 16 cap 1 - 1

-- `ALIGN(x, 8)` on a `size_t`
abbrev pub align_size : ℕ → ℕ
align_size x = bit_and (u64 (x + 7)) (2 ^ 64 - 8)

abbrev pub Co : Type 0 → Type 0
Co A = Effect World A

abbrev pub lift : {A : Type 0} → M A → Co A
lift m w = elim (m w.heap) [ none ↦ none | some (a, h) ↦ some (a, record w { heap = h }) ]

abbrev pub get_env : Co CoEnv
get_env w = some (w.env, w)

abbrev pub put : CoEnv → Co (Unit {0})
put e w = some (tt, record w { env = e })

-- The environment of `co_open`: the places of `co` are 0.
abbrev pub new_env : ℕ → ℕ → CoEnv
new_env cap size = record {
  nco = 0;
  cap = cap;
  running_id = none;
  co = replicate cap none;
  stack_size = size;
}

abbrev pub stack_size_of : ℕ → ℕ
stack_size_of size = if size == 0 then align_size default_stack_size else align_size size

-- `co_open`, less the assertions on constants. `none` is the result false, after which `*env` is NULL or,
-- where a later allocation failed, a pointer to the block that was freed.
unfoldable pub co_open : ℕ → ℕ → M (Option CoEnv)
co_open cap share_stack_size = do
  granted ← malloc
  if not granted then pure none else do
    let cap' = if cap == 0 then default_coroutine else align cap
    granted' ← malloc
    if not granted' then (free >>= λ _. pure none) else do
      granted'' ← malloc
      if not granted''
          then (do free; free; pure none)
          else pure (some (new_env cap' (stack_size_of share_stack_size)))

-- `_co_new`: NULL, or a coroutine whose context may be NULL.
unfoldable pub co_make : Func → M (Option Coroutine)
co_make func = do
  granted ← malloc
  if not granted then pure none else do
    has_ctx ← malloc
    pure (
        some (record {
          func = func;
          has_ctx = has_ctx;
          status = ready;
          cap = 0;
          size = 0;
          has_stack = false;
        }))

abbrev free_if : Bool → M (Unit {0})
free_if false = pure tt
free_if true = free

unfoldable pub co_delete : Coroutine → M (Unit {0})
co_delete c = do free_if c.has_ctx; free_if c.has_stack; free

-- `env->co[id] = co; ++env->nco; return id;`
unfoldable pub co_place : ℕ → Option Coroutine → Co (Option ℕ)
co_place id c = do
  e ← get_env
  put (record e { co = set e.co id c; nco = e.nco + 1 })
  pure (some id)

-- The array with room for more, the new places 0. The new capacity is an `int`.
unfoldable pub co_grow : Option Coroutine → Co (Option ℕ)
co_grow c = do
  e ← get_env
  let cap' = e.cap * 2 + 1
  assert (ltb cap' (2 ^ 31))
  assert (is_valid_cap cap')
  granted ← lift realloc
  if not granted then pure none else do
    put (record e { co = e.co ++ replicate (cap' - e.cap) none; cap = cap' })
    co_place e.cap c

-- `env->co[id]`
unfoldable pub slot : ℕ → Co (Option Coroutine)
slot id = do e ← get_env; elim (get_elem? e.co id) [ none ↦ fault | some s ↦ pure s ]

-- The search of `co_new` from round `i` on, with `n` rounds to go, and `assert(0)` behind it.
unfoldable pub co_search : ℕ → ℕ → Option Coroutine → Co (Option ℕ)
co_search zero i c = fault
co_search (suc n) i c = do
  e ← get_env
  let id = bit_and (i + e.nco) e.cap
  s ← slot id
  elim s [ none ↦ co_place id c | some other ↦ co_search n (i + 1) c ]

unfoldable pub co_insert : Option Coroutine → Co (Option ℕ)
co_insert c = do e ← get_env; if leb e.cap e.nco then co_grow c else co_search e.cap 0 c

unfoldable pub co_new : Func → Co (Option ℕ)
co_new func = do c ← lift (co_make func); co_insert c
