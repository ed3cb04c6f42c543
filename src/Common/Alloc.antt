-- ===== src/Common/Alloc.antt =====
-- What the C library's allocator does for cmake/rpc_c and cmake/coroutine: it decides of each call whether it is
-- granted, and counts the blocks that are not freed. Blocks are held by value.
use Prim.Native.Nat.{ℕ, suc, ◌-◌}
use mathlib.Core.Path.{◌≡◌, refl, ap, ◌∙◌}
use native.Mathlib.Omega.{arith}
use mathlib.Core.Bool.{Bool, true, false, not}
use mathlib.Core.Option.{some}
use demo.Common.Tests.{◌==◌, ne→==, if◌then◌else◌}
use demo.Common.Effect.{Effect, fault}

pub record Heap : Type 0 where
  -- Which of the calls fails, by its number: the allocator's choice.
  pub fails : ℕ → Bool
  pub calls : ℕ
  pub live : ℕ

abbrev pub M : Type 0 → Type 0
M A = Effect Heap A

-- `malloc`: whether it is granted.
unfoldable pub malloc : M Bool
malloc h =
    if h.fails h.calls
    then some (false, record h { calls = suc h.calls })
    else some (true, record h { calls = suc h.calls; live = suc h.live })

-- `realloc` of a block: whether it is granted. If it is not, the block stays.
unfoldable pub realloc : M Bool
realloc h = some (not (h.fails h.calls), record h { calls = suc h.calls })

unfoldable pub free : M (Unit {0})
free h = if h.live == 0 then fault h else some (tt, record h { live = h.live - 1 })

-- No allocation fails.
pub record IsPlenty (h : Heap) : Type 0 where
  pub plenty : (k : ℕ) → h.fails k ≡ false

pub IsPlenty-same : {h h' : Heap} → h'.fails ≡ h.fails → IsPlenty h → IsPlenty h'
IsPlenty-same e p = record { plenty = λ k. ap (λ (f : ℕ → Bool). f k) e ∙ p.plenty k }

pub malloc_grants :
    (h : Heap)
    → IsPlenty h
    → malloc h ≡ some (true, record h { calls = suc h.calls; live = suc h.live })
unfolding malloc
malloc_grants h p = rw (p.plenty h.calls) refl

pub free_one : (h : Heap) (n : ℕ) → h.live ≡ suc n → free h ≡ some (tt, record h { live = n })
unfolding free
free_one h n e = rw (ne→== h.live 0 (λ e'. absurd (omega arith))) (ground arith)
