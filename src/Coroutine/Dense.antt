-- ===== src/Coroutine/Dense.antt =====
-- Coroutines that are made one after the other, with none deleted, have the numbers 0, 1, 2 and so on.
use demo.Common.{ℕ, ◌+◌, ◌≤◌, ◌<◌, ◌≡◌, Option, none, some, get_elem?, set}
use demo.Coroutine.{Func, Coroutine, CoEnv, World}
use demo.Coroutine.Switch.{IsGood}
use demo.Coroutine.Insert.{fresh}

-- The places below `nco` have coroutines, the others are empty.
pub record IsDense (e : CoEnv) : Type 0 where
  pub below : (i : ℕ) → i < e.nco → (c : Coroutine) × (get_elem? e.co i ≡ some (some c))
  pub above : (i : ℕ) → e.nco ≤ i → i < e.cap → get_elem? e.co i ≡ some none

-- The places after one more coroutine is put at the first empty one.
abbrev pub placed : CoEnv → Func → CoEnv
placed e func = record e { co = set e.co e.nco (some (fresh func)); nco = e.nco + 1 }

-- One more coroutine, and what `co_new` returns for it.
pub record IsNext (func : Func) (w : World) (result : Option (Option ℕ × World)) : Type 0 where
  pub after : World
  pub returns : result ≡ some (some w.env.nco, after)
  pub dense : IsDense after.env
  pub more : after.env.nco ≡ w.env.nco + 1
  pub good : IsGood after
