-- ===== src/Coroutine/Steps.antt =====
-- The coroutines' operations as steps, in any order in which they do not fault.
use demo.Common.{ℕ, ◌≡◌, Bool, Option, some}
use mathlib.Core.Path.{subst}
use demo.Common.Effect.{Holds}
use demo.Coroutine.{Func, World, Turn, co_new}
use demo.Coroutine.Run.{enter, leave}
use demo.Coroutine.Switch.{IsGood, enter-Holds, leave-Holds}
use demo.Coroutine.Insert.{Added, co_new-Added}

-- A coroutine is made, `co_resume` goes to one or deletes it, and the running one ends or is put off.
pub data Step : World → World → Type 0 where
  made : {w w' : World} (func : Func) (r : Option ℕ) → co_new func w ≡ some (r, w') → Step w w'
  entered : {w w' : World} (id : ℕ) (b : Bool) → enter id w ≡ some (b, w') → Step w w'
  left : {w w' : World} (t : Turn) (u : Unit {0}) → leave t w ≡ some (u, w') → Step w w'

infixr 5 ◌◂◌
pub data Steps : World → World → Type 0 where
  here : (w : World) → Steps w w
  ◌◂◌ : {w w' w'' : World} → Step w w' → Steps w' w'' → Steps w w''

-- What holds of a result holds of the state that comes of it.
pub result-Holds :
    {A : Type 0} (P : A → World → Type 0) (r : Option (A × World)) (a : A) (w : World)
    → Holds P r
    → r ≡ some (a, w)
    → P a w
result-Holds P r a w p e = subst (Holds P) e p

Step-IsGood : {w w' : World} → Step w w' → IsGood w → IsGood w'
Step-IsGood {w} {w'} (made func r e) g =
    (result-Holds (Added func w) _ r w' (co_new-Added func w g) e).0
Step-IsGood {w} {w'} (entered id b e) g =
    result-Holds (λ b v. IsGood v) _ b w' (enter-Holds id w g) e
Step-IsGood {w} {w'} (left t u e) g = result-Holds (λ u v. IsGood v) _ u w' (leave-Holds t w g) e

-- The invariant holds after any number of steps.
pub Steps-IsGood : {w w' : World} → Steps w w' → IsGood w → IsGood w'
Steps-IsGood (here w) g = g
Steps-IsGood (s ◂ ss) g = Steps-IsGood ss (Step-IsGood s g)
