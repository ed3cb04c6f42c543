-- ===== src/TryCatch/Laws.antt =====
-- The macros give what exceptions are meant to give.
use demo.Common.{
  ℕ, zero, suc, ◌+◌, ◌-◌, ◌≤◌, ◌<◌, ◌≡◌, refl, arith, ap, ◌∙◌, List, [], ◌∷◌, ◌++◌, length,
  length-set, Option, none, some, lt→ltb, if◌then◌else◌, ◌==◌, eq→==, get_elem?, set,
  get_elem?-set_self, max, Bool-cases, inl, inr,
}
use demo.Word.Carry.{u32}
use demo.Common.Effect.{Effect, ◌>>=◌}
use demo.TryCatch.{
  Program, skip, effect, follow, throw, try_catch, try_except, Jumps, Exit, done, jump, max_depth,
  throw_to, enter_try, leave_try, thrown, after_part, after_body, run,
}

-- What a statement comes to with exceptions: its end, or an exception that nothing catches.
pub data Outcome : Type 0 where
  normal : Outcome
  raised : ℕ → Outcome

abbrev pub then_eval : Outcome × List ℕ → (List ℕ → Outcome × List ℕ) → Outcome × List ℕ
then_eval (normal, t) next = next t
then_eval (raised x, t) next = (raised x, t)

abbrev pub catch_eval : Outcome × List ℕ → (ℕ → List ℕ → Outcome × List ℕ) → Outcome × List ℕ
catch_eval (normal, t) handler = (normal, t)
catch_eval (raised x, t) handler = handler x t

-- Exceptions, without a stack: the outcome and the effects.
unfoldable pub eval : Program → List ℕ → Outcome × List ℕ
eval skip t = (normal, t)
eval (effect n) t = (normal, t ++ (n ∷ []))
eval (follow p q) t = then_eval (eval p t) (eval q)
eval (throw x) t = (raised (u32 x), t)
eval (try_catch p x q r) t =
    catch_eval (eval p t)
      (λ y t'. let a = eval q t' in let b = eval r t' in if y == u32 x then a else b)
eval (try_except p q) t = catch_eval (eval p t) (λ y t'. eval q t')

-- How many TRYs are open at once.
abbrev pub height : Program → ℕ
height skip = 0
height (effect n) = 0
height (follow p q) = max (height p) (height q)
height (throw x) = 0
height (try_catch p x q r) = max (suc (height p)) (max (height q) (height r))
height (try_except p q) = max (suc (height p)) (height q)

abbrev pub jumps : ℕ → List ℕ → List ℕ → Jumps
jumps d rs t = record { depth = d; results = rs; trace = t }

-- The jumps agree with an outcome: at the end the depth is what it was; an exception goes to the
-- innermost open TRY and is stored there; where no TRY is open, an exception is a fault.
abbrev pub Agrees : ℕ → Outcome × List ℕ → Option (Exit × Jumps) → Type 0
Agrees d (normal, t) result =
    (rs : List ℕ) × (result ≡ some (done, jumps d rs t)) × (length rs ≡ max_depth)
Agrees zero (raised x, t) result = result ≡ none
Agrees (suc d) (raised x, t) result =
    (rs : List ℕ) × (result ≡ some (jump d, jumps d rs t))
    × (length rs ≡ max_depth)
    × (get_elem? rs d ≡ some x)

throw-Agrees :
    (x d : ℕ) (rs t : List ℕ)
    → d ≤ max_depth
    → length rs ≡ max_depth
    → Agrees d (raised (u32 x), t) (throw_to x (jumps d rs t))
unfolding throw_to
throw-Agrees x zero rs t le size = refl
throw-Agrees x (suc d) rs t le size = (
  set rs d (u32 x),
  refl,
  length-set rs d (u32 x) ∙ size,
  get_elem?-set_self rs d (u32 x) (omega (arith, size)),
)

part-Agrees :
    (m next : Effect Jumps Exit) (next_eval : List ℕ → Outcome × List ℕ) (s : Jumps) (d : ℕ)
    (o : Outcome × List ℕ)
    → Agrees d o (m s)
    → ((rs t : List ℕ) → length rs ≡ max_depth → Agrees d (next_eval t) (next (jumps d rs t)))
    → Agrees d (then_eval o next_eval) ((m >>= λ e. after_part e next) s)
part-Agrees m next next_eval s d (normal, t) a rest = rw (◌>>=◌, a.1) (rest a.0 t a.2)
part-Agrees m next next_eval s zero (raised x, t) a rest = rw (◌>>=◌, a) refl
part-Agrees m next next_eval s (suc d) (raised x, t) a rest = (a.0, rw (◌>>=◌, a.1) refl, a.2, a.3)

body-Agrees :
    (m handler : Effect Jumps Exit) (handler_eval : ℕ → List ℕ → Outcome × List ℕ) (s : Jumps)
    (d : ℕ) (o : Outcome × List ℕ)
    → Agrees (suc d) o (m s)
    → ((rs t : List ℕ) (x : ℕ)
        → length rs ≡ max_depth
        → get_elem? rs d ≡ some x
        → Agrees d (handler_eval x t) (handler (jumps d rs t)))
    → Agrees d (catch_eval o handler_eval) ((m >>= λ e. after_body e d handler) s)
unfolding leave_try
body-Agrees m handler handler_eval s d (normal, t) a rest =
    (a.0, rw (◌>>=◌, a.1) (ap (λ n. some (done, jumps n a.0 t)) back), a.2)
  where
    back : suc d - 1 ≡ d
    back = omega arith
body-Agrees m handler handler_eval s d (raised x, t) a rest =
    rw (◌>>=◌, a.1, eq→== d d refl) (rest a.0 t x a.2 a.3)

try-Agrees :
    (m handler : Effect Jumps Exit) (handler_eval : ℕ → List ℕ → Outcome × List ℕ) (d : ℕ)
    (rs t : List ℕ) (o : Outcome × List ℕ)
    → d < max_depth
    → Agrees (suc d) o (m (jumps (suc d) rs t))
    → ((rs t : List ℕ) (x : ℕ)
        → length rs ≡ max_depth
        → get_elem? rs d ≡ some x
        → Agrees d (handler_eval x t) (handler (jumps d rs t)))
    → Agrees d
        (catch_eval o handler_eval)
        ((enter_try >>= λ e. (m >>= λ x. after_body x e handler)) (jumps d rs t))
unfolding enter_try
try-Agrees m handler handler_eval d rs t o lt a rest =
    rw (◌>>=◌, lt→ltb d max_depth lt)
      (body-Agrees m handler handler_eval (jumps (suc d) rs t) d o a rest)

-- CATCH looks at the exception that was stored.
catch-Agrees :
    (d x y : ℕ) (rs t : List ℕ) (q r : Effect Jumps Exit) (a b : Outcome × List ℕ)
    → get_elem? rs d ≡ some y
    → Agrees d a (q (jumps d rs t))
    → Agrees d b (r (jumps d rs t))
    → Agrees d (if y == x then a else b) ((thrown >>= λ z. if z == x then q else r) (jumps d rs t))
unfolding thrown
catch-Agrees d x y rs t q r a b at qa rb = elim (Bool-cases (y == x)) [
  | inl e ↦ rw (◌>>=◌, at, e) qa
  | inr e ↦ rw (◌>>=◌, at, e) rb
]

-- TRY with one CATCH and an `else` or with EXCEPT, and THROW (and a signal), do what exceptions do: an
-- exception goes to the innermost TRY that is open, whose CATCH takes it where the `int` matches and whose
-- `else` (which may be empty, and ends it all the same) takes it where not, and the depth is what it was
-- before that TRY; where none is open, it is a fault. For at most 256 TRYs that are open at once.
pub run-Agrees :
    (p : Program) (d : ℕ) (rs t : List ℕ)
    → d + height p ≤ max_depth
    → length rs ≡ max_depth
    → Agrees d (eval p t) (run p (jumps d rs t))
unfolding run eval
run-Agrees skip d rs t le size = (rs, refl, size)
run-Agrees (effect n) d rs t le size = (rs, refl, size)
run-Agrees (throw x) d rs t le size = throw-Agrees x d rs t (omega arith) size
run-Agrees (follow p q) d rs t le size =
    part-Agrees (run p) (run q) (eval q) (jumps d rs t) d (eval p t)
      (run-Agrees p d rs t (omega arith) size)
      (λ rs' t' size'. run-Agrees q d rs' t' (omega arith) size')
run-Agrees (try_except p q) d rs t le size =
    try-Agrees (run p) (run q) (λ y t'. eval q t') d rs t (eval p t) (omega arith)
      (run-Agrees p (suc d) rs t (omega arith) size)
      (λ rs' t' y size' at. run-Agrees q d rs' t' (omega arith) size')
run-Agrees (try_catch p x q r) d rs t le size =
    try-Agrees (run p) (thrown >>= λ y. if y == u32 x then run q else run r)
      (λ y t'. if y == u32 x then eval q t' else eval r t') d rs t (eval p t) (omega arith)
      (run-Agrees p (suc d) rs t (omega arith) size)
      (λ rs' t' y size' at.
        catch-Agrees d (u32 x) y rs' t' (run q) (run r) (eval q t') (eval r t') at
          (run-Agrees q d rs' t' (omega arith) size') (run-Agrees r d rs' t' (omega arith) size'))
