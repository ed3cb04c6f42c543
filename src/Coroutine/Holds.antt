-- ===== src/Coroutine/Holds.antt =====
-- What holds after the steps that the operations of co.c share.
use demo.Common.{
  ℕ, ◌≡◌, refl, ◌∙◌, Bool, true, false, Option, none, some, ◌==◌, get_elem?, Bool-cases, inl, inr,
}
use demo.Common.Effect.{pure, fault, Holds, >>=-Holds, Holds-map, ◌>>=◌}
use demo.Common.Alloc.{Heap, M, malloc, free}
use demo.Coroutine.{Coroutine, World, Co, lift, slot, free_if, co_delete}

-- The allocator's choices stay.
abbrev pub Keeps : {A : Type 0} → M A → Type 0
Keeps m = (h : Heap) → Holds (λ a h'. h'.fails ≡ h.fails) (m h)

pub then-Keeps :
    {A B : Type 0} (m : M A) (f : A → M B) → Keeps m → ((a : A) → Keeps (f a)) → Keeps (m >>= f)
then-Keeps m f k rest h =
    >>=-Holds m f (λ a h'. h'.fails ≡ h.fails) _ h (k h)
      (λ a h' same.
        Holds-map (λ b h''. h''.fails ≡ h'.fails) (λ b h''. h''.fails ≡ h.fails) (f a h')
          (rest a h') (λ b h'' e. e ∙ same))

-- A call of the allocator, and what is done after it.
pub lift-Holds :
    {A B : Type 0} (m : M A) (f : A → Co B) (P : A → Heap → Type 0) (Q : B → World → Type 0)
    (w : World)
    → Holds P (m w.heap)
    → ((a : A) (h : Heap) → P a h → Holds Q (f a (record w { heap = h })))
    → Holds Q ((lift m >>= f) w)
lift-Holds {A} {B} m f P Q w p rest = on (m w.heap) p
  where
    on :
        (r : Option (A × Heap))
        → Holds P r
        → Holds Q (
            ◌>>=◌ {B = B}
              (λ v. elim r as (λ x. Option (A × World)) [
                | none ↦ none
                | some (a, h) ↦ some (a, record w { heap = h })
              ])
              f
              w)
    on none p = tt
    on (some (a, h)) p = rest a h p

-- A place of the array that is looked at.
pub slot-Holds :
    {B : Type 0} (id : ℕ) (f : Option Coroutine → Co B) (Q : B → World → Type 0) (w : World)
    → ((s : Option Coroutine) → get_elem? w.env.co id ≡ some s → Holds Q (f s w))
    → Holds Q ((slot id >>= f) w)
unfolding slot
slot-Holds {B} id f Q w rest = on (get_elem? w.env.co id) rest
  where
    on :
        (o : Option (Option Coroutine))
        → ((s : Option Coroutine) → o ≡ some s → Holds Q (f s w))
        → Holds Q (
            ◌>>=◌ {B = B}
              (elim o as (λ x. Co (Option Coroutine)) [ none ↦ fault | some s ↦ pure s ])
              f
              w)
    on none rest = tt
    on (some s) rest = rest s refl

pub free-Keeps : Keeps free
unfolding free
free-Keeps h = elim (Bool-cases (h.live == 0)) [ inl e ↦ rw e tt | inr e ↦ rw e refl ]

pub malloc-Keeps : Keeps malloc
unfolding malloc
malloc-Keeps h = elim (Bool-cases (h.fails h.calls)) [ inl e ↦ rw e refl | inr e ↦ rw e refl ]

pub free_if-Keeps : (b : Bool) → Keeps (free_if b)
free_if-Keeps true h = free-Keeps h
free_if-Keeps false h = refl

pub co_delete-Keeps : (c : Coroutine) → Keeps (co_delete c)
unfolding co_delete
co_delete-Keeps c =
    then-Keeps (free_if c.has_ctx) _ (free_if-Keeps c.has_ctx)
      (λ _. then-Keeps (free_if c.has_stack) _ (free_if-Keeps c.has_stack) (λ _. free-Keeps))
