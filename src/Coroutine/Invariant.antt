-- ===== src/Coroutine/Invariant.antt =====
-- What holds of a coroutine environment between operations.
use demo.Common.{
  ℕ, zero, suc, ◌+◌, ◌^◌, ◌≤◌, ◌<◌, ◌≡◌, ◌≢◌, arith, ap, sym, ◌∙◌, Bool, true, false, List, [], ◌∷◌,
  length, Option, none, some, ◌==◌, Bool-cases, ==→eq, ==→ne, inl, inr, get_elem?, set, length-set,
  get_elem?-set_self, get_elem?-set_ne,
}
use mathlib.Core.Path.{subst}
use demo.Coroutine.{Status, ready, running, suspend, Coroutine, CoEnv}

abbrev pub is_running : Status → Bool
is_running running = true
is_running _ = false

-- A coroutine that has not come to its end is counted.
abbrev pub is_alive : Status → ℕ
is_alive ready = 1
is_alive running = 1
is_alive suspend = 1
is_alive _ = 0

abbrev pub alive : Option Coroutine → ℕ
alive none = 0
alive (some c) = is_alive c.status

abbrev pub count : List (Option Coroutine) → ℕ
count [] = 0
count (s ∷ ss) = alive s + count ss

abbrev pub is_at : Option ℕ → ℕ → Bool
is_at none i = false
is_at (some j) i = j == i

-- A place of the array: its coroutine runs where it is the running one, and what is saved of its stack
-- has room in its memory and on the shared stack.
abbrev pub SlotOk : Option ℕ → ℕ → ℕ → Option Coroutine → Type 0
SlotOk r size i none = Unit
SlotOk r size i (some c) =
    (is_running c.status ≡ is_at r i) × (c.status ≡ suspend → (c.size ≤ c.cap) × (c.size ≤ size))

abbrev pub IsThere : List (Option Coroutine) → ℕ → Type 0
IsThere co i = (c : Coroutine) × (get_elem? co i ≡ some (some c))

pub record IsValid (e : CoEnv) : Type 0 where
  pub size : length e.co ≡ e.cap
  pub power : (k : ℕ) × (e.cap + 1 ≡ 2 ^ k)
  pub counted : e.nco ≡ count e.co
  pub slots :
      (i : ℕ) (s : Option Coroutine)
      → get_elem? e.co i ≡ some s
      → SlotOk e.running_id e.stack_size i s
  pub there : (i : ℕ) → e.running_id ≡ some i → IsThere e.co i

pub get-lt : {A : Type 0} → (xs : List A) (i : ℕ) (x : A) → get_elem? xs i ≡ some x → i < length xs
get-lt [] i x e = ground arith
get-lt (y ∷ xs) zero x e = omega arith
get-lt (y ∷ xs) (suc i) x e = omega (arith, get-lt xs i x e)

abbrev of_place : Option (Option Coroutine) → ℕ
of_place none = 0
of_place (some s) = alive s

pub count-set :
    (co : List (Option Coroutine)) (i : ℕ) (s new : Option Coroutine)
    → get_elem? co i ≡ some s
    → count (set co i new) + alive s ≡ count co + alive new
count-set [] i s new e = ground arith
count-set (t ∷ co) zero s new e = omega (arith, ap of_place e)
count-set (t ∷ co) (suc i) s new e = omega (arith, count-set co i s new e)

pub some-injective : {A : Type 0} (x y : A) → some x ≡ some y → x ≡ y
some-injective x y e = ap (λ (o : Option _). elim o [ none ↦ x | some z ↦ z ]) e

other_slot :
    (r r' : Option ℕ) (size i : ℕ) (t : Option Coroutine)
    → is_at r i ≡ is_at r' i
    → SlotOk r' size i t
    → SlotOk r size i t
other_slot r r' size i none same ok = tt
other_slot r r' size i (some c) same ok = (ok.0 ∙ sym same, ok.1)

-- One place is given a coroutine or emptied, with a new running id and a new number.
module _ (e : CoEnv) (v : IsValid e) (id : ℕ) (s new : Option Coroutine)
    (at : get_elem? e.co id ≡ some s) where
  abbrev changed : Option ℕ → ℕ → CoEnv
  changed r n = record e { co = set e.co id new; running_id = r; nco = n }

  inside : id < length e.co
  inside = get-lt e.co id s at

  pub changed-IsValid :
      (r : Option ℕ) (n : ℕ)
      → n + alive s ≡ e.nco + alive new
      → SlotOk r e.stack_size id new
      → ((i : ℕ) → i ≢ id → is_at r i ≡ is_at e.running_id i)
      → ((i : ℕ) → r ≡ some i → IsThere (set e.co id new) i)
      → IsValid (changed r n)
  changed-IsValid r n sum ok same there = record {
    size = length-set e.co id new ∙ v.size;
    power = v.power;
    counted = omega (arith, sum, v.counted, count-set e.co id s new at);
    slots = λ i t got. elim (Bool-cases (id == i)) [
      | inl here ↦
          let id_i = ==→eq id i here in
          let t_new : new ≡ t = some-injective new t (
            sym (get_elem?-set_self e.co id new inside)
            ∙ ap (get_elem? (set e.co id new)) id_i
            ∙ got) in
          subst (λ j. SlotOk r e.stack_size j t) id_i (subst (SlotOk r e.stack_size id) t_new ok)
      | inr other ↦
          let ne = ==→ne id i other in
          other_slot r e.running_id e.stack_size i t (same i (λ x. ne (sym x)))
            (v.slots i t (sym (get_elem?-set_ne e.co id i new ne) ∙ got))
    ];
    there = there;
  }
