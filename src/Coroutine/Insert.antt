-- ===== src/Coroutine/Insert.antt =====
-- `co_new` keeps the environment's invariant, and writes over no coroutine.
use demo.Common.{
  ℕ, zero, suc, ◌+◌, ◌-◌, ◌*◌, ◌^◌, ◌≡◌, ◌≢◌, refl, arith, ap, sym, ◌∙◌, true, false, List, [], ◌∷◌,
  ◌++◌, length, length-append, length-replicate, replicate, Option, none, some, ltb, leb, get_elem?,
  get_elem?-set_self, get_elem?-set_ne, Bool-cases, ==→eq, inl, inr, ◌⊎◌, bit_and, pow-suc,
}
use mathlib.Core.Path.{subst}
use demo.Common.Effect.{Holds, assert-Holds, ◌>>=◌}
use demo.Common.Alloc.{Heap, IsPlenty, malloc_grants, realloc}
use demo.Coroutine.{
  Func, ready, Coroutine, CoEnv, World, Co, is_valid_cap, co_make, co_place, co_grow, co_search,
  co_insert, co_new,
}
use demo.Coroutine.Invariant.{
  count, is_at, SlotOk, IsValid, changed-IsValid, get-lt, some-injective,
}
use demo.Coroutine.Switch.{IsGood}
use demo.Coroutine.Holds.{slot-Holds}

-- A coroutine that was made just now.
abbrev pub fresh : Func → Coroutine
fresh func = record {
  func = func;
  has_ctx = true;
  status = ready;
  cap = 0;
  size = 0;
  has_stack = false;
}

co_make-fresh :
    (func : Func) (h : Heap)
    → IsPlenty h
    → co_make func h
      ≡ some (some (fresh func), record h { calls = suc (suc h.calls); live = suc (suc h.live) })
unfolding co_make
co_make-fresh func h p =
    let p1 : IsPlenty (record h { calls = suc h.calls; live = suc h.live }) = record {
      plenty = p.plenty;
    } in
    rw
      (
        ◌>>=◌,
        malloc_grants h p,
        malloc_grants (record h { calls = suc h.calls; live = suc h.live }) p1,
      )
      refl

-- What `co_new` did: the new coroutine is at the place that is returned, and every other place that
-- held a coroutine holds it still.
abbrev pub IsAdded : Func → World → Option ℕ → World → Type 0
IsAdded func w none w' = w'.env ≡ w.env
IsAdded func w (some id) w' =
    (get_elem? w'.env.co id ≡ some (some (fresh func)))
    × ((j : ℕ) (c : Coroutine)
        → get_elem? w.env.co j ≡ some (some c)
        → get_elem? w'.env.co j ≡ some (some c))

abbrev pub Added : Func → World → Option ℕ → World → Type 0
Added func w r w' = IsGood w' × IsAdded func w r w'

-- An empty place is none that holds a coroutine.
not_both :
    (co : List (Option Coroutine)) (id : ℕ) (c : Coroutine)
    → get_elem? co id ≡ some none
    → ¬ (get_elem? co id ≡ some (some c))
not_both co id c empty full = absurd (cc (empty, full))

apart :
    (co : List (Option Coroutine)) (id j : ℕ) (c : Coroutine)
    → get_elem? co id ≡ some none
    → get_elem? co j ≡ some (some c)
    → id ≢ j
apart co id j c empty full e = not_both co id c empty (ap (get_elem? co) e ∙ full)

is_at-eq : (r : Option ℕ) (id : ℕ) → is_at r id ≡ true → r ≡ some id
is_at-eq none id e = ground arith
is_at-eq (some j) id e = ap some (==→eq j id e)

-- No coroutine runs at an empty place.
not_here :
    (e : CoEnv) (v : IsValid e) (id : ℕ)
    → get_elem? e.co id ≡ some none
    → is_at e.running_id id ≡ false
not_here e v id empty = elim (Bool-cases (is_at e.running_id id)) [
  | inl here ↦
      let (c, full) = v.there id (is_at-eq e.running_id id here) in
      absurd (not_both e.co id c empty full)
  | inr away ↦ away
]

module _ (func : Func) (w : World) (g : IsGood w) (id : ℕ)
    (empty : get_elem? w.env.co id ≡ some none) where
  place-Added : Holds (Added func w) (co_place id (some (fresh func)) w)
  unfolding co_place
  place-Added = (
    record {
      valid =
          changed-IsValid w.env g.valid id none (some (fresh func)) empty w.env.running_id
            (w.env.nco + 1) (omega arith)
            (sym (not_here w.env g.valid id empty), (λ e. ground arith)) (λ i ne. refl)
            (λ i here.
              let (c, full) = g.valid.there i here in
              (c, get_elem?-set_ne w.env.co id i _ (apart w.env.co id i c empty full) ∙ full));
      plenty = g.plenty;
    },
    (
      get_elem?-set_self w.env.co id _ (get-lt w.env.co id none empty),
      (λ j c at. get_elem?-set_ne w.env.co id j _ (apart w.env.co id j c empty at) ∙ at),
    ),
  )

searched :
    (func : Func) (n i : ℕ) (w : World)
    → IsGood w
    → (id : ℕ) (s : Option Coroutine) → get_elem? w.env.co id ≡ some s
    → Holds (Added func w) (co_search n (i + 1) (some (fresh func)) w)
    → Holds (Added func w) (
        (elim s as (λ x. Co (Option ℕ)) [
          | none ↦ co_place id (some (fresh func))
          | some other ↦ co_search n (i + 1) (some (fresh func))
        ])
          w)
searched func n i w g id none at rest = place-Added func w g id at
searched func n i w g id (some c) at rest = rest

search-Added :
    (func : Func) (n i : ℕ) (w : World)
    → IsGood w
    → Holds (Added func w) (co_search n i (some (fresh func)) w)
unfolding co_search
search-Added func zero i w g = tt
search-Added func (suc n) i w g =
    let id = bit_and (i + w.env.nco) w.env.cap in
    slot-Holds id _ (Added func w) w
      (λ s at. searched func n i w g id s at (search-Added func n (i + 1) w g))

count-append : (xs ys : List (Option Coroutine)) → count (xs ++ ys) ≡ count xs + count ys
count-append [] ys = omega arith
count-append (x ∷ xs) ys = omega (arith, count-append xs ys)

pub count-empty : (n : ℕ) → count (replicate n none) ≡ 0
count-empty zero = refl
count-empty (suc n) = omega (arith, count-empty n)

pub get-append :
    {A : Type 0}
    → (xs ys : List A) (i : ℕ) (x : A) → get_elem? xs i ≡ some x
    → get_elem? (xs ++ ys) i ≡ some x
get-append [] ys i x e = ground arith
get-append (y ∷ xs) ys zero x e = e
get-append (y ∷ xs) ys (suc i) x e = get-append xs ys i x e

-- A place of the longer array is one of the old ones, or empty.
pub get-grown :
    (co : List (Option Coroutine)) (n i : ℕ) (s : Option Coroutine)
    → get_elem? (co ++ replicate n none) i ≡ some s
    → (get_elem? co i ≡ some s) ⊎ (s ≡ none)
get-grown [] zero i s e = ground arith
get-grown [] (suc n) zero s e = inr (sym (some-injective none s e))
get-grown [] (suc n) (suc i) s e = elim (get-grown [] n i s e) [
  | inl at ↦ ground arith
  | inr empty ↦ inr empty
]
get-grown (x ∷ co) n zero s e = inl e
get-grown (x ∷ co) n (suc i) s e = get-grown co n i s e

first-new :
    (co : List (Option Coroutine)) (n : ℕ)
    → get_elem? (co ++ replicate (suc n) none) (length co) ≡ some none
first-new [] n = refl
first-new (x ∷ co) n = first-new co n

abbrev pub grown : CoEnv → CoEnv
grown e = record e { co = e.co ++ replicate (e.cap * 2 + 1 - e.cap) none; cap = e.cap * 2 + 1 }

pub grown-IsValid : (e : CoEnv) → IsValid e → IsValid (grown e)
grown-IsValid e v = record {
  size = omega (
    arith,
    length-append e.co (replicate (e.cap * 2 + 1 - e.cap) none),
    length-replicate {A = Option Coroutine} (e.cap * 2 + 1 - e.cap) none,
    v.size,
  );
  power = (suc (v.power.0), omega (arith, v.power.1, pow-suc 2 (v.power.0)));
  counted = omega (
    arith,
    v.counted,
    count-append e.co (replicate (e.cap * 2 + 1 - e.cap) none),
    count-empty (e.cap * 2 + 1 - e.cap),
  );
  slots = λ i s at. elim (get-grown e.co (e.cap * 2 + 1 - e.cap) i s at) [
    | inl old ↦ v.slots i s old
    | inr empty ↦ subst (SlotOk e.running_id e.stack_size i) (sym empty) tt
  ];
  there = λ i here. let (c, full) = v.there i here in (c, get-append e.co _ i (some c) full);
}

pub new_place : (e : CoEnv) → IsValid e → get_elem? (grown e).co e.cap ≡ some none
new_place e v =
    let room : e.cap * 2 + 1 - e.cap ≡ suc e.cap = omega arith in
    ap (λ n. get_elem? (e.co ++ replicate n none) e.cap) room
    ∙ ap (get_elem? (e.co ++ replicate (suc e.cap) none)) (sym v.size)
    ∙ first-new e.co e.cap

-- The world after `realloc`.
abbrev pub grown_world : World → World
grown_world w = record { heap = record w.heap { calls = suc w.heap.calls }; env = grown w.env }

pub realloc_grants :
    (h : Heap) → IsPlenty h → realloc h ≡ some (true, record h { calls = suc h.calls })
unfolding realloc
realloc_grants h p = rw (p.plenty h.calls) refl

grow-Added :
    (func : Func) (w : World) → IsGood w → Holds (Added func w) (co_grow (some (fresh func)) w)
unfolding co_grow co_place
grow-Added func w g = assert-Holds (ltb (w.env.cap * 2 + 1) (2 ^ 31)) _ _ w (λ small.
    assert-Holds (is_valid_cap (w.env.cap * 2 + 1)) _ _ w (λ ok.
      rw (◌>>=◌, realloc_grants w.heap g.plenty)
        (let g' : IsGood (grown_world w) = record {
          valid = grown-IsValid w.env g.valid;
          plenty = record { plenty = g.plenty.plenty };
        } in
          let a = place-Added func (grown_world w) g' w.env.cap (new_place w.env g.valid) in
          (a.0, (a.1.0, (λ j c at. a.1.1 j c (get-append w.env.co _ j (some c) at)))))))

insert-Added :
    (func : Func) (w : World) → IsGood w → Holds (Added func w) (co_insert (some (fresh func)) w)
unfolding co_insert
insert-Added func w g = elim (Bool-cases (leb w.env.cap w.env.nco)) [
  | inl full ↦ rw full (grow-Added func w g)
  | inr room ↦ rw room (search-Added func w.env.cap 0 w g)
]

-- The world after `co_make`.
abbrev pub made_world : World → World
made_world w = record w {
  heap = record w.heap { calls = suc (suc w.heap.calls); live = suc (suc w.heap.live) };
}

pub co_new-insert :
    (func : Func) (w : World)
    → IsGood w
    → co_new func w ≡ co_insert (some (fresh func)) (made_world w)
unfolding co_new
co_new-insert func w g = rw (◌>>=◌, co_make-fresh func w.heap g.plenty) refl

pub co_new-Added : (func : Func) (w : World) → IsGood w → Holds (Added func w) (co_new func w)
co_new-Added func w g =
    let made : IsGood (made_world w) = record {
      valid = g.valid;
      plenty = record { plenty = g.plenty.plenty };
    } in
    rw (co_new-insert func w g) (insert-Added func (made_world w) made)
