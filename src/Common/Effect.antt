-- ===== src/Common/Effect.antt =====
-- Programs on a state `S`: `none` is a fault, undefined behaviour or an assertion that fails.
use mathlib.Core.Path.{◌≡◌, refl}
use mathlib.Core.Bool.{Bool, true, false}
use native.Mathlib.Omega.{arith}
use mathlib.Core.Option.{Option, none, some}

abbrev pub Effect : Type 0 → Type 0 → Type 0
Effect S A = S → Option (A × S)

module _ {S : Type 0} where
  abbrev pub fault : {A : Type 0} → Effect S A
  fault h = none

  abbrev pub pure : {A : Type 0} → A → Effect S A
  pure result h = some (result, h)

  -- `assert` of <assert.h>, which ends the program where its argument is false.
  abbrev pub assert : Bool → Effect S (Unit {0})
  assert false = fault
  assert true = pure tt

  infixl 5 ◌>>=◌ ◌>>◌
  abbrev pub ◌>>=◌ : {A B : Type 0} → Effect S A → (A → Effect S B) → Effect S B
  ◌>>=◌ first rest h = elim (first h) [ none ↦ none | some (result, h') ↦ rest result h' ]

  abbrev pub ◌>>◌ : {B : Type 0} → Effect S (Unit {0}) → Effect S B → Effect S B
  first >> rest = first >>= λ _. rest

  -- What follows a step may be replaced by what does the same.
  pub >>=-cong :
      {A B : Type 0} (m : Effect S A) (f g : A → Effect S B) (s : S)
      → ((a : A) (s' : S) → f a s' ≡ g a s')
      → (m >>= f) s ≡ (m >>= g) s
  >>=-cong {A} {B} m f g s same = on (m s)
    where
      on :
          (r : Option (A × S))
          → elim r as (λ x. Option (B × S)) [ none ↦ none | some (a, s') ↦ f a s' ]
            ≡ elim r as (λ x. Option (B × S)) [ none ↦ none | some (a, s') ↦ g a s' ]
      on none = refl
      on (some (a, s')) = same a s'

  -- A step that ends, and what follows it.
  pub >>=-some :
      {A B : Type 0} (m : Effect S A) (f : A → Effect S B) (s : S) {a : A} {s' : S}
      → m s ≡ some (a, s')
      → (m >>= f) s ≡ f a s'
  >>=-some m f s e = rw (◌>>=◌, e) refl

  pub >>=-assoc :
      {A B C : Type 0} (m : Effect S A) (f : A → Effect S B) (g : B → Effect S C) (s : S)
      → ((m >>= f) >>= g) s ≡ (m >>= λ a. f a >>= g) s
  >>=-assoc m f g s = ground arith

  -- A step that does what two steps do.
  pub >>=-split :
      {A B C : Type 0} (m : Effect S B) (n : Effect S A) (k : A → Effect S B) (f : B → Effect S C)
      (s : S)
      → m s ≡ (n >>= k) s
      → (m >>= f) s ≡ (n >>= λ a. k a >>= f) s
  >>=-split m n k f s e = rw (◌>>=◌, e) (>>=-assoc n k f s)

  -- A property of what a program comes to, where it does not fault.
  abbrev pub Holds : {A : Type 0} → (A → S → Type 0) → Option (A × S) → Type 0
  Holds P none = Unit
  Holds P (some (a, s)) = P a s

  pub >>=-Holds :
      {A B : Type 0} (m : Effect S A) (f : A → Effect S B) (P : A → S → Type 0) (Q : B → S → Type 0)
      (s : S)
      → Holds P (m s)
      → ((a : A) (s' : S) → P a s' → Holds Q (f a s'))
      → Holds Q ((m >>= f) s)
  >>=-Holds {A} {B} m f P Q s p rest = on (m s) p
    where
      on :
          (r : Option (A × S))
          → Holds P r
          → Holds Q (elim r as (λ x. Option (B × S)) [ none ↦ none | some (a, s') ↦ f a s' ])
      on none p = tt
      on (some (a, s')) p = rest a s' p

  pub Holds-map :
      {A : Type 0} (P Q : A → S → Type 0) (r : Option (A × S))
      → Holds P r
      → ((a : A) (s : S) → P a s → Q a s)
      → Holds Q r
  Holds-map P Q none p f = tt
  Holds-map P Q (some (a, s)) p f = f a s p

  -- What an assertion is followed by may rest on it.
  pub assert-Holds :
      {B : Type 0} (b : Bool) (f : Unit {0} → Effect S B) (Q : B → S → Type 0) (s : S)
      → (b ≡ true → Holds Q (f tt s))
      → Holds Q ((assert b >>= f) s)
  assert-Holds true f Q s rest = rest refl
  assert-Holds false f Q s rest = tt
