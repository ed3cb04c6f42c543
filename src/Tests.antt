-- ===== src/Tests.antt =====
-- Runs of cmake/bigint on a heap with five blocks, at which the theorems are applied.
mod Quotients
mod Texts
use demo.Common.{
  ℕ, ◌+◌, ◌*◌, ◌-◌, ◌^◌, ◌≤◌, ◌<◌, ◌≡◌, refl, arith, List, [], ◌∷◌, true, false, none, some, inr,
}
use demo.Word.Carry.{B, uint_add, uint_sub, uint_mul}
use demo.Word.Carry.Laws.{uint_add_lem, uint_sub_lem, uint_mul_lem}
use demo.Word.Count.{len64}
use demo.Word.Count.Laws.{IsLen, len64-IsLen}
use demo.Memory.{Heap, update, words, word_at}
use demo.Nat.{Nat, nat_norm}
use demo.Nat.Value.{value, radix}
use demo.Nat.Laws.{IsReady, Holds, Returns}
use demo.Nat.Norm.{Trimmed, nat_norm-Trimmed}
use demo.Nat.Compare.{IsTrim, Compared, nat_cmp-Compared}
use demo.Nat.Add.{nat_add}
use demo.Nat.Add.Laws.{IsAddable, nat_add-Returns, nat_add_ripple}
use demo.Nat.Sub.{nat_sub}
use demo.Nat.Sub.Laws.{IsTakeable, nat_sub-Returns}
use demo.Nat.Mul.{nat_mul_add_ww, basic_mul}
use demo.Nat.Mul.Word.{nat_mul_add_ww-Returns}
use demo.Nat.Mul.Basic.{Finished, basic_mul-Finished}
use demo.BigInt.{BigInt, big_int_new_i}

abbrev tall : List ℕ
tall = (B - 1) ∷ 5 ∷ 7 ∷ []

abbrev short : List ℕ
short = 4 ∷ []

abbrev full : List ℕ
full = (B - 1) ∷ (B - 1) ∷ 6 ∷ []

abbrev low : List ℕ
low = 3 ∷ 5 ∷ 7 ∷ []

abbrev padded : List ℕ
padded = 9 ∷ 0 ∷ 0 ∷ []

abbrev desk : Heap
desk = record {
  blocks =
      update
        (update (update (update (update (λ b. none) 5 (some padded)) 4 (some low)) 3 (some full)) 2
          (some short))
        1 (some tall);
  next = 6;
  fails = λ b. false;
}

abbrev view_of : ℕ → ℕ → Nat
view_of b n = record { blk = b; off = 0; len = n; cap = n; part = false }

desk-IsReady : IsReady desk
desk-IsReady = record { nonnull = omega arith; plenty = λ b. refl }

tall-Holds : Holds desk (view_of 1 3) tall
unfolding words word_at
tall-Holds = record {
  at = refl;
  old = omega arith;
  all = (omega arith, (omega arith, (omega arith, tt)));
}

short-Holds : Holds desk (view_of 2 1) short
unfolding words word_at
short-Holds = record { at = refl; old = omega arith; all = (omega arith, tt) }

full-Holds : Holds desk (view_of 3 3) full
unfolding words word_at
full-Holds = record {
  at = refl;
  old = omega arith;
  all = (omega arith, (omega arith, (omega arith, tt)));
}

low-Holds : Holds desk (view_of 4 3) low
unfolding words word_at
low-Holds = record {
  at = refl;
  old = omega arith;
  all = (omega arith, (omega arith, (omega arith, tt)));
}

padded-Holds : Holds desk (view_of 5 3) padded
unfolding words word_at
padded-Holds = record {
  at = refl;
  old = omega arith;
  all = (omega arith, (omega arith, (omega arith, tt)));
}

tall-IsTrim : IsTrim tall
tall-IsTrim = inr (omega arith)

low-IsTrim : IsTrim low
low-IsTrim = inr (omega arith)

tall-IsAddable : IsAddable tall short
tall-IsAddable = record {
  low = (B - 1) ∷ [];
  high = 5 ∷ 7 ∷ [];
  split = refl;
  even = refl;
  few = omega arith;
  stops = inr (omega arith, omega arith);
}

low-IsTakeable : IsTakeable low short
low-IsTakeable = record {
  low = 3 ∷ [];
  high = 5 ∷ 7 ∷ [];
  split = refl;
  even = refl;
  stops = inr (omega arith, omega arith);
}

abbrev minus_tall : BigInt
minus_tall = record { neg = true; abs = view_of 1 3 }

abbrev plus_low : BigInt
plus_low = record { neg = false; abs = view_of 4 3 }

nat_add-Returns_example :
    Returns desk (value tall + value short) (nat_add (view_of 1 3) (view_of 2 1) desk)
nat_add-Returns_example =
    nat_add-Returns desk (view_of 1 3) (view_of 2 1) desk-IsReady tall-Holds short-Holds
      (λ p. tall-IsAddable) (λ p. absurd (omega arith))

nat_add_ripple_example :
    Returns desk (value full + value short + radix 2) (nat_add (view_of 3 3) (view_of 2 1) desk)
nat_add_ripple_example =
    nat_add_ripple desk (view_of 3 3) (view_of 2 1) ((B - 1) ∷ []) 6 [] desk-IsReady full-Holds
      short-Holds (omega arith) refl (omega arith) (omega arith) (omega arith) (omega arith)

nat_sub-Returns_example :
    Returns desk (value low - value short) (nat_sub (view_of 4 3) (view_of 2 1) desk)
nat_sub-Returns_example =
    nat_sub-Returns desk (view_of 4 3) (view_of 2 1) desk-IsReady low-Holds short-Holds
      low-IsTakeable (omega arith)

nat_cmp-Compared_example : Compared desk (view_of 1 3) (view_of 4 3) tall low
nat_cmp-Compared_example =
    nat_cmp-Compared desk (view_of 1 3) (view_of 4 3) tall-Holds low-Holds tall-IsTrim low-IsTrim

nat_norm-Trimmed_example :
    (t : Trimmed desk (view_of 5 3) 3 padded) × (nat_norm (view_of 5 3) desk
      ≡ some (record (view_of 5 3) { len = t.k }, desk))
nat_norm-Trimmed_example = nat_norm-Trimmed desk (view_of 5 3) padded-Holds

room : words desk 5 0 (2 + 1) ≡ some padded
unfolding words word_at
room = refl

low_pair-Holds : Holds desk (view_of 4 2) (3 ∷ 5 ∷ [])
unfolding words word_at
low_pair-Holds = record { at = refl; old = omega arith; all = (omega arith, (omega arith, tt)) }

basic_mul-Finished_example :
    Finished desk
      (view_of 5 3)
      (2 + 1)
      (value (3 ∷ 5 ∷ []) * value short)
      (basic_mul (view_of 5 3) (view_of 4 2) (view_of 2 1) desk)
basic_mul-Finished_example =
    basic_mul-Finished desk (view_of 5 3) (view_of 4 2) (view_of 2 1) low_pair-Holds short-Holds
      room (λ e. absurd (omega arith)) (λ e. absurd (omega arith))
