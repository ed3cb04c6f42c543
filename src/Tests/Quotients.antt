-- ===== src/Tests/Quotients.antt =====
-- Runs of the products, shifts and divisions of cmake/bigint.
use demo.Common.{ℕ, ◌*◌, ◌-◌, ◌≡◌, refl, arith, [], ◌∷◌, true, false, none, some, inr}
use demo.Common.Int.{◌*ℤ◌, signed}
use demo.Word.Carry.{B}
use demo.Word.Div.Long.{uint_div}
use demo.Word.Div.Long.Laws.{IsQuotient}
use demo.Memory.{Heap, update, words, word_at}
use demo.Nat.{null_nat}
use demo.Nat.Value.{value}
use demo.Nat.Laws.{Holds, Returns}
use demo.Nat.Shift.{shl_vu, shr_vu}
use demo.Nat.Shift.Left.{Shl, shl_vu-Shl}
use demo.Nat.Shift.Right.{Shr, shr_vu-Shr}
use demo.Nat.Mul.Karatsuba.{karatsuba_len}
use demo.Nat.Mul.Karatsuba.Threshold.{IsCut, karatsuba_len-IsCut}
use demo.Nat.Mul.Whole.{nat_mul}
use demo.Nat.Mul.Whole.Laws.{nat_mul-Returns}
use demo.Nat.Mul.Square.{nat_sqr}
use demo.Nat.Mul.Square.Laws.{nat_sqr-Returns}
use demo.Nat.Div.{reciprocal_word, div_ww}
use demo.Nat.Div.Pair.{div_ww-uint_div}
use demo.Nat.Div.Whole.{nat_div}
use demo.Nat.Div.Whole.Laws.{Divided}
use demo.Nat.Div.Whole.ByWord.{nat_div-Divided, nat_div-by_one}
use demo.BigInt.{big_int_mul}
use demo.BigInt.Result.{ReturnsInt}
use demo.BigInt.Product.{big_int_mul-ReturnsInt}
use demo.Tests.{tall, low, padded, desk, view_of, desk-IsReady, tall-Holds, short-Holds, low-Holds}

nat_mul-Returns_example :
    Returns desk (value tall * value low) (nat_mul 2 (view_of 1 3) (view_of 4 3) desk)
nat_mul-Returns_example =
    nat_mul-Returns desk (view_of 1 3) (view_of 4 3) 0 desk-IsReady tall-Holds low-Holds
      (omega arith)

nat_sqr-Returns_example : Returns desk (value tall * value tall) (nat_sqr 1 (view_of 1 3) desk)
nat_sqr-Returns_example = nat_sqr-Returns desk (view_of 1 3) 0 desk-IsReady tall-Holds (omega arith)

karatsuba_len-IsCut_example : IsCut 40 333 (karatsuba_len 333 40)
karatsuba_len-IsCut_example = karatsuba_len-IsCut 333 40

big_int_mul-ReturnsInt_example :
    ReturnsInt desk (signed true (value tall) *ℤ signed false (value low)) (
      big_int_mul 2
        (record { neg = true; abs = view_of 1 3 })
        (record { neg = false; abs = view_of 4 3 })
        desk)
big_int_mul-ReturnsInt_example =
    big_int_mul-ReturnsInt desk 0 (record { neg = true; abs = view_of 1 3 })
      (record { neg = false; abs = view_of 4 3 }) desk-IsReady tall-Holds low-Holds (omega arith)

old : words desk 5 0 3 ≡ some padded
unfolding words word_at
old = refl

shl_vu-Shl_example :
    Shl desk (view_of 5 3) 3 7 (value tall) (shl_vu (view_of 5 3) (view_of 1 3) 7 desk)
shl_vu-Shl_example =
    shl_vu-Shl desk (view_of 5 3) (view_of 1 3) 7 (omega arith) refl (omega arith)
      (λ e. absurd (omega arith)) tall-Holds old

there : words desk 1 0 3 ≡ some tall
unfolding words word_at
there = refl

-- In place.
shr_vu-Shr_example :
    Shr desk (view_of 1 3) 3 7 (value tall) (shr_vu (view_of 1 3) (view_of 1 3) 7 desk)
shr_vu-Shr_example =
    shr_vu-Shr desk (view_of 1 3) (view_of 1 3) 7 (omega arith) refl (omega arith)
      (inr (omega arith, omega arith)) tall-Holds there

div_ww-uint_div_example :
    (m : ℕ) × (q : ℕ) × (r : ℕ) × (reciprocal_word 77 ≡ some m)
    × (div_ww 5 (B - 2) 77 m ≡ some (q, r))
    × (uint_div 5 (B - 2) 77 ≡ some (q, r))
    × IsQuotient 5 (B - 2) 77 q r
div_ww-uint_div_example = div_ww-uint_div 5 (B - 2) 77 (omega arith) (omega arith) (omega arith)

nat_div-Divided_example :
    Divided desk (value tall) 4 (nat_div 0 null_nat null_nat (view_of 1 3) (view_of 2 1) desk)
nat_div-Divided_example =
    nat_div-Divided desk 0 (view_of 1 3) (view_of 2 1) 4 desk-IsReady tall-Holds short-Holds
      (omega arith)

abbrev unit_desk : Heap
unit_desk = record desk { blocks = update desk.blocks 2 (some (1 ∷ [])) }

unit_tall-Holds : Holds unit_desk (view_of 1 3) tall
unfolding words word_at
unit_tall-Holds = record {
  at = refl;
  old = omega arith;
  all = (omega arith, (omega arith, (omega arith, tt)));
}

unit-Holds : Holds unit_desk (view_of 2 1) (1 ∷ [])
unfolding words word_at
unit-Holds = record { at = refl; old = omega arith; all = (omega arith, tt) }

nat_div-by_one_example : nat_div 0 null_nat null_nat (view_of 1 3) (view_of 2 1) unit_desk ≡ none
nat_div-by_one_example =
    nat_div-by_one unit_desk 0 null_nat null_nat (view_of 1 3) (view_of 2 1) unit_tall-Holds
      unit-Holds (omega arith)
