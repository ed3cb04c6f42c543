-- ===== src/BigInt/Result.antt =====
-- What the operations of bigint.c are given and what they return.
use demo.Common.{append-nil, ℕ, ◌^◌, ◌≤◌, ◌<◌, ◌≡◌, arith, sym, List, [], length, Option, some, inr}
use demo.Common.Int.{ℤ, signed}
use demo.Memory.{Heap}
use demo.Nat.Value.{value}
use demo.Nat.Laws.{IsReady, Holds, Keeps}
use demo.Nat.Compare.{IsTrim}
use demo.Nat.Add.Laws.{IsAddable}
use demo.Nat.Sub.Laws.{IsTakeable}
use demo.BigInt.{BigInt}

-- The integer's magnitude is the words `ws`.
pub record HoldsInt (h : Heap) (x : BigInt) (ws : List ℕ) : Type 0 where
  pub magnitude : Holds h x.abs ws
  pub trim : IsTrim ws

-- Between magnitudes `xs` and `ys` no carry and no borrow runs on, and where they are added the shorter
-- one has fewer than 2^31 words.
pub record IsCalm (xs ys : List ℕ) : Type 0 where
  pub add : length ys ≤ length xs → IsAddable xs ys
  pub add' : length xs < length ys → IsAddable ys xs
  pub take : length ys ≤ length xs → value ys ≤ value xs → IsTakeable xs ys
  pub take' : length xs ≤ length ys → value xs ≤ value ys → IsTakeable ys xs

-- A computation of an integer that leaves what was there.
pub record Gives (h : Heap) (number : ℤ) (result : Option (BigInt × Heap)) : Type 0 where
  pub int : BigInt
  pub heap : Heap
  pub digits : List ℕ
  pub returns : result ≡ some (int, heap)
  pub holds : Holds heap int.abs digits
  pub total : signed int.neg (value digits) ≡ number
  pub keeps : Keeps h heap
  pub ready : IsReady heap

-- A call that returns an integer, not NULL.
pub record ReturnsInt (h : Heap) (number : ℤ) (result : Option (Option BigInt × Heap))
    : Type 0 where
  pub int : BigInt
  pub heap : Heap
  pub digits : List ℕ
  pub returns : result ≡ some (some int, heap)
  pub holds : Holds heap int.abs digits
  pub total : signed int.neg (value digits) ≡ number
  pub keeps : Keeps h heap
  pub ready : IsReady heap

-- No carry and no borrow runs on between magnitudes of as many words.
pub even-IsCalm : (xs ys : List ℕ) → length xs ≡ length ys → length ys < 2 ^ 31 → IsCalm xs ys
even-IsCalm xs ys e few = record {
  add = λ p. record {
    low = xs;
    high = [];
    split = sym (append-nil xs);
    even = e;
    few = few;
    stops = inr (omega arith, tt);
  };
  add' = λ p. absurd (omega arith);
  take = λ p v. record {
    low = xs;
    high = [];
    split = sym (append-nil xs);
    even = e;
    stops = inr (omega arith, tt);
  };
  take' = λ p v. record {
    low = ys;
    high = [];
    split = sym (append-nil ys);
    even = sym e;
    stops = inr (omega arith, tt);
  };
}
