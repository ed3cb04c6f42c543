-- ===== src/Nat/Mul/Whole/Laws.antt =====
-- The products of `natMul` and `natSqr` below the thresholds of Karatsuba's method.
use demo.Common.{
  ℕ, suc, min, ◌+◌, ◌*◌, ◌<◌, ◌≡◌, refl, arith, ap, sym, ◌∙◌, List, ◌∷◌, length, inl, inr, ltb,
  ◌==◌, ◌||◌, true, Option, lt→ltb, le→ltb, Bool-cases, ==→eq, ltb→lt, ltb→le,
}
use demo.Memory.{Heap, M, ◌>>=◌, word_at}
use demo.Memory.Laws.{length-words, words-suc, words-place, load-some}
use demo.Nat.{Nat, get}
use demo.Nat.Value.{value, AllWords}
use demo.Nat.Laws.{
  IsReady, Holds, Holds-keep, Returns, grow, new_nat, nat_new_len-grow, words-grow_new, grow-Keeps,
}
use demo.Nat.New.{nat_new-Returns}
use demo.Nat.Mul.{nat_mul_add_ww}
use demo.Nat.Mul.Word.{nat_mul_add_ww-Returns, length-zero}
use demo.Nat.Mul.Written.{Written-Returns}
use demo.Nat.Mul.Basic.{basic_mul-Finished}
use demo.Nat.Mul.Karatsuba.{karatsuba_threshold}
use demo.Nat.Mul.Whole.{nat_mul, mul_longer, mul_small}

pub Returns-move :
    (h : Heap) {number number' : ℕ} {result result' : Option (Nat × Heap)}
    → number ≡ number'
    → result' ≡ result
    → Returns h number result
    → Returns h number' result'
Returns-move h p q v = rw (← p, q) v

module _ (h : Heap) (x y : Nat) {xs ys : List ℕ} (r : IsReady h) (vx : Holds h x xs)
    (vy : Holds h y ys) where
  length_x : length xs ≡ x.len
  length_x = length-words h x.blk x.off x.len vx.at

  length_y : length ys ≡ y.len
  length_y = length-words h y.blk y.off y.len vy.at

  pub mul_small-Returns : 0 < x.len + y.len → Returns h (value xs * value ys) (mul_small x y h)
  unfolding mul_small
  mul_small-Returns pos =
      let n : ℕ = x.len + y.len in
      let k = grow-Keeps h n in
      let (h', e, w) =
        basic_mul-Finished (grow h n) (new_nat h n) x y (Holds-keep k vx) (Holds-keep k vy)
          (words-grow_new h n 0 n (omega arith)) (λ e. absurd (omega (arith, vx.old)))
          (λ e. absurd (omega (arith, vy.old))) in
      rw (◌>>=◌, nat_new_len-grow h n r pos, e) (Written-Returns h h' n _ r w)

  none_left : (x.len == 0 || y.len == 0) ≡ true → 0 ≡ value xs * value ys
  none_left e = elim (Bool-cases (x.len == 0)) [
    | inl e' ↦ rw (length-zero xs (length_x ∙ ==→eq x.len 0 e')) (omega arith)
    | inr e' ↦
        let e'' : y.len ≡ 0 = ground arith in rw (length-zero ys (length_y ∙ e'')) (omega arith)
  ]

  by_word : y.len ≡ 1 → Returns h (value xs * value ys) ((get y 0 >>= λ w. nat_mul_add_ww x w 0) h)
  unfolding get
  by_word one =
      let (w, rest, at_w, at_rest, split) =
        words-suc h y.blk y.off 0 (words-place h y.blk refl (sym one) ∙ vy.at) in
      let all : AllWords (w ∷ rest) = rw split at vy.all in
      let empty = length-zero rest (omega (arith, length_y, ap length split)) in
      rw (◌>>=◌, load-some h y.blk (y.off + 0) (ap (word_at h y.blk) (omega arith) ∙ at_w))
        (Returns-move h (rw (split, empty) (omega arith)) refl
          (nat_mul_add_ww-Returns h x w 0 r vx all.0 (omega arith)))

  mul_longer_lem :
      (mul : Nat → Nat → M Nat) (f : ℕ)
      → y.len < karatsuba_threshold
      → Returns h (value xs * value ys) (mul_longer mul f x y h)
  unfolding mul_longer get
  mul_longer_lem mul f small = elim (Bool-cases (x.len == 0 || y.len == 0)) [
    | inl e ↦ rw e (Returns-move h (none_left e) refl (nat_new-Returns h 0 r (omega arith)))
    | inr e ↦ elim (Bool-cases (y.len == 1)) [
      | inl one ↦ rw (e, one) (by_word (==→eq y.len 1 one))
      | inr more ↦
          rw (e, more, lt→ltb y.len karatsuba_threshold small) (mul_small-Returns (ground arith))
    ]
  ]

-- `natMul` of two views, of which one has fewer than `karatsubaThreshold` words, allocates a view of
-- their product and changes nothing that was there before, where memory is granted.
pub nat_mul-Returns :
    (h : Heap) (x y : Nat) (f : ℕ) {xs ys : List ℕ}
    → IsReady h
    → Holds h x xs
    → Holds h y ys
    → min x.len y.len < karatsuba_threshold
    → Returns h (value xs * value ys) (nat_mul (suc (suc f)) x y h)
unfolding nat_mul
nat_mul-Returns h x y f {xs} {ys} r vx vy small = elim (Bool-cases (ltb x.len y.len)) [
  | inl shorter ↦
      let lt = ltb→lt x.len y.len shorter in
      rw (shorter, le→ltb y.len x.len (omega arith))
        (Returns-move h (omega arith) refl
          (mul_longer_lem h y x r vy vx (nat_mul f) f (omega arith)))
  | inr other ↦
      let le = ltb→le x.len y.len other in
      rw other (mul_longer_lem h x y r vx vy (nat_mul (suc f)) (suc f) (omega arith))
]
