-- ===== src/Nat/Mul/Square/Laws.antt =====
-- The squares of `natSqr` below the threshold of `basicSqr`.
use demo.Common.{
  ℕ, suc, ◌+◌, ◌*◌, ◌<◌, ◌≡◌, refl, arith, ap, sym, ◌∙◌, some, List, [], ◌∷◌, length, ◌==◌, lt→ltb,
  Bool-cases, ==→eq, ==→ne, inl, inr,
}
use demo.Word.Carry.{B, uint_mul}
use demo.Word.Carry.Laws.{uint_mul_lem}
use demo.Memory.{Heap, ◌>>=◌, words, put_words, word_at}
use demo.Memory.Laws.{length-words, words-suc, words-place, load-some, word_at-put_words}
use demo.Nat.{Nat, get, null_nat, nat_new_len}
use demo.Nat.Value.{value, AllWords}
use demo.Nat.Laws.{
  IsReady, Holds, Returns, Keeps-refl, grow, new_nat, nat_new_len-grow, word_at-grow_new,
  put-put_words,
}
use demo.Nat.Mul.Word.{length-zero}
use demo.Nat.Mul.Written.{nothing-Written, top-Written, Written-Returns}
use demo.Nat.Mul.Whole.{mul_small}
use demo.Nat.Mul.Whole.Laws.{mul_small-Returns, Returns-move}
use demo.Nat.Mul.Square.{nat_sqr, sqr_word, put_square, sqr_short, basic_sqr_threshold}

sqr_short-mul_small : (h : Heap) (x : Nat) → sqr_short x h ≡ mul_small x x h
unfolding mul_small
sqr_short-mul_small h x = let twice : 2 * x.len ≡ x.len + x.len = omega arith in rw twice refl

module _ (h : Heap) (x : Nat) {xs : List ℕ} (r : IsReady h) (vx : Holds h x xs) where
  length_x : length xs ≡ x.len
  length_x = length-words h x.blk x.off x.len vx.at

  none_square : x.len ≡ 0 → Returns h (value xs * value xs) (nat_new_len 0 h)
  unfolding nat_new_len words
  none_square e = record {
    view = null_nat;
    heap = h;
    digits = [];
    returns = refl;
    holds = record { at = refl; old = r.nonnull; all = tt };
    total = rw (length-zero xs (length_x ∙ e)) refl;
    keeps = Keeps-refl h;
    ready = r;
  }

  -- The two words of the square of a word.
  word_square : x.len ≡ 1 → Returns h (value xs * value xs) (sqr_word x h)
  unfolding get put_square
  word_square e =
      let (d, rest, at_d, at_rest, split) =
        words-suc h x.blk x.off 0 (words-place h x.blk refl (sym e) ∙ vx.at) in
      let all : AllWords (d ∷ rest) = rw split at vx.all in
      let none' = length-zero rest (omega (arith, length_x, ap length split)) in
      let (sum, low, high) = uint_mul_lem d d all.0 all.0 in
      let g : Heap = grow h 2 in
      let z : Nat = new_nat h 2 in
      let lo : ℕ = (uint_mul d d).0 in
      let hi : ℕ = (uint_mul d d).1 in
      let at_1 : word_at g h.next 1 ≡ some 0 = word_at-grow_new h 2 1 (omega arith) in
      let at_0 : word_at (put_words g h.next 1 (hi ∷ [])) h.next 0 ≡ some 0 =
        word_at-put_words g h.next 1 (hi ∷ []) h.next 0 (inr (inl (omega arith)))
        ∙ word_at-grow_new h 2 0 (omega arith) in
      let h' : Heap = put_words (put_words g h.next 1 (hi ∷ [])) h.next 0 (lo ∷ []) in
      let w =
        top-Written g z h' 1 hi _ at_1 high
          (top-Written _ z h' 0 lo 0 at_0 low (nothing-Written h' z)) in
      let value_x : value xs ≡ d = omega (arith, ap value split, ap value none') in
      let number : 0 + 1 * lo + B * 1 * hi ≡ value xs * value xs =
        rw value_x (omega (arith, sum)) in
      rw
        (
          ◌>>=◌,
          load-some h x.blk (x.off + 0) (ap (word_at h x.blk) (omega arith) ∙ at_d),
          nat_new_len-grow h 2 r (omega arith),
          put-put_words g z 1 hi at_1,
          put-put_words (put_words g h.next 1 (hi ∷ [])) z 0 lo at_0,
        )
        (Returns-move h number refl (Written-Returns h h' 2 _ r w))

-- `natSqr` of a view with fewer than `basicSqrThreshold` words gives a view of its square and changes
-- nothing that was there before, where memory is granted.
pub nat_sqr-Returns :
    (h : Heap) (x : Nat) (f : ℕ) {xs : List ℕ}
    → IsReady h
    → Holds h x xs
    → x.len < basic_sqr_threshold
    → Returns h (value xs * value xs) (nat_sqr (suc f) x h)
unfolding nat_sqr
nat_sqr-Returns h x f r vx small = elim (Bool-cases (x.len == 0)) [
  | inl e ↦ rw e (none_square h x r vx (==→eq x.len 0 e))
  | inr some' ↦ elim (Bool-cases (x.len == 1)) [
    | inl e ↦ rw (some', e) (word_square h x r vx (==→eq x.len 1 e))
    | inr more ↦
        let pos : 0 < x.len + x.len = omega (arith, ==→ne x.len 0 some') in
        rw (some', more, lt→ltb x.len basic_sqr_threshold small)
          (Returns-move h refl (sqr_short-mul_small h x) (mul_small-Returns h x x r vx vx pos))
  ]
]
