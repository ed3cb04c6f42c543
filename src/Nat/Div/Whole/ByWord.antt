-- ===== src/Nat/Div/Whole/ByWord.antt =====
-- `natDiv` by a view of one word.
use demo.Common.{
  ℕ, ◌+◌, ◌<◌, ◌≤◌, ◌≡◌, ◌≢◌, refl, arith, ap, sym, ◌∙◌, none, some, List, [], ◌∷◌, length, inl,
  inr, true, false, ltb, ◌==◌, Bool-cases, ==→eq, ==→ne, eq→==, lt→ltb, ltb→lt, ltb→le,
}
use demo.Memory.{Heap, ◌>>=◌, words, word_at}
use demo.Memory.Laws.{length-words, words-suc, words-place, load-some}
use demo.Nat.{Nat, get, null_nat, nat_cmp, cmp_index, Order, order}
use demo.Nat.Value.{value}
use demo.Nat.Laws.{IsReady, Holds, part_of, nat_part-part_of}
use demo.Nat.Compare.{nat_cmp-lengths}
use demo.Nat.Mul.Word.{length-zero}
use demo.Nat.Div.{nat_div_w}
use demo.Nat.Div.Whole.{nat_div, nat_div_word, is_less}
use demo.Nat.Div.Whole.Laws.{Divided, Divided-move, nat_set_null-Returns, nat_div_word-Divided}

-- What `natCmp` with a word `w` answers.
record ComparedWord (h : Heap) (u v : Nat) (us : List ℕ) (w : ℕ) : Type 0 where
  answer : Order
  returns : nat_cmp u v h ≡ some (answer, h)
  smaller : is_less answer ≡ true → value us < w
  other : is_less answer ≡ false → (0 < u.len) × ((u.len ≡ 1) → w ≤ value us)

order-is_less : (a b : ℕ) → is_less (order a b) ≡ ltb a b
unfolding order
order-is_less a b = elim (Bool-cases (ltb a b)) [
  | inl lt ↦ rw (lt) refl
  | inr ge ↦ elim (Bool-cases (ltb b a)) [ inl gt ↦ rw (ge, gt) refl | inr le ↦ rw (ge, le) refl ]
]

cmp_one :
    (h : Heap) (u v : Nat) {a w : ℕ}
    → u.len ≡ 1
    → v.len ≡ 1
    → word_at h u.blk (u.off + 0) ≡ some a
    → word_at h v.blk (v.off + 0) ≡ some w
    → nat_cmp u v h ≡ some (order a w, h)
unfolding nat_cmp cmp_index get
cmp_one h u v {a} {w} e e' at_a at_w =
    rw (e, e', ◌>>=◌, load-some h u.blk (u.off + 0) at_a, load-some h v.blk (v.off + 0) at_w) refl

module _ (h : Heap) (u v : Nat) (w : ℕ) {us : List ℕ} (vu : Holds h u us) (vv : Holds h v (w ∷ []))
    (pos : 0 < w) where
  len_u : length us ≡ u.len
  len_u = length-words h u.blk u.off u.len vu.at

  len_v : 1 ≡ v.len
  len_v = length-words h v.blk v.off v.len vv.at

  at_w : word_at h v.blk (v.off + 0) ≡ some w
  at_w =
      let (w', rest, at, at_rest, split) =
        words-suc h v.blk v.off 0 (words-place h v.blk refl len_v ∙ vv.at) in
      ap (word_at h v.blk) (omega arith) ∙ at ∙ cc

  cmp_longer : u.len ≢ 1 → ComparedWord h u v us w
  cmp_longer ne = record {
    answer = order u.len v.len;
    returns = nat_cmp-lengths h u v (inl (λ e. ne (e ∙ sym len_v)));
    smaller = λ e.
        let lt = ltb→lt u.len v.len (sym (order-is_less u.len v.len) ∙ e) in
        rw (length-zero us (omega (arith, len_u, len_v, lt))) pos;
    other = λ e.
        let le = ltb→le u.len v.len (sym (order-is_less u.len v.len) ∙ e) in
        (omega (arith, len_v, le), λ one. absurd (ne one));
  }

  cmp_same : u.len ≡ 1 → ComparedWord h u v us w
  cmp_same one =
      let (a, rest, at_a, at_rest, split) =
        words-suc h u.blk u.off 0 (words-place h u.blk refl (sym one) ∙ vu.at) in
      let none' = length-zero rest (omega (arith, len_u, ap length split)) in
      let value_u : value us ≡ a = omega (arith, ap value split, ap value none') in
      record {
        answer = order a w;
        returns = cmp_one h u v one (sym len_v) (ap (word_at h u.blk) (omega arith) ∙ at_a) at_w;
        smaller = λ e. omega (arith, value_u, ltb→lt a w (sym (order-is_less a w) ∙ e));
        other = λ e.
            (omega arith, λ _. omega (arith, value_u, ltb→le a w (sym (order-is_less a w) ∙ e)));
      }

  cmp_word : ComparedWord h u v us w
  cmp_word = elim (Bool-cases (u.len == 1)) [
    | inl e ↦ cmp_same (==→eq u.len 1 e)
    | inr e ↦ cmp_longer (==→ne u.len 1 e)
  ]

smaller-Divided :
    (h : Heap) (f : ℕ) (u v : Nat) (w : ℕ) {us : List ℕ}
    → IsReady h
    → Holds h u us
    → 1 ≡ v.len
    → (c : ComparedWord h u v us w) → is_less c.answer ≡ true
    → Divided h (value us) w (nat_div f null_nat null_nat u v h)
unfolding nat_div
smaller-Divided h f u v w r vu len c e =
    let t = nat_set_null-Returns h u r vu in
    record {
      quotient = part_of null_nat 0 0;
      rest = t.view;
      heap = t.heap;
      digits = [];
      rest_digits = t.digits;
      returns =
          rw
            (
              lt→ltb 0 v.len (omega (arith, len)),
              ◌>>=◌,
              c.returns,
              e,
              nat_part-part_of h null_nat 0 0 (omega arith),
              t.returns,
            )
            refl;
      holds_quotient = record {
        at = unfold words in refl;
        old = omega (arith, t.ready.nonnull);
        all = tt;
      };
      holds_rest = t.holds;
      exact = omega (arith, t.total);
      less = omega (arith, t.total, c.smaller e);
      keeps = t.keeps;
      ready = t.ready;
    }

-- Where the dividend is not smaller, the word decides.
not_smaller :
    (h : Heap) (f : ℕ) (z z2 u v : Nat) (w : ℕ) {us : List ℕ}
    → 1 ≡ v.len
    → word_at h v.blk (v.off + 0) ≡ some w
    → (c : ComparedWord h u v us w) → is_less c.answer ≡ false
    → nat_div f z z2 u v h ≡ nat_div_word z2 u w h
unfolding nat_div get
not_smaller h f z z2 u v w len at c e =
    rw
      (
        lt→ltb 0 v.len (omega (arith, len)),
        ◌>>=◌,
        c.returns,
        e,
        eq→== v.len 1 (sym len),
        load-some h v.blk (v.off + 0) at,
      )
      refl

-- `natDiv` by a view of one word above 1, with NULL for the storage, gives views of the quotient and
-- of the remainder, and changes nothing that was there before, where memory is granted.
pub nat_div-Divided :
    (h : Heap) (f : ℕ) (u v : Nat) (w : ℕ) {us : List ℕ}
    → IsReady h
    → Holds h u us
    → Holds h v (w ∷ [])
    → 1 < w
    → Divided h (value us) w (nat_div f null_nat null_nat u v h)
nat_div-Divided h f u v w r vu vv big =
    let c = cmp_word h u v w vu vv (omega arith) in
    let len = len_v h u v w vu vv (omega arith) in
    let at = at_w h u v w vu vv (omega arith) in
    elim (Bool-cases (is_less c.answer)) [
      | inl e ↦ smaller-Divided h f u v w r vu len c e
      | inr e ↦
          Divided-move refl refl (not_smaller h f null_nat null_nat u v w len at c e)
            (nat_div_word-Divided h u w r vu (c.other e).0 big vv.all.0)
    ]

unassigned : (h : Heap) (z2 u : Nat) → nat_div_word z2 u 1 h ≡ none
unfolding nat_div_word nat_div_w
unassigned h z2 u = ground arith

-- `natDiv` of a number that is not 0 by 1 reads a remainder that `natDivW` did not assign: undefined
-- behaviour, whatever the storage.
pub nat_div-by_one :
    (h : Heap) (f : ℕ) (z z2 u v : Nat) {us : List ℕ}
    → Holds h u us
    → Holds h v (1 ∷ [])
    → 0 < value us
    → nat_div f z z2 u v h ≡ none
nat_div-by_one h f z z2 u v vu vv pos =
    let c = cmp_word h u v 1 vu vv (omega arith) in
    let len = len_v h u v 1 vu vv (omega arith) in
    let at = at_w h u v 1 vu vv (omega arith) in
    elim (Bool-cases (is_less c.answer)) [
      | inl e ↦ absurd (omega (arith, c.smaller e))
      | inr e ↦ not_smaller h f z z2 u v 1 len at c e ∙ unassigned h z2 u
    ]
