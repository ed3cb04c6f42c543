-- ===== src/Nat/Div/Whole/Laws.antt =====
-- The views that `natDiv` makes for its quotient and its remainder.
use demo.Common.{
  ℕ, ◌+◌, ◌*◌, ◌<◌, ◌≤◌, ◌≡◌, refl, arith, ◌∙◌, Option, some, List, [], ◌∷◌, inl, inr,
  if◌then◌else◌, ◌==◌, Bool-cases, ==→eq, le→ltb, le→leb,
}
use demo.Word.Carry.{B}
use demo.Memory.{Heap, ◌>>=◌, words, put_words, free}
use demo.Memory.Laws.{length-words, memcpy-some}
use demo.Nat.{Nat, null_nat, nat_make, nat_free, nat_copy, nat_set, nat_set_word}
use demo.Nat.Value.{value}
use demo.Nat.Laws.{
  IsReady, Holds, Holds-keep, Keeps, Keeps-refl, Keeps-trans, Returns, grow, new_nat, part_of,
  nat_new_len-grow, nat_part-part_of, put-put_words, word_at-grow_new, words-grow, words-grow_new,
  written-Keeps, written-IsReady, written-Holds,
}
use demo.Nat.Div.Single.{nat_div_w-DividesBy}
use demo.Nat.Div.Whole.{nat_div_word}

-- The capacity that `natMake` of NULL gives a view of `n` words.
abbrev room : ℕ → ℕ
room n = if n == 1 then 1 else n + 4

room-le : (n : ℕ) → n ≤ room n
room-le n = ground arith

nat_make_null :
    (h : Heap) (n : ℕ)
    → IsReady h
    → nat_make null_nat n h ≡ some (record (new_nat h (room n)) { len = n }, grow h (room n))
unfolding nat_make nat_free free
nat_make_null h n r = elim (Bool-cases (n == 1)) [
  | inl one ↦
      rw (le→ltb n 0 (omega arith), ◌>>=◌, one, ==→eq n 1 one, nat_new_len-grow h 1 r (omega arith))
        refl
  | inr more ↦
      rw (le→ltb n 0 (omega arith), ◌>>=◌, more, nat_new_len-grow h (n + 4) r (omega arith)) refl
]

-- `natSet` to NULL copies.
pub nat_set_null-Returns :
    (h : Heap) (x : Nat) {xs : List ℕ}
    → IsReady h
    → Holds h x xs
    → Returns h (value xs) (nat_set null_nat x h)
unfolding nat_set nat_copy
nat_set_null-Returns h x {xs} r vx =
    let n : ℕ = x.len in
    let size = length-words h x.blk x.off n vx.at in
    let fits = room-le n in
    record {
      view = record (new_nat h (room n)) { len = n };
      heap = put_words (grow h (room n)) h.next 0 xs;
      digits = xs;
      returns =
          rw
            (
              ◌>>=◌,
              nat_make_null h n r,
              le→leb n (room n) fits,
              memcpy-some (grow h (room n)) h.next 0 x.blk x.off n
                  (words-grow h (room n) x.blk x.off n vx.old ∙ vx.at)
                  (words-grow_new h (room n) 0 n (omega (arith, fits))),
            )
            refl;
      holds = written-Holds h (room n) xs r size fits vx.all;
      total = refl;
      keeps = written-Keeps h (room n) xs r;
      ready = written-IsReady h (room n) xs r;
    }

-- `natSetWord` of NULL makes a view of one word, or of none for 0.
nat_set_word_null-Returns :
    (h : Heap) (w : ℕ) → IsReady h → w < B → Returns h w (nat_set_word null_nat w h)
unfolding nat_set_word
nat_set_word_null-Returns h w r lt = elim (Bool-cases (w == 0)) [
  | inl e ↦ rw e (record {
    view = part_of null_nat 0 0;
    heap = h;
    digits = [];
    returns = nat_part-part_of h null_nat 0 0 (omega arith);
    holds = record { at = unfold words in refl; old = r.nonnull; all = tt };
    total = omega (arith, ==→eq w 0 e);
    keeps = Keeps-refl h;
    ready = r;
  })
  | inr e ↦ rw e (record {
    view = new_nat h 1;
    heap = put_words (grow h 1) h.next 0 (w ∷ []);
    digits = w ∷ [];
    returns =
        rw
          (
            ◌>>=◌,
            nat_make_null h 1 r,
            put-put_words (grow h 1) (new_nat h 1) 0 w (word_at-grow_new h 1 0 (omega arith)),
          )
          refl;
    holds = written-Holds h 1 (w ∷ []) r refl (omega arith) (lt, tt);
    total = omega arith;
    keeps = written-Keeps h 1 (w ∷ []) r;
    ready = written-IsReady h 1 (w ∷ []) r;
  })
]

-- Views of the quotient and of the remainder of `number` by `divisor`.
pub record Divided (h : Heap) (number divisor : ℕ) (result : Option ((Nat × Nat) × Heap))
    : Type 0 where
  pub quotient : Nat
  pub rest : Nat
  pub heap : Heap
  pub digits : List ℕ
  pub rest_digits : List ℕ
  pub returns : result ≡ some ((quotient, rest), heap)
  pub holds_quotient : Holds heap quotient digits
  pub holds_rest : Holds heap rest rest_digits
  pub exact : value digits * divisor + value rest_digits ≡ number
  pub less : value rest_digits < divisor
  pub keeps : Keeps h heap
  pub ready : IsReady heap

pub Divided-move :
    {h : Heap} {number divisor number' divisor' : ℕ} {result result' : Option ((Nat × Nat) × Heap)}
    → number ≡ number'
    → divisor ≡ divisor'
    → result' ≡ result
    → Divided h number divisor result
    → Divided h number' divisor' result'
Divided-move e e' e'' d = rw (← e, ← e', e'') d

pub nat_div_word-Divided :
    (h : Heap) (u : Nat) (w : ℕ) {us : List ℕ}
    → IsReady h
    → Holds h u us
    → 0 < u.len
    → 1 < w
    → w < B
    → Divided h (value us) w (nat_div_word null_nat u w h)
unfolding nat_div_word
nat_div_word-Divided h u w r vu pos big word =
    let d = nat_div_w-DividesBy h u w r vu pos big word in
    let t = nat_set_word_null-Returns d.heap d.rest d.ready (omega (arith, d.less)) in
    record {
      quotient = d.view;
      rest = t.view;
      heap = t.heap;
      digits = d.digits;
      rest_digits = t.digits;
      returns = rw (◌>>=◌, d.returns, t.returns) refl;
      holds_quotient = Holds-keep t.keeps d.holds;
      holds_rest = t.holds;
      exact = omega (arith, d.exact, t.total);
      less = omega (arith, d.less, t.total);
      keeps = Keeps-trans d.keeps t.keeps;
      ready = t.ready;
    }
