-- ===== src/Nat/Div/Single.antt =====
-- `natDivW` divides a view by a word.
use demo.Common.{
  ℕ, zero, suc, ◌+◌, ◌*◌, ◌<◌, ◌≡◌, ◌≢◌, refl, arith, ap, sym, ◌∙◌, Option, some, List, [], ◌∷◌,
  ◌++◌, length, inl, inr, ◌==◌, ne→==, eq→==, Bool-cases, ==→eq, ==→ne,
}
use demo.Word.Carry.{B}
use demo.Word.Div.Long.Laws.{u64_div-IsQuotient}
use demo.Memory.{Heap, ◌>>=◌, words, put_words, word_at}
use demo.Memory.Laws.{
  length-words, words-snoc, words-suc, words-zero, words-place, words-put_words, load-some,
}
use demo.Nat.{Nat, get}
use demo.Nat.Value.{value, radix, AllWords, AllWords-front, AllWords-back, value-snoc}
use demo.Nat.Laws.{
  IsReady, Holds, Keeps, grow, new_nat, nat_new_len-grow, words-grow, words-grow_new, put-put_words,
}
use demo.Nat.Mul.Round.{Written}
use demo.Nat.Mul.Word.{length-zero}
use demo.Nat.Mul.Written.{nothing-Written, top-Written, Written-Returns}
use demo.Nat.Div.{div_words, nat_div_wvw, nat_div_w, div_ww}
use demo.Nat.Div.Pair.{Inverted, reciprocal_word-Inverted, div_ww-IsQuotient}

-- The words of a quotient by `y`, written into the first `i` words of `z` since the heap `h`.
record Quotient (h : Heap) (z : Nat) (y i number : ℕ) (result : Option (ℕ × Heap)) : Type 0 where
  rest : ℕ
  heap : Heap
  quotient : ℕ
  returns : result ≡ some (rest, heap)
  written : Written h z i 0 quotient heap
  exact : quotient * y + rest ≡ number
  less : rest < y

module _ (z x : Nat) (y : ℕ) (v : Inverted y) (apart : z.blk ≢ x.blk) where
  step :
      (i r : ℕ) (h : Heap) {a q r' w : ℕ}
      → word_at h x.blk (x.off + i) ≡ some a
      → div_ww r a y v.m ≡ some (q, r')
      → word_at h z.blk (z.off + i) ≡ some w
      → div_words z x y v.m (suc i) r h
        ≡ div_words z x y v.m i r' (put_words h z.blk (z.off + i) (q ∷ []))
  unfolding div_words get
  step i r h {a} {q} at_x e at_z =
      rw (div_words, ◌>>=◌, load-some h x.blk (x.off + i) at_x, e, put-put_words h z i q at_z) refl

  done : (r : ℕ) (h : Heap) → div_words z x y v.m zero r h ≡ some (r, h)
  unfolding div_words
  done r h = refl

  div_words-Quotient :
      (i r : ℕ) (h : Heap) {xs zs : List ℕ}
      → words h x.blk x.off i ≡ some xs
      → words h z.blk z.off i ≡ some zs
      → AllWords xs
      → r < y
      → Quotient h z y i (value xs + radix i * r) (div_words z x y v.m i r h)
  div_words-Quotient zero r h {xs} hx hz all lt =
      let none' : value xs ≡ 0 = ap value (words-zero h x.blk x.off hx) in
      record {
        rest = r;
        heap = h;
        quotient = 0;
        returns = done r h;
        written = nothing-Written h z;
        exact = omega (arith, none');
        less = lt;
      }
  div_words-Quotient (suc i) r h {xs} hx hz all lt =
      let (xs', a, at_xs, at_a, split) = words-snoc h x.blk x.off i hx in
      let (zs', w, at_zs, at_w, split_z) = words-snoc h z.blk z.off i hz in
      let all' : AllWords (xs' ++ (a ∷ [])) = rw split at all in
      let a_lt = (AllWords-back xs' (a ∷ []) all').0 in
      let (q, r', e, d) = div_ww-IsQuotient r a y v a_lt lt in
      let h1 : Heap = put_words h z.blk (z.off + i) (q ∷ []) in
      let next =
        div_words-Quotient i r' h1
          (words-put_words h z.blk (z.off + i) (q ∷ []) x.blk x.off i (inl (λ e. apart (sym e)))
            ∙ at_xs)
          (words-put_words h z.blk (z.off + i) (q ∷ []) z.blk z.off i (inr (inl (omega arith)))
            ∙ at_zs)
          (AllWords-front xs' (a ∷ []) all') d.less in
      let size = length-words h x.blk x.off i at_xs in
      record {
        rest = next.rest;
        heap = next.heap;
        quotient = next.quotient + radix i * q;
        returns = step i r h at_a e at_w ∙ next.returns;
        written = top-Written h z next.heap i q next.quotient at_w d.word next.written;
        exact = omega (
          arith,
          next.exact,
          ap (λ (n : ℕ). radix i * n) d.exact,
          ap value split,
          value-snoc xs' a,
          ap (λ (n : ℕ). radix n * a) size,
        );
        less = next.less;
      }

Quotient-move :
    (h : Heap) (z : Nat) (y : ℕ) {i i' number number' : ℕ} {result result' : Option (ℕ × Heap)}
    → i ≡ i'
    → number ≡ number'
    → result' ≡ result
    → Quotient h z y i number result
    → Quotient h z y i' number' result'
Quotient-move h z y e e' e'' q = rw (← e, ← e', e'') q

-- A view of one word, and of more.
module _ (h : Heap) (z x : Nat) (y n : ℕ) {xs zs : List ℕ} (apart : z.blk ≢ x.blk)
    (len_z : z.len ≡ n) (len_x : x.len ≡ n) (hx : words h x.blk x.off n ≡ some xs)
    (hz : words h z.blk z.off n ≡ some zs) (all : AllWords xs) (pos : 0 < y) (word : y < B) where
  one_word : n ≡ 1 → Quotient h z y n (value xs) (nat_div_wvw z 0 x y h)
  unfolding nat_div_wvw get
  one_word one =
      let (a, rest, at_a, at_rest, split) =
        words-suc h x.blk x.off 0 (words-place h x.blk refl (sym one) ∙ hx) in
      let (w, rest', at_w, at_rest', split') =
        words-suc h z.blk z.off 0 (words-place h z.blk refl (sym one) ∙ hz) in
      let all' : AllWords (a ∷ rest) = rw split at all in
      let none' =
        length-zero rest (omega (arith, length-words h x.blk x.off n hx, ap length split)) in
      let (q, r, e, e', rem, rem', d) = u64_div-IsQuotient 0 a y word all'.0 pos in
      let here : z.off + 0 ≡ z.off = omega arith in
      let at_w' = ap (word_at h z.blk) here ∙ at_w in
      Quotient-move h z y (sym one) refl
        (rw
          (
            eq→== x.len 1 (len_x ∙ one),
            ◌>>=◌,
            load-some h x.blk (x.off + 0) (ap (word_at h x.blk) (omega arith) ∙ at_a),
            e',
            put-put_words h z 0 q at_w',
          )
          refl)
        (record {
          rest = r;
          heap = put_words h z.blk (z.off + 0) (q ∷ []);
          quotient = 0 + radix 0 * q;
          returns = refl;
          written = top-Written h z _ 0 q 0 at_w' d.word (nothing-Written _ z);
          exact = omega (arith, d.exact, ap value split, ap value none');
          less = d.less;
        })

  more_words : n ≢ 1 → Quotient h z y n (value xs) (nat_div_wvw z 0 x y h)
  unfolding nat_div_wvw
  more_words more =
      let v = reciprocal_word-Inverted y pos word in
      Quotient-move h z y refl (omega arith)
        (rw (ne→== x.len 1 (λ e. more (sym len_x ∙ e)), ◌>>=◌, v.returns, len_z) refl)
        (div_words-Quotient z x y v apart n 0 h hx hz all pos)

  nat_div_wvw-Quotient : Quotient h z y n (value xs) (nat_div_wvw z 0 x y h)
  nat_div_wvw-Quotient = elim (Bool-cases (n == 1)) [
    | inl e ↦ one_word (==→eq n 1 e)
    | inr e ↦ more_words (==→ne n 1 e)
  ]

-- A view of the quotient of `number` by `y`, with the remainder stored through `r`.
pub record DividesBy (h : Heap) (number y : ℕ) (result : Option ((Nat × Option ℕ) × Heap))
    : Type 0 where
  pub view : Nat
  pub heap : Heap
  pub digits : List ℕ
  pub rest : ℕ
  pub returns : result ≡ some ((view, some rest), heap)
  pub holds : Holds heap view digits
  pub exact : value digits * y + rest ≡ number
  pub less : rest < y
  pub keeps : Keeps h heap
  pub ready : IsReady heap

-- `natDivW` of a view with at least one word by a word above 1 allocates a view of the quotient,
-- stores the remainder through `r`, and changes nothing that was there before, where memory is
-- granted.
pub nat_div_w-DividesBy :
    (h : Heap) (x : Nat) (y : ℕ) {xs : List ℕ}
    → IsReady h
    → Holds h x xs
    → 0 < x.len
    → 1 < y
    → y < B
    → DividesBy h (value xs) y (nat_div_w x y h)
unfolding nat_div_w
nat_div_w-DividesBy h x y {xs} r vx pos big word =
    let n : ℕ = x.len in
    let g : Heap = grow h n in
    let q =
      nat_div_wvw-Quotient g (new_nat h n) x y n (λ e. absurd (omega (arith, vx.old))) refl refl
        (words-grow h n x.blk x.off n vx.old ∙ vx.at) (words-grow_new h n 0 n (omega arith)) vx.all
        (omega arith) word in
    let w = Written-Returns h q.heap n q.quotient r q.written in
    record {
      view = w.view;
      heap = w.heap;
      digits = w.digits;
      rest = q.rest;
      returns =
          rw
            (
              ne→== y 0 (λ e. absurd (omega arith)),
              ne→== y 1 (λ e. absurd (omega arith)),
              ne→== x.len 0 (λ e. absurd (omega arith)),
              ◌>>=◌,
              nat_new_len-grow h n r pos,
              q.returns,
              w.returns,
            )
            refl;
      holds = w.holds;
      exact = omega (arith, q.exact, ap (λ (t : ℕ). t * y) w.total);
      less = q.less;
      keeps = w.keeps;
      ready = w.ready;
    }
