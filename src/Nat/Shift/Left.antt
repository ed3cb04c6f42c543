-- ===== src/Nat/Shift/Left.antt =====
-- `shlVU` multiplies by a power of 2.
use native.Mathlib.Nat.{div-le_self}
use demo.Common.{
  ℕ, zero, suc, ◌+◌, ◌-◌, ◌*◌, ◌/◌, ◌%◌, ◌^◌, ◌<◌, ◌≤◌, ◌≡◌, ◌≢◌, ◌⊎◌, refl, arith, ap, sym, ◌∙◌,
  Option, some, List, [], ◌∷◌, ◌++◌, inl, inr, ◌==◌, Bool-cases, le→leb, ==→eq, ==→ne,
}
use demo.Word.Carry.{B, u64}
use demo.Common.Effect.{>>=-cong, >>=-assoc, >>=-some}
use demo.Memory.{Heap, load, M, ◌>>◌, pure, ◌>>=◌, words, put_words, word_at}
use demo.Memory.Laws.{
  length-words, words-snoc, words-zero, words-put_words, load-some, words-place, word_at-put_words,
  memcpy-some,
}
use demo.Nat.{Nat, get, put, nat_copy}
use demo.Nat.Value.{value, radix, AllWords, AllWords-front, AllWords-back, value-snoc}
use demo.Nat.Laws.{Holds, put-put_words}
use demo.Nat.Mul.Round.{Written}
use demo.Nat.Mul.Written.{top-Written, nothing-Written, put_words-Written}
use demo.Nat.Shift.Word.{masked_lem, other_shift_lem, shifted_word, joined_word}
use demo.Nat.Shift.{other_shift, shl_loop, shl_some, shl_vu}

module _ (s : ℕ) (pos : 0 < s) (s_lt : s < 64) where
  abbrev P : ℕ
  P = 2 ^ s

  abbrev Q : ℕ
  Q = 2 ^ (64 - s)

  -- Writes to `z` that go down from its top do not change the words of `x` that are read later.
  abbrev Above : Nat → Nat → Type 0
  Above z x = (z.blk ≢ x.blk) ⊎ (x.off ≤ z.off)

  -- The loop of `shlVU` and the word that is written last.
  abbrev shl_rest : Nat → Nat → ℕ → M (Unit {0})
  shl_rest z x i = do shl_loop z x s i; low ← get x 0; put z 0 (u64 (low * P))

  -- What is written below the bits that go out of the top word `a`.
  record ShiftedLeft (h : Heap) (z : Nat) (n a number : ℕ) (result : Option (Unit {0} × Heap))
      : Type 0 where
    heap : Heap
    low : ℕ
    returns : result ≡ some (tt, heap)
    written : Written h z n 0 low heap
    total : low + radix n * (a / Q) ≡ number * P

  last_word :
      (z x : Nat) (h : Heap) {a w : ℕ}
      → word_at h x.blk (x.off + 0) ≡ some a
      → word_at h z.blk (z.off + 0) ≡ some w
      → shl_rest z x 0 h ≡ some (tt, put_words h z.blk (z.off + 0) (a % Q * P ∷ []))
  unfolding shl_loop get
  last_word z x h {a} at_a at_w =
      rw
        (
          ◌>>=◌,
          load-some h x.blk (x.off + 0) at_a,
          (shifted_word s s_lt a).0,
          put-put_words h z 0 (a % Q * P) at_w,
        )
        refl

  next_word :
      (z x : Nat) (i : ℕ) (h : Heap) {a b w : ℕ}
      → word_at h x.blk (x.off + suc i) ≡ some a
      → word_at h x.blk (x.off + i) ≡ some b
      → word_at h z.blk (z.off + suc i) ≡ some w
      → b < B
      → shl_rest z x (suc i) h
        ≡ shl_rest z x i (put_words h z.blk (z.off + suc i) ((a % Q * P + b / Q) ∷ []))
  unfolding shl_loop get
  next_word z x i h {a} {b} at_a at_b at_w lt =
      rw
        (
          shl_loop,
          ◌>>=◌,
          load-some h x.blk (x.off + suc i) at_a,
          load-some h x.blk (x.off + i) at_b,
          (joined_word s pos s_lt a b lt).0,
          put-put_words h z (suc i) (a % Q * P + b / Q) at_w,
        )
        refl

  shl_rest-ShiftedLeft :
      (z x : Nat) (i a : ℕ) (h : Heap) {xs zs : List ℕ}
      → Above z x
      → words h x.blk x.off i ≡ some xs
      → word_at h x.blk (x.off + i) ≡ some a
      → words h z.blk z.off (suc i) ≡ some zs
      → AllWords xs
      → ShiftedLeft h z (suc i) a (value xs + radix i * a) (shl_rest z x i h)
  shl_rest-ShiftedLeft z x zero a h {xs} above hx at_a hz all =
      let (zs', w, at_zs, at_w, split_z) = words-snoc h z.blk z.off 0 hz in
      let (wraps, split, word) = shifted_word s s_lt a in
      let none' : value xs ≡ 0 = ap value (words-zero h x.blk x.off hx) in
      record {
        heap = put_words h z.blk (z.off + 0) (a % Q * P ∷ []);
        low = 0 + radix 0 * (a % Q * P);
        returns = last_word z x h at_a at_w;
        written = top-Written h z _ 0 (a % Q * P) 0 at_w word (nothing-Written _ z);
        total = omega (arith, split, ap (λ (n : ℕ). n * P) none');
      }
  shl_rest-ShiftedLeft z x (suc i) a h {xs} above hx at_a hz all =
      let (zs', w, at_zs, at_w, split_z) = words-snoc h z.blk z.off (suc i) hz in
      let (xs', b, at_xs, at_b, split) = words-snoc h x.blk x.off i hx in
      let all' : AllWords (xs' ++ (b ∷ [])) = rw split at all in
      let b_lt = (AllWords-back xs' (b ∷ []) all').0 in
      let out : ℕ = a % Q * P + b / Q in
      let h1 : Heap = put_words h z.blk (z.off + suc i) (out ∷ []) in
      let size = length-words h x.blk x.off i at_xs in
      let rest =
        shl_rest-ShiftedLeft z x i b h1 above
          (words-put_words h z.blk (z.off + suc i) (out ∷ []) x.blk x.off i (ground arith) ∙ at_xs)
          (word_at-put_words h z.blk (z.off + suc i) (out ∷ []) x.blk (x.off + i) (ground arith)
            ∙ at_b)
          (words-put_words h z.blk (z.off + suc i) (out ∷ []) z.blk z.off (suc i)
              (inr (inl (omega arith)))
            ∙ at_zs)
          (AllWords-front xs' (b ∷ []) all') in
      record {
        heap = rest.heap;
        low = rest.low + radix (suc i) * out;
        returns = next_word z x i h at_a at_b at_w b_lt ∙ rest.returns;
        written =
            top-Written h z rest.heap (suc i) out rest.low at_w (joined_word s pos s_lt a b b_lt).1
              rest.written;
        total = omega (
          arith,
          rest.total,
          ap (λ (n : ℕ). radix (suc i) * n) (shifted_word s s_lt a).1,
          ap (λ (n : ℕ). n * P) (ap value split ∙ value-snoc xs' b),
          ap (λ (n : ℕ). radix n * b * P) size,
        );
      }

-- The words of `z` hold `number * 2 ^ s` without the bits above them, which are returned.
pub record Shl (h : Heap) (z : Nat) (n s number : ℕ) (result : Option (ℕ × Heap)) : Type 0 where
  pub heap : Heap
  pub low : ℕ
  pub high : ℕ
  pub returns : result ≡ some (high, heap)
  pub written : Written h z n 0 low heap
  pub total : low + radix n * high ≡ number * 2 ^ s
  pub word : high < B

-- `shlVU` takes the top word, and then does the rest.
shl_some-shl_rest :
    (s : ℕ) (pos : 0 < s) (s_lt : s < 64) (z x : Nat) (n : ℕ) (h : Heap) {a : ℕ}
    → word_at h x.blk (x.off + n) ≡ some a
    → shl_some z x s n h ≡ (shl_rest s pos s_lt z x n >>= λ _. pure (a / 2 ^ other_shift s)) h
unfolding shl_some get
shl_some-shl_rest s pos s_lt z x n h {a} at_a =
    let finish : M ℕ = pure (a / 2 ^ other_shift s) in
    let write : ℕ → M (Unit {0}) = λ low. put z 0 (u64 (low * 2 ^ s)) in
    rw (◌>>=◌, load-some h x.blk (x.off + n) at_a)
      (>>=-cong (shl_loop z x s n)
          (λ _. load x.blk (x.off + 0) >>= λ low. write low >>= λ _. finish)
          (λ _. (load x.blk (x.off + 0) >>= write) >>= λ _. finish) h
          (λ a' h'. sym (>>=-assoc (load x.blk (x.off + 0)) write (λ _. finish) h'))
        ∙ sym
            (>>=-assoc (shl_loop z x s n) (λ _. load x.blk (x.off + 0) >>= write) (λ _. finish) h))

-- One word or more, and a shift that is not 0.
shl_some-Shl :
    (h : Heap) (z x : Nat) (s n : ℕ) {xs zs : List ℕ} (pos : 0 < s) (s_lt : s < 64)
    → z.blk ≢ x.blk
    → words h x.blk x.off (suc n) ≡ some xs
    → words h z.blk z.off (suc n) ≡ some zs
    → AllWords xs
    → Shl h z (suc n) s (value xs) (shl_some z x s n h)
unfolding shl_some get
shl_some-Shl h z x s n {xs} pos s_lt apart hx hz all =
    let (xs', a, at_xs, at_a, split) = words-snoc h x.blk x.off n hx in
    let all' : AllWords (xs' ++ (a ∷ [])) = rw split at all in
    let a_lt = (AllWords-back xs' (a ∷ []) all').0 in
    let r =
      shl_rest-ShiftedLeft s pos s_lt z x n a h (inl apart) at_xs at_a hz
        (AllWords-front xs' (a ∷ []) all') in
    let size = length-words h x.blk x.off n at_xs in
    record {
      heap = r.heap;
      low = r.low;
      high = a / 2 ^ (64 - s);
      returns =
          shl_some-shl_rest s pos s_lt z x n h at_a
          ∙ >>=-some (shl_rest s pos s_lt z x n) (λ _. pure (a / 2 ^ other_shift s)) h r.returns
          ∙ ap (λ (k : ℕ). some (a / 2 ^ k, r.heap)) (other_shift_lem s pos s_lt);
      written = r.written;
      total = omega (
        arith,
        r.total,
        ap (λ (k : ℕ). k * 2 ^ s) (ap value split ∙ value-snoc xs' a),
        ap (λ (k : ℕ). radix k * a * 2 ^ s) size,
      );
      word = omega (arith, div-le_self a (2 ^ (64 - s)));
    }

copied-Shl :
    (h : Heap) (z x : Nat) (n : ℕ) {xs zs : List ℕ}
    → x.len ≡ n
    → x.len ≤ z.cap
    → words h x.blk x.off n ≡ some xs
    → words h z.blk z.off n ≡ some zs
    → AllWords xs
    → Shl h z n 0 (value xs) ((nat_copy z x >>= λ _. pure 0) h)
unfolding nat_copy
copied-Shl h z x n {xs} e room hx hz all = record {
  heap = put_words h z.blk z.off xs;
  low = value xs;
  high = 0;
  returns =
      rw (le→leb x.len z.cap room, e, ◌>>=◌, memcpy-some h z.blk z.off x.blk x.off n hx hz) refl;
  written = put_words-Written h z xs n (length-words h x.blk x.off n hx) hz all;
  total = omega arith;
  word = omega arith;
}

empty-Shl :
    (h : Heap) (z x : Nat) (s : ℕ) {xs : List ℕ}
    → words h x.blk x.off 0 ≡ some xs
    → Shl h z 0 s (value xs) (some (0, h))
empty-Shl h z x s hx = record {
  heap = h;
  low = 0;
  high = 0;
  returns = refl;
  written = nothing-Written h z;
  total = omega (arith, ap (λ (k : ℕ). k * 2 ^ s) (ap value (words-zero h x.blk x.off hx)));
  word = omega arith;
}

Shl-move :
    {h : Heap} {z : Nat} {n n' s s' number : ℕ} {result result' : Option (ℕ × Heap)}
    → n ≡ n'
    → s ≡ s'
    → result' ≡ result
    → Shl h z n s number result
    → Shl h z n' s' number result'
Shl-move e e' e'' r = rw (← e, ← e', e'') r

-- `shlVU` by less than a word, into a view that is as long as `x`, has the capacity and lies in
-- another block: what is written and the bits that are returned are the number times 2^s. Nothing
-- else changes.
pub shl_vu-Shl :
    (h : Heap) (z x : Nat) (s : ℕ) {xs zs : List ℕ}
    → s < 64
    → z.len ≡ x.len
    → x.len ≤ z.cap
    → z.blk ≢ x.blk
    → Holds h x xs
    → words h z.blk z.off z.len ≡ some zs
    → Shl h z z.len s (value xs) (shl_vu z x s h)
unfolding shl_vu
shl_vu-Shl h z x s {xs} s_lt e room apart vx hz =
    let read = words-place h x.blk refl e ∙ vx.at in
    elim (Bool-cases (s == 0)) [
      | inl none' ↦
          Shl-move refl (sym (==→eq s 0 none')) (rw none' refl)
            (copied-Shl h z x z.len (sym e) room read hz vx.all)
      | inr more ↦ elim (Bool-cases (z.len == 0)) [
        | inl empty ↦
            let none' = ==→eq z.len 0 empty in
            Shl-move (sym none') refl (rw (more, empty) refl)
              (empty-Shl h z x s (words-place h x.blk refl (sym none') ∙ read))
        | inr full ↦
            let pos : 0 < s = omega (arith, ==→ne s 0 more) in
            let len : suc (z.len - 1) ≡ z.len = omega (arith, ==→ne z.len 0 full) in
            Shl-move len refl
              (rw (more, full) (ap (λ (k : ℕ). shl_some z x k (z.len - 1) h) (masked_lem s s_lt)))
              (shl_some-Shl h z x s (z.len - 1) pos s_lt apart (words-place h x.blk refl len ∙ read)
                (words-place h z.blk refl len ∙ hz) vx.all)
      ]
    ]
