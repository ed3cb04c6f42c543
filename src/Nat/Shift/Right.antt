-- ===== src/Nat/Shift/Right.antt =====
-- `shrVU` divides by a power of 2.
use native.Mathlib.Nat.{div-add-mod, div-le_self, mod-eq_of_lt, mod-lt}
use demo.Common.{
  ℕ, zero, suc, ◌+◌, ◌-◌, ◌*◌, ◌/◌, ◌%◌, ◌^◌, ◌<◌, ◌≤◌, ◌≡◌, ◌≢◌, ◌⊎◌, refl, arith, ap, ap₂, sym,
  ◌∙◌, Option, some, List, [], ◌∷◌, length, inl, inr, bit_or, ◌==◌, Bool-cases, le→leb, eq→==,
  ==→eq, ==→ne,
}
use demo.Word.Carry.{u64}
use demo.Word.Count.Laws.{pow-pos}
use demo.Common.Effect.{>>=-cong, >>=-assoc, >>=-some}
use demo.Memory.{Heap, M, load, ◌>>=◌, ◌>>◌, pure, words, put_words, word_at}
use demo.Memory.Laws.{
  length-words, words-suc, words-zero, words-put_words, load-some, words-place, put_words-append,
  memcpy-some,
}
use demo.Nat.{Nat, get, put, nat_copy}
use demo.Nat.Value.{value, AllWords}
use demo.Nat.Laws.{Holds, put-put_words}
use demo.Nat.Mul.Round.{Written}
use demo.Nat.Mul.Written.{nothing-Written, put_words-Written}
use demo.Nat.Shift.Word.{masked_lem, other_shift_lem, shifted_word, fallen_word}
use demo.Nat.Shift.{other_shift, shr_loop, shr_some, shr_vu}

-- The words of a number without its last `s` bits.
abbrev shr_words : ℕ → List ℕ → List ℕ
shr_words s [] = []
shr_words s (a ∷ []) = a / 2 ^ s ∷ []
shr_words s (a ∷ b ∷ ws) = (b % 2 ^ s * 2 ^ (64 - s) + a / 2 ^ s) ∷ shr_words s (b ∷ ws)

length-shr_words : (s : ℕ) (ws : List ℕ) → length (shr_words s ws) ≡ length ws
length-shr_words s [] = refl
length-shr_words s (a ∷ []) = refl
length-shr_words s (a ∷ b ∷ ws) = ap suc (length-shr_words s (b ∷ ws))

abbrev head_of : List ℕ → ℕ
head_of [] = 0
head_of (a ∷ ws) = a

module _ (s : ℕ) (pos : 0 < s) (s_lt : s < 64) where
  shr_words-value :
      (ws : List ℕ)
      → AllWords ws
      → (value (shr_words s ws) * 2 ^ s + head_of ws % 2 ^ s ≡ value ws) × AllWords (shr_words s ws)
  shr_words-value [] all =
      let none' : 0 % 2 ^ s ≡ 0 = mod-eq_of_lt (pow-pos s) in (omega (arith, none'), tt)
  shr_words-value (a ∷ []) all =
      (omega (arith, div-add-mod a (2 ^ s)), (omega (arith, div-le_self a (2 ^ s), all.0), tt))
  shr_words-value (a ∷ b ∷ ws) all =
      let (joined, word, moved) = fallen_word s pos s_lt a b all.0 in
      let (sum, rest) = shr_words-value (b ∷ ws) all.1 in
      (omega (arith, div-add-mod a (2 ^ s), moved, sum), (word, rest))

  -- The loop of `shrVU` and the word that is written last.
  abbrev shr_rest : Nat → Nat → ℕ → ℕ → ℕ → M (Unit {0})
  shr_rest z x n i last = do shr_loop z x s n i; top ← get x last; put z last (top / 2 ^ s)

  shr_next :
      (z x : Nat) (n i : ℕ) (h : Heap) (last : ℕ) {a b out w : ℕ}
      → word_at h x.blk (x.off + i) ≡ some a
      → word_at h x.blk (x.off + i + 1) ≡ some b
      → word_at h z.blk (z.off + i) ≡ some w
      → bit_or (a / 2 ^ s) (u64 (b * 2 ^ other_shift s)) ≡ out
      → shr_rest z x (suc n) i last h
        ≡ shr_rest z x n (i + 1) last (put_words h z.blk (z.off + i) (out ∷ []))
  unfolding shr_loop get
  shr_next z x n i h last {a} {b} {out} at_a at_b at_w joined =
      rw
        (
          shr_loop,
          ◌>>=◌,
          load-some h x.blk (x.off + i) at_a,
          load-some h x.blk (x.off + (i + 1)) (ap (word_at h x.blk) (omega arith) ∙ at_b),
          joined,
          put-put_words h z i out at_w,
        )
        refl

  shr_rest-put_words :
      (z x : Nat) (n i : ℕ) (h : Heap) {ws zs : List ℕ} (last : ℕ)
      → last ≡ i + n
      → (z.blk ≢ x.blk) ⊎ (z.off ≤ x.off)
      → words h x.blk (x.off + i) (suc n) ≡ some ws
      → words h z.blk (z.off + i) (suc n) ≡ some zs
      → AllWords ws
      → shr_rest z x n i last h ≡ some (tt, put_words h z.blk (z.off + i) (shr_words s ws))
  unfolding shr_loop get
  shr_rest-put_words z x zero i h last e below hx hz all =
      let (a, rest, at_a, at_rest, split) = words-suc h x.blk (x.off + i) 0 hx in
      let (w, rest', at_w, at_rest', split') = words-suc h z.blk (z.off + i) 0 hz in
      let one = split ∙ ap (◌∷◌ a) (words-zero h x.blk (x.off + i + 1) at_rest) in
      let here : last ≡ i = omega arith in
      rw
        (
          here,
          one,
          ◌>>=◌,
          load-some h x.blk (x.off + i) at_a,
          here,
          put-put_words h z i (a / 2 ^ s) at_w,
        )
        refl
  shr_rest-put_words z x (suc n) i h last e below hx hz all =
      let (a, xs, at_a, at_xs, split) = words-suc h x.blk (x.off + i) (suc n) hx in
      let (b, ws, at_b, at_ws, split_xs) = words-suc h x.blk (x.off + i + 1) n at_xs in
      let (w, zs, at_w, at_zs, split_z) = words-suc h z.blk (z.off + i) (suc n) hz in
      let all' : AllWords (a ∷ b ∷ ws) = rw (split, split_xs) at all in
      let (joined, word, moved) = fallen_word s pos s_lt a b all'.0 in
      let out : ℕ = b % 2 ^ s * 2 ^ (64 - s) + a / 2 ^ s in
      let h1 : Heap = put_words h z.blk (z.off + i) (out ∷ []) in
      let tail =
        shr_rest-put_words z x n (i + 1) h1 last (omega arith) below
          (words-place h1 x.blk (omega arith) refl
            ∙ words-put_words h z.blk (z.off + i) (out ∷ []) x.blk (x.off + i + 1) (suc n)
                (ground arith)
            ∙ at_xs
            ∙ ap some split_xs)
          (words-place h1 z.blk (omega arith) refl
            ∙ words-put_words h z.blk (z.off + i) (out ∷ []) z.blk (z.off + i + 1) (suc n)
                (inr (inr (omega arith)))
            ∙ at_zs)
          all'.1 in
      shr_next z x n i h last at_a at_b at_w joined
      ∙ tail
      ∙ ap (λ k. some (tt, k))
          (put_words-append h z.blk (z.off + i) (out ∷ []) (shr_words s (b ∷ ws))
              {j = z.off + (i + 1)} (omega arith)
            ∙ ap (λ (l : List ℕ). put_words h z.blk (z.off + i) (shr_words s l))
                (sym (split ∙ ap (◌∷◌ a) split_xs)))

-- The words of `z` hold `number` without its last `s` bits, which are returned at the top of a word.
pub record Shr (h : Heap) (z : Nat) (n s number : ℕ) (result : Option (ℕ × Heap)) : Type 0 where
  pub heap : Heap
  pub quotient : ℕ
  pub rest : ℕ
  pub returns : result ≡ some (rest * 2 ^ (64 - s), heap)
  pub written : Written h z n 0 quotient heap
  pub total : quotient * 2 ^ s + rest ≡ number
  pub less : rest < 2 ^ s

Shr-move :
    {h : Heap} {z : Nat} {n n' s s' number : ℕ} {result result' : Option (ℕ × Heap)}
    → n ≡ n'
    → s ≡ s'
    → result' ≡ result
    → Shr h z n s number result
    → Shr h z n' s' number result'
Shr-move e e' e'' r = rw (← e, ← e', e'') r

-- `shrVU` takes the bits of the lowest word, and then does the rest.
shr_some-shr_rest :
    (s : ℕ) (pos : 0 < s) (s_lt : s < 64) (z x : Nat) (n : ℕ) (h : Heap) {a : ℕ}
    → word_at h x.blk (x.off + 0) ≡ some a
    → shr_some z x s n h
      ≡ (shr_rest s pos s_lt z x n 0 n >>= λ _. pure (u64 (a * 2 ^ other_shift s))) h
unfolding shr_some get
shr_some-shr_rest s pos s_lt z x n h {a} at_a =
    let finish : M ℕ = pure (u64 (a * 2 ^ other_shift s)) in
    let write : ℕ → M (Unit {0}) = λ top. put z n (top / 2 ^ s) in
    rw (◌>>=◌, load-some h x.blk (x.off + 0) at_a)
      (>>=-cong (shr_loop z x s n 0)
          (λ _. load x.blk (x.off + n) >>= λ top. write top >>= λ _. finish)
          (λ _. (load x.blk (x.off + n) >>= write) >>= λ _. finish) h
          (λ a' h'. sym (>>=-assoc (load x.blk (x.off + n)) write (λ _. finish) h'))
        ∙ sym (
            >>=-assoc (shr_loop z x s n 0) (λ _. load x.blk (x.off + n) >>= write) (λ _. finish) h))

shr_some-Shr :
    (h : Heap) (z x : Nat) (s n : ℕ) {xs zs : List ℕ} (pos : 0 < s) (s_lt : s < 64)
    → (z.blk ≢ x.blk) ⊎ (z.off ≤ x.off)
    → words h x.blk x.off (suc n) ≡ some xs
    → words h z.blk z.off (suc n) ≡ some zs
    → AllWords xs
    → Shr h z (suc n) s (value xs) (shr_some z x s n h)
shr_some-Shr h z x s n {xs} pos s_lt below hx hz all =
    let (a, rest, at_a, at_rest, split) = words-suc h x.blk x.off n hx in
    let start : z.off + 0 ≡ z.off = omega arith in
    let start_x : x.off + 0 ≡ x.off = omega arith in
    let out : List ℕ = shr_words s xs in
    let (sum, words') = shr_words-value s pos s_lt xs all in
    let run =
      shr_rest-put_words s pos s_lt z x n 0 h n (omega arith) below
        (words-place h x.blk start_x refl ∙ hx) (words-place h z.blk start refl ∙ hz) all in
    let run' = run ∙ ap (λ (k : ℕ). some (tt, put_words h z.blk k out)) start in
    let (wraps, parts, lt) = shifted_word (64 - s) (omega arith) a in
    let back : 64 - (64 - s) ≡ s = omega arith in
    let carry : u64 (a * 2 ^ other_shift s) ≡ head_of xs % 2 ^ s * 2 ^ (64 - s) =
      ap (λ (k : ℕ). u64 (a * 2 ^ k)) (other_shift_lem s pos s_lt)
      ∙ wraps
      ∙ ap₂ (λ (k w : ℕ). w % 2 ^ k * 2 ^ (64 - s)) back (ap head_of (sym split)) in
    record {
      heap = put_words h z.blk z.off out;
      quotient = value out;
      rest = head_of xs % 2 ^ s;
      returns =
          shr_some-shr_rest s pos s_lt z x n h (ap (word_at h x.blk) start_x ∙ at_a)
          ∙ >>=-some (shr_rest s pos s_lt z x n 0 n) (λ _. pure (u64 (a * 2 ^ other_shift s))) h
              run'
          ∙ ap (λ (c : ℕ). some (c, put_words h z.blk z.off out)) carry;
      written =
          put_words-Written h z out (suc n)
            (length-shr_words s xs ∙ length-words h x.blk x.off (suc n) hx) hz words';
      total = sum;
      less = mod-lt (head_of xs) (pow-pos s);
    }

copied-Shr :
    (h : Heap) (z x : Nat) (n : ℕ) {xs zs : List ℕ}
    → x.len ≡ n
    → x.len ≤ z.cap
    → words h x.blk x.off n ≡ some xs
    → words h z.blk z.off n ≡ some zs
    → AllWords xs
    → Shr h z n 0 (value xs) ((nat_copy z x >>= λ _. pure 0) h)
unfolding nat_copy
copied-Shr h z x n {xs} e room hx hz all = record {
  heap = put_words h z.blk z.off xs;
  quotient = value xs;
  rest = 0;
  returns =
      rw (le→leb x.len z.cap room, e, ◌>>=◌, memcpy-some h z.blk z.off x.blk x.off n hx hz) refl;
  written = put_words-Written h z xs n (length-words h x.blk x.off n hx) hz all;
  total = omega arith;
  less = omega arith;
}

empty-Shr :
    (h : Heap) (z x : Nat) (s : ℕ) {xs : List ℕ}
    → words h x.blk x.off 0 ≡ some xs
    → Shr h z 0 s (value xs) (some (0, h))
empty-Shr h z x s hx = record {
  heap = h;
  quotient = 0;
  rest = 0;
  returns = let none' : 0 * 2 ^ (64 - s) ≡ 0 = omega arith in rw none' refl;
  written = nothing-Written h z;
  total = omega (arith, ap value (words-zero h x.blk x.off hx));
  less = pow-pos s;
}

-- `shrVU` by less than a word, into a view that is as long as `x`, has the capacity, and lies in
-- another block or, where the shift is not 0, not behind `x` in its block: what is written is the
-- number divided by 2^s, and what is returned are the bits of the remainder, at the top of a word.
-- Nothing else changes.
pub shr_vu-Shr :
    (h : Heap) (z x : Nat) (s : ℕ) {xs zs : List ℕ}
    → s < 64
    → z.len ≡ x.len
    → x.len ≤ z.cap
    → (z.blk ≢ x.blk) ⊎ ((z.off ≤ x.off) × (0 < s))
    → Holds h x xs
    → words h z.blk z.off z.len ≡ some zs
    → Shr h z z.len s (value xs) (shr_vu z x s h)
unfolding shr_vu
shr_vu-Shr h z x s {xs} s_lt e room below vx hz =
    let read = words-place h x.blk refl e ∙ vx.at in
    let even = eq→== x.len z.len (sym e) in
    elim (Bool-cases (s == 0)) [
      | inl none' ↦
          Shr-move refl (sym (==→eq s 0 none')) (rw (even, none') refl)
            (copied-Shr h z x z.len (sym e) room read hz vx.all)
      | inr more ↦ elim (Bool-cases (z.len == 0)) [
        | inl empty ↦
            let none' = ==→eq z.len 0 empty in
            Shr-move (sym none') refl (rw (even, more, empty) refl)
              (empty-Shr h z x s (words-place h x.blk refl (sym none') ∙ read))
        | inr full ↦
            let pos : 0 < s = omega (arith, ==→ne s 0 more) in
            let len : suc (z.len - 1) ≡ z.len = omega (arith, ==→ne z.len 0 full) in
            Shr-move len refl
              (rw (even, more, full)
                (ap (λ (k : ℕ). shr_some z x k (z.len - 1) h) (masked_lem s s_lt)))
              (shr_some-Shr h z x s (z.len - 1) pos s_lt (either below)
                (words-place h x.blk refl len ∙ read) (words-place h z.blk refl len ∙ hz) vx.all)
      ]
    ]
  where
    either : (z.blk ≢ x.blk) ⊎ ((z.off ≤ x.off) × (0 < s)) → (z.blk ≢ x.blk) ⊎ (z.off ≤ x.off)
    either (inl p) = inl p
    either (inr p) = inr p.0
