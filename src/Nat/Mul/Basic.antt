-- ===== src/Nat/Mul/Basic.antt =====
-- `basicMul` multiplies: the words that its loop has written after each round.
use native.Mathlib.Numerals.{add-one}
use demo.Common.{
  ap₂, ℕ, zero, suc, ◌+◌, ◌*◌, ◌-◌, ◌≡◌, ◌≢◌, refl, arith, ap, sym, ◌∙◌, some, Option, List, [],
  ◌∷◌, ◌++◌, length, inl, inr, replicate, length-replicate, Bool-cases, ◌==◌, ==→eq, ==→ne,
}
use demo.Word.Carry.{B}
use demo.Memory.{Heap, ◌>>=◌, words, put_words, word_at}
use demo.Memory.Laws.{
  words-suc, words-zero, words-parts, words-place, words-cons, words-put_words,
  words-put_words_self, put_words-append, next-put_words, fails-put_words,
}
use demo.Nat.{Nat, nat_clear, clear_loop}
use demo.Nat.Value.{value, radix, AllWords, AllWords-replicate, value-replicate}
use demo.Nat.Laws.{Holds, part_of, nat_part-part_of, put-put_words}
use demo.Nat.Mul.{basic_mul_loop, basic_mul}
use demo.Nat.Mul.Round.{Written, round-Written, round-loop, skip-Written, skip-loop}

-- A run of the loop from a round on.
abbrev pub Finished : Heap → Nat → ℕ → ℕ → Option (Unit {0} × Heap) → Type 0
Finished h z k number result = (h' : Heap) × (result ≡ some (tt, h')) × Written h z k 0 number h'

Finished-move :
    (h : Heap) (z : Nat) {k k' number number' : ℕ} {result result' : Option (Unit {0} × Heap)}
    → k ≡ k'
    → number ≡ number'
    → result' ≡ result
    → Finished h z k number result
    → Finished h z k' number' result'
Finished-move h z p q r (h', e, written) = (h', r ∙ e, rw (← p, ← q) written)

radix-next : (i : ℕ) → radix (i + 1) ≡ B * radix i
radix-next i = rw (add-one i) refl

next_number :
    (number i w v : ℕ) (xs : List ℕ)
    → number + radix i * (value xs * w) + radix (i + 1) * (value xs * v)
      ≡ number + radix i * (value xs * (w + B * v))
next_number number i w v xs = omega (arith, ap (λ (t : ℕ). t * (value xs * v)) (radix-next i))

-- A word that was not written.
word-same :
    (h h' : Heap) (b i : ℕ) {w : ℕ}
    → words h' b i 1 ≡ words h b i 1
    → word_at h b i ≡ some w
    → word_at h' b i ≡ some w
word-same h h' b i {w} e at =
    let one : words h b i 1 ≡ some (w ∷ []) = words-cons h b i 0 at (unfold words in refl) in
    let (v, rest, at_v, at_rest, split) = words-suc h' b i 0 (e ∙ one) in at_v ∙ cc

module _ (h : Heap) (z x y : Nat) {xs : List ℕ} (hx : words h x.blk x.off x.len ≡ some xs)
    (all : AllWords xs) (apart_x : z.blk ≢ x.blk) (apart_y : z.blk ≢ y.blk) where
  loop_done : (i : ℕ) (h' : Heap) → basic_mul_loop z x y zero i h' ≡ some (tt, h')
  unfolding basic_mul_loop
  loop_done i h' = refl

  loop-Finished :
      (n i number : ℕ) (h' : Heap) {ys : List ℕ}
      → Written h z (i + x.len) n number h'
      → words h y.blk (y.off + i) n ≡ some ys
      → AllWords ys
      → Finished h z
          (i + n + x.len)
          (number + radix i * (value xs * value ys))
          (basic_mul_loop z x y n i h')
  loop-Finished zero i number h' {ys} sofar hy q =
      let empty : value ys ≡ 0 = ap value (words-zero h y.blk (y.off + i) hy) in
      Finished-move h z (omega arith)
        (omega (arith, ap (λ (v : ℕ). radix i * (value xs * v)) empty)) refl
        (h', loop_done i h', sofar)
  loop-Finished (suc n) i number h' {ys} sofar hy q =
      let (w, rest, at_w, at_rest, split) = words-suc h y.blk (y.off + i) n hy in
      let q' : AllWords (w ∷ rest) = rw split at q in
      let hx' = sofar.same x.blk x.off x.len (inl (λ e. apart_x (sym e))) ∙ hx in
      let at_w' : word_at h' y.blk (y.off + i) ≡ some w =
        word-same h h' y.blk (y.off + i)
          (sofar.same y.blk (y.off + i) 1 (inl (λ e. apart_y (sym e)))) at_w in
      let at_rest' : words h y.blk (y.off + (i + 1)) n ≡ some rest =
        words-place h y.blk (omega arith) refl ∙ at_rest in
      elim (Bool-cases (w == 0)) [
        | inl e ↦
            let r =
              loop-Finished n (i + 1) number h'
                (skip-Written h z x i n w number h' sofar hx' all q'.0 apart_x) at_rest' q'.1 in
            Finished-move h z (omega arith)
              (omega (
                arith,
                next_number number i w (value rest) xs,
                ap (λ (v : ℕ). radix i * (value xs * v)) (ap value split),
                ap (λ (v : ℕ). radix i * (value xs * v)) (==→eq w 0 e),
              ))
              (skip-loop h z x i n w number h' sofar hx' all q'.0 apart_x y at_w' (==→eq w 0 e)) r
        | inr e ↦
            let r =
              loop-Finished n (i + 1) (number + radix i * (value xs * w)) _
                (round-Written h z x i n w number h' sofar hx' all q'.0 apart_x) at_rest' q'.1 in
            Finished-move h z (omega arith)
              (next_number number i w (value rest) xs
                ∙ ap (λ (v : ℕ). number + radix i * (value xs * v)) (sym (ap value split)))
              (round-loop h z x i n w number h' sofar hx' all q'.0 apart_x y at_w' (==→ne w 0 e)) r
      ]

clear_loop-put :
    (x : Nat) (n i : ℕ) (h : Heap) {ws : List ℕ}
    → words h x.blk (x.off + i) n ≡ some ws
    → clear_loop x n i h ≡ some (tt, put_words h x.blk (x.off + i) (replicate n 0))
unfolding clear_loop
clear_loop-put x zero i h e = unfold put_words in refl
clear_loop-put x (suc n) i h e =
    let (w, rest, at_w, at_rest, split) = words-suc h x.blk (x.off + i) n e in
    rw (clear_loop, ◌>>=◌, put-put_words h x i 0 at_w)
      (clear_loop-put x n (i + 1) (put_words h x.blk (x.off + i) (0 ∷ [])) (
          words-place _ x.blk (omega arith) refl
          ∙ words-put_words h x.blk (x.off + i) (0 ∷ []) x.blk (x.off + i + 1) n
              (inr (inr (omega arith)))
          ∙ at_rest)
        ∙ ap (λ k. some (tt, k))
            (put_words-append h x.blk (x.off + i) (0 ∷ []) (replicate n 0) {j = x.off + (i + 1)}
              (omega arith)))

replicate-append : (m n : ℕ) → replicate {A = ℕ} (m + n) 0 ≡ replicate m 0 ++ replicate n 0
replicate-append zero n =
    let same : 0 + n ≡ n = omega arith in ap (λ (k : ℕ). replicate {A = ℕ} k 0) same
replicate-append (suc m) n =
    let same : suc m + n ≡ suc (m + n) = omega arith in
    ap (λ (k : ℕ). replicate {A = ℕ} k 0) same ∙ ap (◌∷◌ 0) (replicate-append m n)

-- The heap after `natClear` of the words of `z`.
module _ (h : Heap) (z : Nat) (m n : ℕ) {zs : List ℕ}
    (hz : words h z.blk z.off (m + n) ≡ some zs) where
  abbrev cleared : Heap
  cleared = put_words h z.blk z.off (replicate (m + n) 0)

  nat_clear-cleared : nat_clear (part_of z 0 (m + n)) h ≡ some (tt, cleared)
  unfolding nat_clear
  nat_clear-cleared =
      let here : z.off + 0 + 0 ≡ z.off = omega arith in
      let size : m + n - 0 ≡ m + n = omega arith in
      clear_loop-put (part_of z 0 (m + n)) (m + n - 0) 0 h (words-place h z.blk here size ∙ hz)
      ∙ ap₂ (λ (k l : ℕ). some (tt, put_words h z.blk k (replicate l 0))) here size

  size : length {A = ℕ} (replicate (m + n) 0) ≡ m + n
  size = length-replicate (m + n) 0

  cleared-Written : Written h z (0 + m) n 0 cleared
  cleared-Written =
      let (low, high) =
        words-parts cleared z.blk z.off m n (m + n) (replicate m 0) (replicate n 0) refl
          (length-replicate m 0)
          (words-place cleared z.blk refl (sym size)
            ∙ words-put_words_self h z.blk z.off (replicate (m + n) 0)
                (words-place h z.blk refl size ∙ hz)
            ∙ ap some (replicate-append m n)) in
      let start : 0 + m ≡ m = omega arith in
      record {
        out = replicate m 0;
        at = words-place cleared z.blk refl start ∙ low;
        zeros = words-place cleared z.blk (ap (λ (k : ℕ). z.off + k) start) refl ∙ high;
        total = value-replicate m;
        all = AllWords-replicate m;
        same = λ b i k a.
            words-put_words h z.blk z.off (replicate (m + n) 0) b i k (ground (arith, size));
        next = next-put_words h z.blk z.off (replicate (m + n) 0);
        fails = fails-put_words h z.blk z.off (replicate (m + n) 0);
      }

basic_mul-loop :
    (h : Heap) (z x y : Nat) {zs : List ℕ} (hz : words h z.blk z.off (x.len + y.len) ≡ some zs)
    → basic_mul z x y h ≡ basic_mul_loop z x y y.len 0 (cleared h z x.len y.len hz)
unfolding basic_mul
basic_mul-loop h z x y hz =
    rw
      (
        ◌>>=◌,
        nat_part-part_of h z 0 (x.len + y.len) (omega arith),
        nat_clear-cleared h z x.len y.len hz,
      )
      refl

-- `basicMul` of two views writes their product into a view that is as long as both together and lies
-- in another block: it ends, reads and writes inside the views, and changes no other word.
pub basic_mul-Finished :
    (h : Heap) (z x y : Nat) {xs ys zs : List ℕ}
    → Holds h x xs
    → Holds h y ys
    → words h z.blk z.off (x.len + y.len) ≡ some zs
    → z.blk ≢ x.blk
    → z.blk ≢ y.blk
    → Finished h z (x.len + y.len) (value xs * value ys) (basic_mul z x y h)
basic_mul-Finished h z x y {xs} {ys} vx vy hz ax ay =
    let run =
      loop-Finished h z x y vx.at vx.all ax ay y.len 0 0 (cleared h z x.len y.len hz)
        (cleared-Written h z x.len y.len hz) (words-place h y.blk (omega arith) refl ∙ vy.at)
        vy.all in
    Finished-move h z (omega arith) (omega arith) (basic_mul-loop h z x y hz) run
