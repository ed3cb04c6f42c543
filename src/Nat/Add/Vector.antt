-- ===== src/Nat/Add/Vector.antt =====
-- `addVV` and `addVW`: what they write to `z`.
use demo.Common.{
  ℕ, zero, suc, ◌+◌, ◌*◌, ◌^◌, ◌<◌, ◌≤◌, ◌≡◌, refl, arith, ap, List, [], ◌∷◌, length, ◌⊎◌, inl, inr,
  min, some, Option, ltb, le→ltb, lt→ltb, eq→==, Bool-cases, ltb→lt,
}
use demo.Word.Carry.{B, uint_add}
use demo.Memory.{Heap, ◌>>=◌, words, put_words}
use demo.Memory.Laws.{length-words, memcpy-some}
use demo.Nat.{Nat}
use demo.Nat.Value.{value, radix, AllWords, scan, length-scan}
use demo.Nat.Loop.{Behind, word_loop-start}
use demo.Nat.Add.{add_vv, pass_carry, add_vw, add_vw_large, large_loop}
use demo.Nat.Add.Scan.{scan-pass_carry, scan-pass_twice, NoRipple}

-- `addVV` writes the words of the sum of the first `n` words.
pub add_vv-scan :
    (z x y : Nat) (n : ℕ) (h : Heap) {xs ys zs : List ℕ}
    → min z.len (min x.len y.len) ≡ n
    → n < 2 ^ 31
    → words h x.blk x.off n ≡ some xs
    → words h y.blk y.off n ≡ some ys
    → words h z.blk z.off n ≡ some zs
    → Behind z x n
    → Behind z y n
    → add_vv z x y h
      ≡ some ((scan uint_add xs ys 0).1, put_words h z.blk z.off (scan uint_add xs ys 0).0)
unfolding add_vv
add_vv-scan z x y n h e few hx hy hz bx by =
    rw (e, lt→ltb n (2 ^ 31) few) (word_loop-start uint_add z x y n 0 h hx hy hz bx by)

-- The carry stops at once: it is 0, or the first of few words takes it.
abbrev pub Stops : List ℕ → ℕ → Type 0
Stops xs c = (c ≡ 0) ⊎ ((length xs ≤ 32) × NoRipple xs c)

-- What `addVW` writes for the words `xs`: with the carry that it returns on top, `number`.
pub record AddsCarry (h : Heap) (z : Nat) (xs : List ℕ) (number : ℕ) (result : Option (ℕ × Heap))
    : Type 0 where
  pub out : List ℕ
  pub carry : ℕ
  pub returns : result ≡ some (carry, put_words h z.blk z.off out)
  pub total : value out + radix (length xs) * carry ≡ number
  pub all : AllWords out
  pub word : carry < B
  pub size : length out ≡ length xs

NoRipple-Stops : (xs : List ℕ) (c : ℕ) → AllWords xs → Stops xs c → NoRipple xs c
NoRipple-Stops xs c all (inr (short, fits)) = fits
NoRipple-Stops [] c all (inl e) = tt
NoRipple-Stops (x ∷ []) c all (inl e) = tt
NoRipple-Stops (x ∷ x' ∷ xs) c all (inl e) = omega (arith, all.0)

Stops-zero : (xs : List ℕ) (c : ℕ) → Stops xs c → 32 < length xs → c ≡ 0
Stops-zero xs c (inl e) long = e
Stops-zero xs c (inr (short, fits)) long = absurd (omega arith)

min_same : (m n : ℕ) → m ≡ n → min m n ≡ n
min_same m n e = omega arith

large_loop-stop :
    (z x : Nat) (n c : ℕ) (h : Heap) {xs zs : List ℕ}
    → 0 < n
    → c ≡ 0
    → words h x.blk x.off x.len ≡ some xs
    → words h z.blk z.off x.len ≡ some zs
    → large_loop uint_add z x n 0 c 0 h ≡ some (c, put_words h z.blk z.off xs)
unfolding large_loop
large_loop-stop z x zero c h pos e hx hz = absurd (omega arith)
large_loop-stop z x (suc n) c h {xs} pos e hx hz =
    let at_zero : z.off + 0 ≡ z.off = omega arith in
    let at_zero' : x.off + 0 ≡ x.off = omega arith in
    rw (
      large_loop,
      eq→== c 0 e,
      at_zero,
      at_zero',
      ◌>>=◌,
      memcpy-some h z.blk z.off x.blk x.off x.len hx hz,
    )

pub add_vw-AddsCarry :
    (z x : Nat) (c : ℕ) (h : Heap) {xs zs : List ℕ}
    → z.len ≡ x.len
    → words h x.blk x.off x.len ≡ some xs
    → words h z.blk z.off x.len ≡ some zs
    → Behind z x x.len
    → AllWords xs
    → c < B
    → Stops xs c
    → AddsCarry h z xs (value xs + c) (add_vw z x c h)
unfolding add_vw add_vw_large
add_vw-AddsCarry z x c h {xs} e hx hz bx all hc stops = elim (Bool-cases (ltb 32 z.len)) [
  | inl many ↦
      let none' =
        Stops-zero xs c stops
          (omega (arith, ltb→lt 32 z.len many, length-words h x.blk x.off x.len hx)) in
      record {
        out = xs;
        carry = c;
        returns =
            rw (many, add_vw_large, min_same z.len x.len e)
              (large_loop-stop z x x.len c h (omega (arith, ltb→lt 32 z.len many)) none' hx hz);
        total = omega (arith, ap (λ (t : ℕ). radix (length xs) * t) none');
        all = all;
        word = hc;
        size = refl;
      }
  | inr few ↦
      let (total, words, word) =
        scan-pass_carry xs xs c refl all hc (NoRipple-Stops xs c all stops) in
      record {
        out = (scan (pass_carry uint_add) xs xs (c, 0)).0;
        carry = (scan (pass_carry uint_add) xs xs (c, 0)).1.0;
        returns = rw (
          add_vw,
          few,
          min_same z.len x.len e,
          ◌>>=◌,
          word_loop-start (pass_carry uint_add) z x x x.len (c, 0) h hx hx hz bx bx,
        );
        total = total;
        all = words;
        word = word;
        size = length-scan (pass_carry uint_add) xs xs (c, 0) refl;
      }
]

-- Where the first word hands a carry on, `addVW` adds `B` too much.
pub add_vw-twice :
    (z x : Nat) (c : ℕ) (h : Heap) (w w' : ℕ) (ws : List ℕ) {zs : List ℕ}
    → z.len ≡ x.len
    → words h x.blk x.off x.len ≡ some (w ∷ w' ∷ ws)
    → words h z.blk z.off x.len ≡ some zs
    → Behind z x x.len
    → AllWords (w ∷ w' ∷ ws)
    → c < B
    → x.len ≤ 32
    → B ≤ w + c
    → w' + 2 < B
    → AddsCarry h z (w ∷ w' ∷ ws) (value (w ∷ w' ∷ ws) + c + B) (add_vw z x c h)
unfolding add_vw
add_vw-twice z x c h w w' ws e hx hz bx all hc few over room =
    let xs : List ℕ = w ∷ w' ∷ ws in
    let (total, words, none') = scan-pass_twice w w' ws w w' ws c refl all hc over room in
    record {
      out = (scan (pass_carry uint_add) xs xs (c, 0)).0;
      carry = (scan (pass_carry uint_add) xs xs (c, 0)).1.0;
      returns = rw (
        add_vw,
        le→ltb 32 z.len (omega arith),
        min_same z.len x.len e,
        ◌>>=◌,
        word_loop-start (pass_carry uint_add) z x x x.len (c, 0) h hx hx hz bx bx,
      );
      total = rw none' (omega (arith, total));
      all = words;
      word = omega (arith, none');
      size = length-scan (pass_carry uint_add) xs xs (c, 0) refl;
    }
