-- ===== src/Nat/Sub/Vector.antt =====
-- `subVV` and `subVW`: what they write to `z`.
use demo.Common.{
  ℕ, zero, suc, ◌+◌, ◌*◌, ◌<◌, ◌≤◌, ◌≡◌, refl, arith, ap, List, [], ◌∷◌, length, ◌⊎◌, inl, inr, min,
  some, Option, ltb, eq→==, Bool-cases, ltb→lt,
}
use demo.Word.Carry.{B, uint_sub}
use demo.Memory.{Heap, ◌>>=◌, words, put_words}
use demo.Memory.Laws.{length-words, memcpy-some}
use demo.Nat.{Nat}
use demo.Nat.Value.{value, radix, AllWords, scan, length-scan}
use demo.Nat.Loop.{Behind, word_loop-start}
use demo.Nat.Add.{pass_carry, large_loop}
use demo.Nat.Sub.{sub_vv, sub_vw, sub_vw_large}
use demo.Nat.Sub.Scan.{scan-pass_borrow, NoRipple}

-- `subVV` writes the words of the difference of the first `n` words.
pub sub_vv-scan :
    (z x y : Nat) (n : ℕ) (h : Heap) {xs ys zs : List ℕ}
    → min z.len (min x.len y.len) ≡ n
    → words h x.blk x.off n ≡ some xs
    → words h y.blk y.off n ≡ some ys
    → words h z.blk z.off n ≡ some zs
    → Behind z x n
    → Behind z y n
    → sub_vv z x y h
      ≡ some ((scan uint_sub xs ys 0).1, put_words h z.blk z.off (scan uint_sub xs ys 0).0)
unfolding sub_vv
sub_vv-scan z x y n h e hx hy hz bx by = rw e (word_loop-start uint_sub z x y n 0 h hx hy hz bx by)

-- The borrow stops at once: it is 0, or the first of few words gives it.
abbrev pub Stops : List ℕ → ℕ → Type 0
Stops xs c = (c ≡ 0) ⊎ ((length xs ≤ 32) × NoRipple xs c)

-- What `subVW` writes for the words `xs`: they are less by `number`, but for the borrow.
pub record TakesBorrow (h : Heap) (z : Nat) (xs : List ℕ) (number : ℕ) (result : Option (ℕ × Heap))
    : Type 0 where
  pub out : List ℕ
  pub borrow : ℕ
  pub returns : result ≡ some (borrow, put_words h z.blk z.off out)
  pub total : value out + number ≡ value xs + radix (length xs) * borrow
  pub all : AllWords out
  pub size : length out ≡ length xs

NoRipple-Stops : (xs : List ℕ) (c : ℕ) → AllWords xs → Stops xs c → NoRipple xs c
NoRipple-Stops xs c all (inr (short, fits)) = fits
NoRipple-Stops [] c all (inl e) = tt
NoRipple-Stops (x ∷ []) c all (inl e) = tt
NoRipple-Stops (x ∷ x' ∷ xs) c all (inl e) = omega (arith, all.0)

Stops-zero : (xs : List ℕ) (c : ℕ) → Stops xs c → 32 < length xs → c ≡ 0
Stops-zero xs c (inl e) long = e
Stops-zero xs c (inr (short, fits)) long = absurd (omega arith)

min_same : (m n : ℕ) → m ≡ n → min m n ≡ n
min_same m n e = omega arith

large_loop-stop :
    (z x : Nat) (n c : ℕ) (h : Heap) {xs zs : List ℕ}
    → 0 < n
    → c ≡ 0
    → words h x.blk x.off x.len ≡ some xs
    → words h z.blk z.off x.len ≡ some zs
    → large_loop uint_sub z x n 0 c 0 h ≡ some (c, put_words h z.blk z.off xs)
unfolding large_loop
large_loop-stop z x zero c h pos e hx hz = absurd (omega arith)
large_loop-stop z x (suc n) c h {xs} pos e hx hz =
    let at_zero : z.off + 0 ≡ z.off = omega arith in
    let at_zero' : x.off + 0 ≡ x.off = omega arith in
    rw (
      large_loop,
      eq→== c 0 e,
      at_zero,
      at_zero',
      ◌>>=◌,
      memcpy-some h z.blk z.off x.blk x.off x.len hx hz,
    )

pub sub_vw-TakesBorrow :
    (z x : Nat) (c : ℕ) (h : Heap) {xs zs : List ℕ}
    → z.len ≡ x.len
    → words h x.blk x.off x.len ≡ some xs
    → words h z.blk z.off x.len ≡ some zs
    → Behind z x x.len
    → AllWords xs
    → c < B
    → Stops xs c
    → TakesBorrow h z xs c (sub_vw z x c h)
unfolding sub_vw sub_vw_large
sub_vw-TakesBorrow z x c h {xs} e hx hz bx all hc stops = elim (Bool-cases (ltb 32 z.len)) [
  | inl many ↦
      let none' =
        Stops-zero xs c stops
          (omega (arith, ltb→lt 32 z.len many, length-words h x.blk x.off x.len hx)) in
      record {
        out = xs;
        borrow = c;
        returns =
            rw (many, sub_vw_large, min_same z.len x.len e)
              (large_loop-stop z x x.len c h (omega (arith, ltb→lt 32 z.len many)) none' hx hz);
        total = omega (arith, ap (λ (t : ℕ). radix (length xs) * t) none');
        all = all;
        size = refl;
      }
  | inr few ↦
      let (total, words) = scan-pass_borrow xs xs c refl all hc (NoRipple-Stops xs c all stops) in
      record {
        out = (scan (pass_carry uint_sub) xs xs (c, 0)).0;
        borrow = (scan (pass_carry uint_sub) xs xs (c, 0)).1.0;
        returns = rw (
          sub_vw,
          few,
          min_same z.len x.len e,
          ◌>>=◌,
          word_loop-start (pass_carry uint_sub) z x x x.len (c, 0) h hx hx hz bx bx,
        );
        total = total;
        all = words;
        size = length-scan (pass_carry uint_sub) xs xs (c, 0) refl;
      }
]
