-- ===== src/Nat/Sub/Laws.antt =====
-- `natSub` subtracts, where no borrow runs on beyond the words that both operands have.
use native.Mathlib.Nat.{mul-le-mul_left}
use demo.Common.{
  ℕ, zero, suc, ◌+◌, ◌*◌, ◌-◌, ◌<◌, ◌≤◌, ◌≡◌, ◌≢◌, refl, arith, ap, List, [], ◌∷◌, ◌++◌, length,
  ◌⊎◌, inl, inr, ◌∙◌, some, ltb, le→leb, ◌==◌, ne→==, eq→==, Bool-cases, ltb→le, ==→eq, ==→ne,
  length-append,
}
use demo.Word.Carry.{B, uint_sub}
use demo.Memory.{Heap, ◌>>=◌, words, put_words}
use demo.Memory.Laws.{
  words-place, words-put_words, words-parts, length-words, words-zero, put_words-append,
}
use demo.Nat.{Nat}
use demo.Nat.Value.{
  value, value-lt, radix, radix-pos, AllWords, AllWords-append, AllWords-front, AllWords-back,
  value-append, scan, length-scan,
}
use demo.Nat.Laws.{
  new_nat, nat_new_len-grow, words-grow, words-grow_new, IsReady, Holds, part_of, nat_part-part_of,
  grow, Keeps-refl, Returns,
}
use demo.Nat.Norm.{nat_norm-filled}
use demo.Nat.Sub.{sub_vv, sub_high, nat_sub}
use demo.Nat.Sub.Scan.{scan-uint_sub, NoRipple}
use demo.Nat.Sub.Vector.{TakesBorrow, Stops, sub_vv-scan, sub_vw-TakesBorrow}

-- `ys` can be taken from `xs` without a borrow that runs on: `low` are the words of `xs` above which
-- `ys` has none.
pub record IsTakeable (xs ys : List ℕ) : Type 0 where
  pub low : List ℕ
  pub high : List ℕ
  pub split : xs ≡ low ++ high
  pub even : length low ≡ length ys
  pub stops : (value ys ≤ value low) ⊎ ((length high ≤ 32) × NoRipple high 1)

borrow-Stops_of :
    (high : List ℕ) (R c out low ys : ℕ)
    → (ys ≤ low) ⊎ ((length high ≤ 32) × NoRipple high 1)
    → out + ys + 0 ≡ low + R * c
    → out < R
    → c ≤ 1
    → Stops high c
borrow-Stops_of high R zero out low ys s e lt le = inl refl
borrow-Stops_of high R (suc zero) out low ys (inl small) e lt le = absurd (omega arith)
borrow-Stops_of high R (suc zero) out low ys (inr fits) e lt le = inr fits
borrow-Stops_of high R (suc (suc c)) out low ys s e lt le = absurd (omega arith)

-- The top borrow of a difference of numbers in order is 0.
no_borrow :
    (R Q c lo hi low high c' ys : ℕ)
    → lo + ys ≡ low + R * c
    → hi + c ≡ high + Q * c'
    → hi < Q
    → 0 < R
    → ys ≤ low + R * high
    → lo < R
    → c' ≡ 0
no_borrow R Q c lo hi low high zero ys e e' lt pos le lt' = refl
no_borrow R Q c lo hi low high (suc c') ys e e' lt pos le lt' =
    let more : high + 1 ≤ c = omega arith in absurd (omega (arith, mul-le-mul_left R more))

sub_high-TakesBorrow :
    (h : Heap) (x y z : Nat) (c : ℕ) {high zs : List ℕ}
    → y.len ≤ x.len
    → z.len ≡ x.len
    → words h x.blk (x.off + y.len) (x.len - y.len) ≡ some high
    → words h z.blk (z.off + y.len) (x.len - y.len) ≡ some zs
    → z.blk ≢ x.blk
    → AllWords high
    → c < B
    → Stops high c
    → TakesBorrow h (part_of z y.len z.len) high c (sub_high x y z c h)
unfolding sub_high
sub_high-TakesBorrow h x y z c {high} le same hx hz apart all hc stops =
    elim (Bool-cases (ltb y.len x.len)) [
      | inl more ↦
          rw
            (
              more,
              ◌>>=◌,
              nat_part-part_of h z y.len z.len (omega arith),
              nat_part-part_of h x y.len x.len le,
            )
            (sub_vw-TakesBorrow (part_of z y.len z.len) (part_of x y.len x.len) c h (rw same refl)
              hx hz (inl apart) all hc stops)
      | inr fewer ↦
          let none' : high ≡ [] =
            words-zero h x.blk (x.off + y.len)
              (words-place h x.blk refl (omega (arith, ltb→le y.len x.len fewer)) ∙ hx) in
          record {
            out = [];
            borrow = c;
            returns = rw fewer (unfold put_words in refl);
            total = rw none' (omega arith);
            all = tt;
            size = rw none';
          }
    ]

value_of_sum : (d y x : ℕ) → d + y ≡ x → d ≡ x - y
value_of_sum d y x e = omega arith

-- The words that `nat_sub` writes.
module _ (h : Heap) (x y : Nat) {xs ys : List ℕ} (r : IsReady h) (vx : Holds h x xs)
    (vy : Holds h y ys) (a : IsTakeable xs ys) (le : y.len ≤ x.len) (order : value ys ≤ value xs)
    (pos : 0 < y.len) where
  abbrev difference_view : Nat
  difference_view = new_nat h x.len

  low_words :
      (words h x.blk x.off y.len ≡ some a.low)
      × (words h x.blk (x.off + y.len) (x.len - y.len) ≡ some a.high)
  low_words =
      words-parts h x.blk x.off y.len (x.len - y.len) x.len a.low a.high (omega arith)
        (a.even ∙ length-words h y.blk y.off y.len vy.at) (rw a.split at vx.at)

  all_parts : AllWords a.low × AllWords a.high
  all_parts =
      let all : AllWords (a.low ++ a.high) = rw a.split at vx.all in
      (AllWords-front a.low a.high all, AllWords-back a.low a.high all)

  abbrev low_scan : List ℕ × ℕ
  low_scan = scan uint_sub a.low ys 0

  sub_low :
      sub_vv (part_of difference_view 0 y.len) x y (grow h x.len)
      ≡ some (low_scan.1, put_words (grow h x.len) h.next 0 low_scan.0)
  sub_low =
      sub_vv-scan (part_of difference_view 0 y.len) x y y.len (grow h x.len) (omega arith)
        (words-grow h x.len x.blk x.off y.len vx.old ∙ low_words.0)
        (words-grow h x.len y.blk y.off y.len vy.old ∙ vy.at)
        (words-grow_new h x.len 0 y.len (omega arith)) (inl (λ e. absurd (omega (arith, vx.old))))
        (inl (λ e. absurd (omega (arith, vy.old))))

  low_difference :
      (value low_scan.0 + value ys + 0 ≡ value a.low + radix y.len * low_scan.1)
      × AllWords low_scan.0
      × (low_scan.1 ≤ 1)
      × (length low_scan.0 ≡ y.len)
  low_difference =
      let size : length a.low ≡ y.len = a.even ∙ length-words h y.blk y.off y.len vy.at in
      let (sum, words, borrow) = scan-uint_sub a.low ys 0 a.even all_parts.0 vy.all (omega arith) in
      (rw size at sum, words, borrow, length-scan uint_sub a.low ys 0 a.even ∙ size)

  low-lt : value low_scan.0 < radix y.len
  low-lt = rw (← low_difference.3) (value-lt low_scan.0 low_difference.1)

  abbrev after_low : Heap
  after_low = put_words (grow h x.len) h.next 0 low_scan.0

  sub_rest :
      TakesBorrow after_low
        (part_of difference_view y.len x.len)
        a.high
        low_scan.1
        (sub_high x y difference_view low_scan.1 after_low)
  sub_rest =
      sub_high-TakesBorrow after_low x y difference_view low_scan.1 le refl
        (words-put_words _ h.next 0 low_scan.0 x.blk _ _ (inl (λ e. absurd (omega (arith, vx.old))))
          ∙ words-grow h _ x.blk _ _ vx.old
          ∙ low_words.1)
        (words-put_words _ h.next 0 low_scan.0 h.next _ _
            (inr (inr (omega (arith, low_difference.3))))
          ∙ words-grow_new h x.len (0 + y.len) (x.len - y.len) (omega arith))
        (λ e. absurd (omega (arith, vx.old))) all_parts.1 (omega (arith, low_difference.2))
        (borrow-Stops_of a.high (radix y.len) low_scan.1 (value low_scan.0) (value a.low) (value ys)
          a.stops low_difference.0 low-lt low_difference.2)

  abbrev difference_words : List ℕ
  difference_words = low_scan.0 ++ sub_rest.out

  length-high : length a.high ≡ x.len - y.len
  length-high = length-words h x.blk _ _ low_words.1

  length-difference_words : length difference_words ≡ x.len
  length-difference_words =
      omega
        (arith, length-append low_scan.0 sub_rest.out, low_difference.3, sub_rest.size, length-high)

  value-xs : value xs ≡ value a.low + radix y.len * value a.high
  value-xs = omega (
    arith,
    ap value a.split,
    value-append a.low a.high,
    ap (λ (n : ℕ). radix n * value a.high) (a.even ∙ length-words h y.blk y.off y.len vy.at),
  )

  no_borrow_left : sub_rest.borrow ≡ 0
  no_borrow_left =
      no_borrow (radix y.len) (radix (length a.high)) low_scan.1 (value low_scan.0)
        (value sub_rest.out) (value a.low) (value a.high) sub_rest.borrow (value ys)
        (omega (arith, low_difference.0)) sub_rest.total
        (rw (← sub_rest.size) (value-lt sub_rest.out sub_rest.all)) (radix-pos y.len)
        (omega (arith, value-xs)) low-lt

  value-difference_words : value difference_words + value ys ≡ value xs
  value-difference_words = omega (
    arith,
    value-append low_scan.0 sub_rest.out,
    ap (λ (n : ℕ). radix n * value sub_rest.out) low_difference.3,
    ap (λ (t : ℕ). radix y.len * t) sub_rest.total,
    ap (λ (t : ℕ). radix y.len * (radix (length a.high) * t)) no_borrow_left,
    low_difference.0,
    value-xs,
  )

  all_written :
      put_words after_low h.next (0 + y.len) sub_rest.out
      ≡ put_words (grow h x.len) h.next 0 difference_words
  all_written =
      put_words-append (grow h x.len) h.next 0 low_scan.0 sub_rest.out
        (omega (arith, low_difference.3))

  difference-AllWords : AllWords difference_words
  difference-AllWords = AllWords-append low_scan.0 sub_rest.out low_difference.1 sub_rest.all

  sub_longer-Returns : Returns h (value xs - value ys) (nat_sub x y h)
  unfolding nat_sub
  sub_longer-Returns =
      rw
        (
          le→leb y.len x.len le,
          ne→== x.len 0 (λ e. absurd (omega arith)),
          ne→== y.len 0 (λ e. absurd (omega arith)),
          ◌>>=◌,
          nat_new_len-grow h x.len r (omega arith),
          nat_part-part_of (grow h x.len) difference_view 0 y.len (omega arith),
          sub_low,
          sub_rest.returns,
          eq→== sub_rest.borrow 0 no_borrow_left,
          all_written,
        )
        (rw (← value_of_sum _ _ _ value-difference_words)
          (nat_norm-filled h x.len difference_words r length-difference_words difference-AllWords))

length-zero : (ws : List ℕ) → length ws ≡ 0 → ws ≡ []
length-zero [] e = refl
length-zero (w ∷ ws) e = absurd (omega arith)

nat_sub-empty :
    (h : Heap) (x y : Nat) {xs ys : List ℕ}
    → IsReady h
    → Holds h x xs
    → Holds h y ys
    → y.len ≡ 0
    → Returns h (value xs - value ys) (nat_sub x y h)
unfolding nat_sub
nat_sub-empty h x y {xs} {ys} r vx vy e = record {
  view = x;
  heap = h;
  digits = xs;
  returns = rw (le→leb y.len x.len (omega arith), eq→== y.len 0 e) (ground arith);
  holds = vx;
  total = rw (length-zero ys (omega (arith, length-words h y.blk y.off y.len vy.at))) (omega arith);
  keeps = Keeps-refl h;
  ready = r;
}

-- `natSub` returns a view of the difference of its operands, which may be one of them, and changes
-- nothing that was there before, if memory is granted, the first operand is not the smaller one and has no fewer words, and
-- no borrow runs on beyond the words that both operands have.
pub nat_sub-Returns :
    (h : Heap) (x y : Nat) {xs ys : List ℕ}
    → IsReady h
    → Holds h x xs
    → Holds h y ys
    → IsTakeable xs ys
    → value ys ≤ value xs
    → Returns h (value xs - value ys) (nat_sub x y h)
nat_sub-Returns h x y r vx vy a order = elim (Bool-cases (y.len == 0)) [
  | inl e ↦ nat_sub-empty h x y r vx vy (==→eq y.len 0 e)
  | inr e ↦
      sub_longer-Returns h x y r vx vy a
        (omega (
          arith,
          length-words h x.blk x.off x.len vx.at,
          length-words h y.blk y.off y.len vy.at,
          ap length a.split,
          length-append a.low a.high,
          a.even,
        ))
        order (omega (arith, ==→ne y.len 0 e))
]
