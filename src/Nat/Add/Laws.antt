-- ===== src/Nat/Add/Laws.antt =====
-- `natAdd` adds, where no carry runs on beyond the words that both operands have.
use native.Mathlib.Numerals.{add-one}
use native.Mathlib.Nat.{add_comm}
use demo.Common.{
  ℕ, zero, suc, ◌+◌, ◌*◌, ◌^◌, ◌-◌, ◌<◌, ◌≤◌, ◌≡◌, ◌≢◌, refl, arith, ap, List, [], ◌∷◌, ◌++◌,
  length, ◌⊎◌, inl, inr, ◌∙◌, some, ltb, le→ltb, lt→ltb, ◌==◌, eq→==, Bool-cases, ltb→lt, ==→eq,
  ==→ne, ltb→le, length-append,
}
use demo.Word.Carry.{B, uint_add}
use demo.Memory.{Heap, ◌>>=◌, words, put_words}
use demo.Memory.Laws.{words-place, length-words, words-zero}
use demo.Nat.{Nat}
use demo.Nat.Value.{value, value-lt, radix, AllWords, value-append, scan}
use demo.Nat.Laws.{new_nat, IsReady, Holds, part_of, nat_part-part_of, Keeps-refl, Returns}
use demo.Nat.Add.{add_high, add_longer, nat_add}
use demo.Nat.Add.Scan.{scan-uint_add, NoRipple}
use demo.Nat.Add.Vector.{AddsCarry, Stops, add_vw-AddsCarry, add_vw-twice}
use demo.Nat.Add.Longer

-- `x` can be added to `y` without a carry that runs on: `low` are the words of `x` above which `y`
-- has none, fewer than an `int` counts.
pub record IsAddable (xs ys : List ℕ) : Type 0 where
  pub low : List ℕ
  pub high : List ℕ
  pub split : xs ≡ low ++ high
  pub even : length low ≡ length ys
  pub few : length ys < 2 ^ 31
  pub stops : (value low + value ys < radix (length ys)) ⊎ ((length high ≤ 32) × NoRipple high 1)

carry-Stops_of :
    (high : List ℕ) (n c sum low : ℕ)
    → (low < radix n) ⊎ ((length high ≤ 32) × NoRipple high 1)
    → sum + radix n * c ≡ low + 0
    → c ≤ 1
    → Stops high c
carry-Stops_of high n zero sum low s e le = inl refl
carry-Stops_of high n (suc zero) sum low (inl small) e le = absurd (omega arith)
carry-Stops_of high n (suc zero) sum low (inr fits) e le = inr fits
carry-Stops_of high n (suc (suc c)) sum low s e le = absurd (omega arith)

-- The carry out of the low words stops.
carry-Stops :
    {xs ys : List ℕ} (a : IsAddable xs ys)
    → AllWords a.low
    → AllWords ys
    → Stops a.high (scan uint_add a.low ys 0).1
carry-Stops {xs} {ys} a all_low all_ys =
    let (sum, words, carry) = scan-uint_add a.low ys 0 a.even all_low all_ys (omega arith) in
    carry-Stops_of a.high (length ys) _ _ _ a.stops (rw a.even at sum) carry

add_high-AddsCarry :
    (h : Heap) (x y z : Nat) (c : ℕ) {high zs : List ℕ}
    → y.len ≤ x.len
    → words h x.blk (x.off + y.len) (x.len - y.len) ≡ some high
    → words h z.blk (z.off + y.len) (x.len - y.len) ≡ some zs
    → z.blk ≢ x.blk
    → AllWords high
    → c < B
    → Stops high c
    → AddsCarry h (part_of z y.len x.len) high (value high + c) (add_high x y z c h)
unfolding add_high
add_high-AddsCarry h x y z c {high} le hx hz apart all hc stops =
    elim (Bool-cases (ltb y.len x.len)) [
      | inl more ↦
          rw (more, ◌>>=◌, nat_part-part_of h z y.len x.len le, nat_part-part_of h x y.len x.len le)
            (add_vw-AddsCarry (part_of z y.len x.len) (part_of x y.len x.len) c h refl hx hz
              (inl apart) all hc stops)
      | inr same ↦
          let none' : high ≡ [] =
            words-zero h x.blk (x.off + y.len)
              (words-place h x.blk refl (omega (arith, ltb→le y.len x.len same)) ∙ hx) in
          record {
            out = [];
            carry = c;
            returns = rw same (unfold put_words in refl);
            total = rw none' (omega arith);
            all = tt;
            word = hc;
            size = rw none';
          }
    ]

add_high-twice :
    (h : Heap) (x y z : Nat) (c w w' : ℕ) (ws : List ℕ) {zs : List ℕ}
    → y.len < x.len
    → words h x.blk (x.off + y.len) (x.len - y.len) ≡ some (w ∷ w' ∷ ws)
    → words h z.blk (z.off + y.len) (x.len - y.len) ≡ some zs
    → z.blk ≢ x.blk
    → AllWords (w ∷ w' ∷ ws)
    → c < B
    → x.len - y.len ≤ 32
    → B ≤ w + c
    → w' + 2 < B
    → AddsCarry h
        (part_of z y.len x.len)
        (w ∷ w' ∷ ws)
        (value (w ∷ w' ∷ ws) + c + B)
        (add_high x y z c h)
unfolding add_high
add_high-twice h x y z c w w' ws lt hx hz apart all hc few over room =
    rw
      (
        lt→ltb y.len x.len lt,
        ◌>>=◌,
        nat_part-part_of h z y.len x.len (omega arith),
        nat_part-part_of h x y.len x.len (omega arith),
      )
      (add_vw-twice (part_of z y.len x.len) (part_of x y.len x.len) c h w w' ws refl hx hz
        (inl apart) all hc few over room)

carry-one_of : (R c out sum : ℕ) → out + R * c ≡ sum → c ≤ 1 → out < R → R ≤ sum → c ≡ 1
carry-one_of R zero out sum e le lt over = absurd (omega arith)
carry-one_of R (suc zero) out sum e le lt over = refl
carry-one_of R (suc (suc c)) out sum e le lt over = absurd (omega arith)

radix_succ : (n : ℕ) → radix (n + 1) ≡ B * radix n
radix_succ n = ap radix (add-one n)

module _ (h : Heap) (x y : Nat) {xs ys : List ℕ} (r : IsReady h) (vx : Holds h x xs)
    (vy : Holds h y ys) (low high : List ℕ) (split : xs ≡ low ++ high)
    (even : length low ≡ length ys) (few : length ys < 2 ^ 31) (le : y.len ≤ x.len) where
  abbrev carry : ℕ
  carry = (scan uint_add low ys 0).1

  abbrev middle : Heap
  middle = Longer.after_low h x y r vx vy low high split even few le

  -- What the words above `y` come to, if `addVW` is `extra` too large.
  total_of :
      (extra : ℕ)
      → value (scan uint_add low ys 0).0 + radix y.len * (value high + carry + extra)
        ≡ value xs + value ys + radix y.len * extra
  total_of extra = omega (
    arith,
    (Longer.low_sum h x y r vx vy low high split even few le).0,
    ap value split,
    value-append low high,
    ap (λ (n : ℕ). radix n * value high) (even ∙ length-words h y.blk y.off y.len vy.at),
  )

  sum-Returns :
      (value low + value ys < radix (length ys)) ⊎ ((length high ≤ 32) × NoRipple high 1)
      → 0 < y.len
      → Returns h (value xs + value ys) (add_longer x y h)
  sum-Returns stops pos =
      let words = Longer.high_words h x y r vx vy low high split even few le in
      let all = Longer.all_parts h x y r vx vy low high split even few le in
      let sum = Longer.low_sum h x y r vx vy low high split even few le in
      let a : IsAddable xs ys = record {
        low = low;
        high = high;
        split = split;
        even = even;
        few = few;
        stops = stops;
      } in
      let rest =
        add_high-AddsCarry middle x y (new_nat h (x.len + 1)) carry le words.0 words.1
          (λ e. absurd (omega (arith, vx.old))) all.1 (omega (arith, sum.2))
          (carry-Stops a all.0 vy.all) in
      let total : value (scan uint_add low ys 0).0 + radix y.len * (value high + carry)
          ≡ value xs + value ys =
        omega (arith, total_of 0) in
      rw (← total) (
        Longer.add_longer-Returns h x y r vx vy low high split even few le (value high + carry) rest
          pos)

  carry-one : radix (length ys) ≤ value low + value ys → carry ≡ 1
  carry-one over =
      let sum = Longer.low_sum h x y r vx vy low high split even few le in
      carry-one_of (radix y.len) carry _ (value low + value ys) sum.0 sum.2
        (rw (← sum.3) (value-lt _ sum.1)) (rw (length-words h y.blk y.off y.len vy.at) at over)

  twice :
      value (scan uint_add low ys 0).0 + radix y.len * (value high + carry + B)
      ≡ value xs + value ys + radix (y.len + 1)
  twice = omega (arith, total_of B, radix_succ y.len)

  -- With a carry that the first word above `y` hands on.
  ripple-Returns :
      (w w' : ℕ) (ws : List ℕ)
      → high ≡ w ∷ w' ∷ ws
      → radix (length ys) ≤ value low + value ys
      → length high ≤ 32
      → w + 1 ≡ B
      → w' + 2 < B
      → 0 < y.len
      → Returns h (value xs + value ys + radix (y.len + 1)) (add_longer x y h)
  ripple-Returns w w' ws shape over short full room pos =
      let words = Longer.high_words h x y r vx vy low high split even few le in
      let all = Longer.all_parts h x y r vx vy low high split even few le in
      let sum = Longer.low_sum h x y r vx vy low high split even few le in
      let size : length high ≡ x.len - y.len = length-words middle x.blk _ _ words.0 in
      let one : carry ≡ 1 = carry-one over in
      let rest =
        add_high-twice middle x y (new_nat h (x.len + 1)) carry w w' ws
          (omega (arith, size, ap length shape)) (rw shape at words.0) words.1
          (λ e. absurd (omega (arith, vx.old))) (rw shape at all.1) (omega (arith, sum.2))
          (omega (arith, size)) (omega (arith, one)) room in
      rw (← twice) (
        Longer.add_longer-Returns h x y r vx vy low high split even few le (value high + carry + B)
          (rw shape rest) pos)

length-zero : (ws : List ℕ) → length ws ≡ 0 → ws ≡ []
length-zero [] e = refl
length-zero (w ∷ ws) e = absurd (omega arith)

add_longer-empty :
    (h : Heap) (x y : Nat) {xs ys : List ℕ}
    → IsReady h
    → Holds h x xs
    → Holds h y ys
    → y.len ≡ 0
    → Returns h (value xs + value ys) (add_longer x y h)
unfolding add_longer
add_longer-empty h x y {xs} {ys} r vx vy e = record {
  view = x;
  heap = h;
  digits = xs;
  returns = rw (eq→== y.len 0 e) (ground arith);
  holds = vx;
  total = rw (length-zero ys (omega (arith, length-words h y.blk y.off y.len vy.at))) (omega arith);
  keeps = Keeps-refl h;
  ready = r;
}

add_longer-adds :
    (h : Heap) (x y : Nat) {xs ys : List ℕ}
    → IsReady h
    → Holds h x xs
    → Holds h y ys
    → IsAddable xs ys
    → y.len ≤ x.len
    → Returns h (value xs + value ys) (add_longer x y h)
add_longer-adds h x y r vx vy a le = elim (Bool-cases (y.len == 0)) [
  | inl e ↦ add_longer-empty h x y r vx vy (==→eq y.len 0 e)
  | inr e ↦
      sum-Returns h x y r vx vy a.low a.high a.split a.even a.few le a.stops
        (omega (arith, ==→ne y.len 0 e))
]

-- `natAdd` returns a view of the sum of its operands, which may be one of them, and changes nothing
-- that was there before, if memory is granted, the shorter operand has fewer than 2^31 words and no
-- carry runs on beyond the words that both operands have.
pub nat_add-Returns :
    (h : Heap) (x y : Nat) {xs ys : List ℕ}
    → IsReady h
    → Holds h x xs
    → Holds h y ys
    → (length ys ≤ length xs → IsAddable xs ys)
    → (length xs < length ys → IsAddable ys xs)
    → Returns h (value xs + value ys) (nat_add x y h)
unfolding nat_add
nat_add-Returns h x y {xs} {ys} r vx vy a b =
    let len_x = length-words h x.blk x.off x.len vx.at in
    let len_y = length-words h y.blk y.off y.len vy.at in
    elim (Bool-cases (ltb x.len y.len)) [
      | inl shorter ↦
          let lt = ltb→lt x.len y.len shorter in
          rw (shorter, add_comm (value xs) (value ys))
            (add_longer-adds h y x r vy vx (b (omega arith)) (omega arith))
      | inr longer ↦
          let le = ltb→le x.len y.len longer in
          rw longer (add_longer-adds h x y r vx vy (a (omega arith)) le)
    ]

-- Where memory is granted, the shorter operand has fewer than 2^31 words and is not empty, and the sum
-- of the low words carries into a word that is full, with a word above it that has room for 2 and at
-- most 32 words in all above `y`, `natAdd` returns a view of a number that is too large by the weight
-- of the second of these words: the carry is added twice there.
pub nat_add_ripple :
    (h : Heap) (x y : Nat) (low : List ℕ) (w : ℕ) (ws : List ℕ) {ys : List ℕ}
    → IsReady h
    → Holds h x (low ++ ((B - 1) ∷ w ∷ ws))
    → Holds h y ys
    → 0 < y.len
    → length low ≡ length ys
    → length ys < 2 ^ 31
    → radix (length ys) ≤ value low + value ys
    → length ws ≤ 30
    → w + 2 < B
    → Returns h (value (low ++ ((B - 1) ∷ w ∷ ws)) + value ys + radix (y.len + 1)) (nat_add x y h)
unfolding nat_add
nat_add_ripple h x y low w ws {ys} r vx vy pos even narrow over few room =
    let len_x = length-words h x.blk x.off x.len vx.at in
    let len_y = length-words h y.blk y.off y.len vy.at in
    let le : y.len ≤ x.len = omega (arith, length-append low ((B - 1) ∷ w ∷ ws)) in
    rw (le→ltb x.len y.len le) (
      ripple-Returns h x y r vx vy low ((B - 1) ∷ w ∷ ws) refl even narrow le (B - 1) w ws refl over
        (omega arith) (omega arith) room pos)
