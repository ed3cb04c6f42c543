-- ===== src/Nat/Compare.antt =====
-- `natCmp` orders the numbers that two views hold.
use native.Mathlib.Nat.{mul-le-mul_left}
use demo.Common.{
  ℕ, zero, suc, ◌+◌, ◌*◌, ◌-◌, ◌≤◌, ◌<◌, ◌≡◌, ◌≢◌, refl, arith, some, List, [], ◌∷◌, ◌++◌, length,
  ◌⊎◌, inl, inr, ap, sym, ◌∙◌, Bool-cases, ltb, ◌==◌, ==→eq, ==→ne, ne→==, eq→==, ltb→lt, ltb→le,
  lt→ltb, le→ltb, if◌then◌else◌,
}
use demo.Word.Carry.{B}
use demo.Memory.{Heap, ◌>>=◌, words, word_at}
use demo.Memory.Laws.{length-words, words-snoc, words-zero, load-some}
use demo.Nat.{Nat, get, Order, less, equal, greater, order, cmp_index, nat_cmp}
use demo.Nat.Value.{value, value-lt, radix, radix-pos, AllWords, AllWords-front, value-snoc}
use demo.Nat.Laws.{Holds}

-- One word, or no zeros that lead: what `natNew` and `natNorm` return.
abbrev pub IsTrim : List ℕ → Type 0
IsTrim ws = (length ws ≤ 1) ⊎ (radix (length ws) ≤ B * value ws)

-- What an answer of `natCmp` says of two numbers.
abbrev pub Says : Order → ℕ → ℕ → Type 0
Says less a b = a ≤ b
Says equal a b = a ≡ b
Says greater a b = b ≤ a

-- The answer exactly, where both have as many words.
abbrev pub Tells : Order → ℕ → ℕ → Type 0
Tells less a b = a < b
Tells equal a b = a ≡ b
Tells greater a b = b < a

Says-Tells : (o : Order) (a b : ℕ) → Tells o a b → Says o a b
Says-Tells less a b h = omega arith
Says-Tells equal a b h = h
Says-Tells greater a b h = omega arith

Tells-equal : (o : Order) (a b : ℕ) → a ≡ b → Tells o a b → o ≡ equal
Tells-equal less a b e h = absurd (omega arith)
Tells-equal equal a b e h = refl
Tells-equal greater a b e h = absurd (omega arith)

radix_mono : (m n : ℕ) → m ≤ n → radix m ≤ radix n
radix_mono zero n h = radix-pos n
radix_mono (suc m) zero h = absurd (omega arith)
radix_mono (suc m) (suc n) h = omega (arith, radix_mono m n (omega arith))

-- Fewer words are a smaller number.
shorter-le :
    (xs ys : List ℕ) → AllWords xs → IsTrim ys → length xs < length ys → value xs ≤ value ys
shorter-le [] ys all trim lt = omega arith
shorter-le (x ∷ xs) ys all (inl one) lt = absurd (omega arith)
shorter-le (x ∷ xs) ys all (inr top) lt =
    omega (arith, value-lt (x ∷ xs) all, radix_mono (suc (length (x ∷ xs))) (length ys) lt)

-- The top words decide, where they differ.
top-lt : (R a b v w : ℕ) → v < R → a < b → v + R * a < w + R * b
top-lt R a b v w lt h = omega (arith, mul-le-mul_left R h)

order-Tells : (a b : ℕ) → Tells (order a b) a b
unfolding order
order-Tells a b = elim (Bool-cases (ltb a b)) [
  | inl lt ↦ rw lt (omega (arith, ltb→lt a b lt))
  | inr ge ↦ elim (Bool-cases (ltb b a)) [
    | inl gt ↦ rw (ge, gt) (omega (arith, ltb→lt b a gt))
    | inr le ↦ rw (ge, le) (omega (arith, ltb→le a b ge, ltb→le b a le))
  ]
]

order-Says : (a b : ℕ) → Says (order a b) a b
order-Says a b = Says-Tells (order a b) a b (order-Tells a b)

order-top : (R a b v w : ℕ) → a ≢ b → v < R → w < R → Tells (order a b) (v + R * a) (w + R * b)
unfolding order
order-top R a b v w ne hv hw = elim (Bool-cases (ltb a b)) [
  | inl lt ↦ rw lt (top-lt R a b v w hv (ltb→lt a b lt))
  | inr ge ↦
      let gt : b < a = omega (arith, ltb→le a b ge) in
      rw (ge, lt→ltb b a gt) (top-lt R b a w v hw gt)
]

Tells-add : (o : Order) (a b t : ℕ) → Tells o a b → Tells o (a + t) (b + t)
Tells-add less a b t h = omega arith
Tells-add equal a b t h = omega arith
Tells-add greater a b t h = omega arith

order_refl : (a b : ℕ) → a ≡ b → order a b ≡ equal
unfolding order
order_refl a b e = rw (le→ltb a b (omega arith), le→ltb b a (omega arith))

Tells-eq : (o : Order) (a b a' b' : ℕ) → a' ≡ a → b' ≡ b → Tells o a b → Tells o a' b'
Tells-eq o a b a' b' p q h = rw (p, q) h

value_top :
    (n a : ℕ) (ws front : List ℕ)
    → ws ≡ front ++ (a ∷ [])
    → length front ≡ n
    → value ws ≡ value front + radix n * a
value_top n a ws front e size = rw (e, ← size) (value-snoc front a)

lt_radix : (n : ℕ) (ws : List ℕ) → length ws ≡ n → AllWords ws → value ws < radix n
lt_radix n ws size all = rw (← size) (value-lt ws all)

one_word : (a : ℕ) (ws front : List ℕ) → ws ≡ front ++ (a ∷ []) → front ≡ [] → value ws ≡ a
one_word a ws front e empty = rw (e, empty) (omega arith)

-- Where the loop of `natCmp` stops among the lowest `suc n` words.
record Stop (h : Heap) (x y : Nat) (n : ℕ) (xs ys : List ℕ) : Type 0 where
  k : ℕ
  a : ℕ
  b : ℕ
  returns : cmp_index x y n h ≡ some (k, h)
  at_x : word_at h x.blk (x.off + k) ≡ some a
  at_y : word_at h y.blk (y.off + k) ≡ some b
  says : Tells (order a b) (value xs) (value ys)

cmp_index-zero : (h : Heap) (x y : Nat) → cmp_index x y zero h ≡ some (0, h)
unfolding cmp_index
cmp_index-zero h x y = refl

cmp_index-suc :
    (h : Heap) (x y : Nat) (i : ℕ) {a b : ℕ}
    → word_at h x.blk (x.off + suc i) ≡ some a
    → word_at h y.blk (y.off + suc i) ≡ some b
    → cmp_index x y (suc i) h ≡ (if a == b then cmp_index x y i h else some (suc i, h))
unfolding cmp_index get
cmp_index-suc h x y i {a} {b} p q =
    rw (cmp_index, ◌>>=◌, load-some h x.blk (x.off + suc i) p, load-some h y.blk (y.off + suc i) q)
      (ground arith)

cmp_index-Stop :
    (h : Heap) (x y : Nat) (n : ℕ) {xs ys : List ℕ}
    → words h x.blk x.off (suc n) ≡ some xs
    → words h y.blk y.off (suc n) ≡ some ys
    → AllWords xs
    → AllWords ys
    → Stop h x y n xs ys
cmp_index-Stop h x y zero p q all_x all_y =
    let (front_x, a, none_x, at_a, split_x) = words-snoc h x.blk x.off zero p in
    let (front_y, b, none_y, at_b, split_y) = words-snoc h y.blk y.off zero q in
    record {
      k = 0;
      a = a;
      b = b;
      returns = cmp_index-zero h x y;
      at_x = at_a;
      at_y = at_b;
      says =
          Tells-eq (order a b) a b _ _
            (one_word a _ front_x split_x (words-zero h x.blk x.off none_x))
            (one_word b _ front_y split_y (words-zero h y.blk y.off none_y)) (order-Tells a b);
    }
cmp_index-Stop h x y (suc n) p q all_x all_y =
    let (front_x, a, rest_x, at_a, split_x) = words-snoc h x.blk x.off (suc n) p in
    let (front_y, b, rest_y, at_b, split_y) = words-snoc h y.blk y.off (suc n) q in
    let all_x' : AllWords (front_x ++ (a ∷ [])) = rw split_x at all_x in
    let all_y' : AllWords (front_y ++ (b ∷ [])) = rw split_y at all_y in
    let in_x = AllWords-front front_x (a ∷ []) all_x' in
    let in_y = AllWords-front front_y (b ∷ []) all_y' in
    let len_x = length-words h x.blk x.off (suc n) rest_x in
    let len_y = length-words h y.blk y.off (suc n) rest_y in
    elim (Bool-cases (a == b)) [
      | inl same ↦
          let s = cmp_index-Stop h x y n rest_x rest_y in_x in_y in
          record {
            k = s.k;
            a = s.a;
            b = s.b;
            returns = cmp_index-suc h x y n at_a at_b ∙ rw same s.returns;
            at_x = s.at_x;
            at_y = s.at_y;
            says =
                Tells-eq (order s.a s.b) _ _ _ _ (value_top (suc n) a _ front_x split_x len_x)
                  (value_top (suc n) b _ front_y split_y len_y
                    ∙ ap (λ (t : ℕ). value front_y + radix (suc n) * t) (sym (==→eq a b same)))
                  (Tells-add (order s.a s.b) (value front_x) (value front_y) (radix (suc n) * a)
                    s.says);
          }
      | inr other ↦ record {
        k = suc n;
        a = a;
        b = b;
        returns = cmp_index-suc h x y n at_a at_b ∙ rw other refl;
        at_x = at_a;
        at_y = at_b;
        says =
            Tells-eq (order a b) _ _ _ _ (value_top (suc n) a _ front_x split_x len_x)
              (value_top (suc n) b _ front_y split_y len_y)
              (order-top (radix (suc n)) a b (value front_x) (value front_y) (==→ne a b other)
                (lt_radix (suc n) front_x len_x in_x) (lt_radix (suc n) front_y len_y in_y));
      }
    ]

-- The lengths go first, then the words from the top.
pub record Compared (h : Heap) (x y : Nat) (xs ys : List ℕ) : Type 0 where
  pub answer : Order
  pub returns : nat_cmp x y h ≡ some (answer, h)
  pub says : Says answer (value xs) (value ys)
  pub same : length xs ≡ length ys → value xs ≡ value ys → answer ≡ equal
  pub lengths : Says answer (length xs) (length ys)

order-shorter :
    (xs ys : List ℕ)
    → AllWords xs
    → AllWords ys
    → IsTrim xs
    → IsTrim ys
    → length xs ≢ length ys
    → Says (order (length xs) (length ys)) (value xs) (value ys)
unfolding order
order-shorter xs ys all_x all_y tx ty ne = elim (Bool-cases (ltb (length xs) (length ys))) [
  | inl lt ↦ rw lt (shorter-le xs ys all_x ty (ltb→lt _ _ lt))
  | inr ge ↦
      let gt : length ys < length xs = omega (arith, ltb→le _ _ ge) in
      rw (ge, lt→ltb _ _ gt) (shorter-le ys xs all_y tx gt)
]

length-zero : (ws : List ℕ) → length ws ≡ 0 → value ws ≡ 0
length-zero [] e = refl
length-zero (w ∷ ws) e = absurd (omega arith)

pub nat_cmp-lengths :
    (h : Heap) (x y : Nat)
    → (x.len ≢ y.len) ⊎ (x.len ≡ 0)
    → nat_cmp x y h ≡ some (order x.len y.len, h)
unfolding nat_cmp
nat_cmp-lengths h x y (inl ne) = rw (ne→== x.len y.len ne)
nat_cmp-lengths h x y (inr e) = elim (Bool-cases (x.len == y.len)) [
  | inl same ↦ rw (same, eq→== x.len 0 e)
  | inr other ↦ rw other
]

nat_cmp-words :
    (h : Heap) (x y : Nat) (n : ℕ) {xs ys : List ℕ}
    → x.len ≡ suc n
    → y.len ≡ suc n
    → (s : Stop h x y n xs ys) → nat_cmp x y h ≡ some (order s.a s.b, h)
unfolding nat_cmp get
nat_cmp-words h x y n ex ey s = rw (
  eq→== x.len y.len (omega arith),
  ne→== x.len 0 (omega arith),
  ◌>>=◌,
  pred_of x.len n ex,
  s.returns,
  load-some h x.blk (x.off + s.k) s.at_x,
  load-some h y.blk (y.off + s.k) s.at_y,
)
  where
    pred_of : (m k : ℕ) → m ≡ suc k → m - 1 ≡ k
    pred_of m k e = omega arith

nat_cmp-Compared-suc :
    (h : Heap) (x y : Nat) (n : ℕ) {xs ys : List ℕ}
    → Holds h x xs
    → Holds h y ys
    → x.len ≡ suc n
    → y.len ≡ suc n
    → Compared h x y xs ys
nat_cmp-Compared-suc h x y n {xs} {ys} vx vy ex ey =
    let s = cmp_index-Stop h x y n (rw ex at vx.at) (rw ey at vy.at) vx.all vy.all in
    record {
      answer = order s.a s.b;
      returns = nat_cmp-words h x y n ex ey s;
      says = Says-Tells (order s.a s.b) _ _ s.says;
      same = λ size e. Tells-equal (order s.a s.b) _ _ e s.says;
      lengths = Says-same (order s.a s.b) (length xs) (length ys) (
          omega (
            arith,
            length-words h x.blk x.off x.len vx.at,
            length-words h y.blk y.off y.len vy.at,
          ));
    }
  where
    Says-same : (o : Order) (a b : ℕ) → a ≡ b → Says o a b
    Says-same less a b e = omega arith
    Says-same equal a b e = e
    Says-same greater a b e = omega arith

-- `natCmp` reads no word outside the views and changes nothing. Of two numbers with no zeros that
-- lead, or of one word at most, it tells which one is not the larger, and that one has no more words;
-- of equal numbers with as many words it tells that they are equal.
pub nat_cmp-Compared :
    (h : Heap) (x y : Nat) {xs ys : List ℕ}
    → Holds h x xs
    → Holds h y ys
    → IsTrim xs
    → IsTrim ys
    → Compared h x y xs ys
nat_cmp-Compared h x y {xs} {ys} vx vy tx ty =
    let len_x = length-words h x.blk x.off x.len vx.at in
    let len_y = length-words h y.blk y.off y.len vy.at in
    elim (Bool-cases (x.len == y.len)) [
      | inr other ↦ record {
        answer = order x.len y.len;
        returns = nat_cmp-lengths h x y (inl (==→ne x.len y.len other));
        says =
            rw (← len_x, ← len_y)
              (order-shorter xs ys vx.all vy.all tx ty
                (λ e. ==→ne x.len y.len other (omega arith)));
        same = λ size e. absurd (==→ne x.len y.len other (sym len_x ∙ size ∙ len_y));
        lengths = rw (len_x, len_y) (order-Says x.len y.len);
      }
      | inl same ↦ elim (Bool-cases (x.len == 0)) [
        | inl none' ↦
            let zero_x = ==→eq x.len 0 none' in
            let zero_y : y.len ≡ 0 = omega (arith, ==→eq x.len y.len same) in
            record {
              answer = order x.len y.len;
              returns = nat_cmp-lengths h x y (inr zero_x);
              says =
                  rw (order_refl x.len y.len (==→eq x.len y.len same))
                    (length-zero xs (len_x ∙ zero_x) ∙ sym (length-zero ys (len_y ∙ zero_y)));
              same = λ size e. order_refl x.len y.len (==→eq x.len y.len same);
              lengths = rw (len_x, len_y) (order-Says x.len y.len);
            }
        | inr some' ↦
            nat_cmp-Compared-suc h x y (x.len - 1) vx vy (omega (arith, ==→ne x.len 0 some'))
              (omega (arith, ==→ne x.len 0 some', ==→eq x.len y.len same))
      ]
    ]
