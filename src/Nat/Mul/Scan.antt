-- ===== src/Nat/Mul/Scan.antt =====
-- The rounds of the loops of natmul.c, as plain arithmetic.
use demo.Common.{ℕ, ◌+◌, ◌*◌, ◌-◌, ◌<◌, ◌≡◌, arith, List, [], ◌∷◌, length}
use demo.Word.Carry.{B, uint_mul}
use demo.Word.Carry.Laws.{uint_add_lem, uint_mul_lem, product-le}
use demo.Nat.Value.{value, radix, AllWords, scan}
use demo.Nat.Mul.{mul_add_www, add_mul_round}

-- `mulAddWWW` is exact: the two digits of x * y + c.
pub mul_add_www_lem :
    (x y c : ℕ)
    → x < B
    → y < B
    → c < B
    → ((mul_add_www x y c).0 + B * (mul_add_www x y c).1 ≡ x * y + c)
      × ((mul_add_www x y c).0 < B)
      × ((mul_add_www x y c).1 < B)
unfolding mul_add_www
mul_add_www_lem x y c hx hy hc =
    let p = uint_mul_lem x y hx hy in
    let s = uint_add_lem (uint_mul x y).0 c 0 p.1 hc (omega arith) in
    let top = product-le (B - 1) x y (omega arith) (omega arith) in
    omega (arith, p.0, p.1, p.2, s.0, s.1, s.2, top)

-- A round of `addMulVVW` is exact: the two digits of a * y + b + c.
pub add_mul_round_lem :
    (y a b c : ℕ)
    → y < B
    → a < B
    → b < B
    → c < B
    → ((add_mul_round y a b c).0 + B * (add_mul_round y a b c).1 ≡ a * y + b + c)
      × ((add_mul_round y a b c).0 < B)
      × ((add_mul_round y a b c).1 < B)
unfolding add_mul_round
add_mul_round_lem y a b c hy ha hb hc =
    let p = mul_add_www_lem a y b ha hy hb in
    let s = uint_add_lem (mul_add_www a y b).0 c 0 p.1 hc (omega arith) in
    let top = product-le (B - 1) a y (omega arith) (omega arith) in
    omega (arith, p.0, p.1, p.2, s.0, s.1, s.2, top)

-- `mulAddVWW` writes the words of value xs * y + c, and its result is the word on top.
pub scan-mul_add_www :
    (y : ℕ) (xs : List ℕ) (c : ℕ)
    → y < B
    → AllWords xs
    → c < B
    → let r = scan (λ a b c. mul_add_www a y c) xs xs c in
      (value r.0 + radix (length xs) * r.1 ≡ value xs * y + c) × AllWords r.0 × (r.1 < B)
scan-mul_add_www y [] c hy p hc = (omega arith, tt, hc)
scan-mul_add_www y (x ∷ xs) c hy p hc =
    let (sum, word, carry) = mul_add_www_lem x y c p.0 hy hc in
    let (sums, words, last) = scan-mul_add_www y xs (mul_add_www x y c).1 hy p.1 carry in
    (omega (arith, sum, sums), (word, words), last)

-- `addMulVVW` adds value xs * y to the words zs.
pub scan-add_mul_round :
    (y : ℕ) (xs zs : List ℕ) (c : ℕ)
    → y < B
    → length xs ≡ length zs
    → AllWords xs
    → AllWords zs
    → c < B
    → let r = scan (add_mul_round y) xs zs c in
      (value r.0 + radix (length xs) * r.1 ≡ value xs * y + value zs + c) × AllWords r.0 × (r.1 < B)
scan-add_mul_round y [] [] c hy e p q hc = (omega arith, tt, hc)
scan-add_mul_round y [] (z ∷ zs) c hy e p q hc = absurd (omega arith)
scan-add_mul_round y (x ∷ xs) [] c hy e p q hc = absurd (omega arith)
scan-add_mul_round y (x ∷ xs) (z ∷ zs) c hy e p q hc =
    let (sum, word, carry) = add_mul_round_lem y x z c hy p.0 q.0 hc in
    let (sums, words, last) =
      scan-add_mul_round y xs zs (add_mul_round y x z c).1 hy (omega arith) p.1 q.1 carry in
    (omega (arith, sum, sums), (word, words), last)
