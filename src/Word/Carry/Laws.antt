-- ===== src/Word/Carry/Laws.antt =====
-- What the word operations of base.c compute, in plain arithmetic.
use demo.Common.{
  ℕ, ◌+◌, ◌-◌, ◌*◌, ◌/◌, ◌%◌, ◌^◌, ◌≤◌, ◌<◌, min, max, ◌≡◌, ap₂, arith, bit_and, bit_or, bit_xor,
}
use demo.Common.Bits.{
  shift-bit_and, shift-bit_or, shift-bit_xor, bit_and_bits, bit_or_bits, bit_xor_bits, bit_and_mask,
}
use demo.Word.Carry.{B, u64, not64, u64_add, uint_add, u64_sub, uint_sub, u64_mul, uint_mul}

-- The carry that `U64Add` reads off the top bits.
top_carry :
    (x y s : ℕ)
    → x < B
    → y < B
    → s < B
    → bit_or (bit_and x y) (bit_and (bit_or x y) (not64 s)) / 2 ^ 63
      ≡ max (min (x / 2 ^ 63) (y / 2 ^ 63)) (min (max (x / 2 ^ 63) (y / 2 ^ 63)) (1 - s / 2 ^ 63))
top_carry x y s hx hy hs =
    rw
      (
        shift-bit_or 63 (bit_and x y) (bit_and (bit_or x y) (not64 s)),
        shift-bit_and 63 x y,
        shift-bit_and 63 (bit_or x y) (not64 s),
        shift-bit_or 63 x y,
        bit_and_bits (x / 2 ^ 63) (y / 2 ^ 63) (omega arith) (omega arith),
        bit_or_bits (x / 2 ^ 63) (y / 2 ^ 63) (omega arith) (omega arith),
        bit_and_bits (max (x / 2 ^ 63) (y / 2 ^ 63)) (not64 s / 2 ^ 63) (omega arith) (omega arith),
        bit_or_bits (min (x / 2 ^ 63) (y / 2 ^ 63))
            (min (max (x / 2 ^ 63) (y / 2 ^ 63)) (not64 s / 2 ^ 63)) (omega arith) (omega arith),
      )
      (omega arith)

pub u64_add_lem :
    (x y c : ℕ)
    → x < B
    → y < B
    → c ≤ 1
    → ((u64_add x y c).0 + B * (u64_add x y c).1 ≡ x + y + c)
      × ((u64_add x y c).0 < B)
      × ((u64_add x y c).1 ≤ 1)
unfolding u64_add
u64_add_lem x y c hx hy hc = omega (arith, top_carry x y (u64 (x + y + c)) hx hy (omega arith))

-- `UIntAdd` of two words and a carry of at most 1 is exact: the word that it returns and the carry
-- that it stores, at most 1, are the two digits of the sum to the base 2^64.
pub uint_add_lem :
    (x y c : ℕ)
    → x < B
    → y < B
    → c ≤ 1
    → ((uint_add x y c).0 + B * (uint_add x y c).1 ≡ x + y + c)
      × ((uint_add x y c).0 < B)
      × ((uint_add x y c).1 ≤ 1)
unfolding uint_add
uint_add_lem x y c hx hy hc = u64_add_lem x y c hx hy hc

top_not : (z : ℕ) → z < B → not64 z / 2 ^ 63 ≡ 1 - z / 2 ^ 63
top_not z h = omega arith

top_xor :
    (x y : ℕ)
    → x < B
    → y < B
    → bit_xor x y / 2 ^ 63 ≡ max (x / 2 ^ 63) (y / 2 ^ 63) - min (x / 2 ^ 63) (y / 2 ^ 63)
top_xor x y hx hy =
    rw (shift-bit_xor 63 x y) (bit_xor_bits (x / 2 ^ 63) (y / 2 ^ 63) (omega arith) (omega arith))

top_borrow :
    (x y d : ℕ)
    → x < B
    → y < B
    → d < B
    → bit_or (bit_and (not64 x) y) (bit_and (not64 (bit_xor x y)) d) / 2 ^ 63
      ≡ max
          (min (1 - x / 2 ^ 63) (y / 2 ^ 63))
          (min (1 - (max (x / 2 ^ 63) (y / 2 ^ 63) - min (x / 2 ^ 63) (y / 2 ^ 63))) (d / 2 ^ 63))
top_borrow x y d hx hy hd =
    rw
      (
        shift-bit_or 63 (bit_and (not64 x) y) (bit_and (not64 (bit_xor x y)) d),
        shift-bit_and 63 (not64 x) y,
        shift-bit_and 63 (not64 (bit_xor x y)) d,
        top_not x hx,
        top_not (bit_xor x y) (omega (arith, top_xor x y hx hy)),
        top_xor x y hx hy,
        bit_and_bits (1 - x / 2 ^ 63) (y / 2 ^ 63) (omega arith) (omega arith),
        bit_and_bits (1 - (max (x / 2 ^ 63) (y / 2 ^ 63) - min (x / 2 ^ 63) (y / 2 ^ 63)))
            (d / 2 ^ 63) (omega arith) (omega arith),
      )
      (bit_or_bits _ _ (omega arith) (omega arith))

pub u64_sub_lem :
    (x y c : ℕ)
    → x < B
    → y < B
    → c ≤ 1
    → ((u64_sub x y c).0 + y + c ≡ x + B * (u64_sub x y c).1)
      × ((u64_sub x y c).0 < B)
      × ((u64_sub x y c).1 ≤ 1)
unfolding u64_sub
u64_sub_lem x y c hx hy hc =
    omega (arith, top_borrow x y (u64 (x + 2 ^ 64 - y + 2 ^ 64 - c)) hx hy (omega arith))

-- `UIntSub` of two words and a borrow of at most 1 is exact: the word that it returns is the
-- difference to the base 2^64, and the borrow that it stores, at most 1, is what it lacks.
pub uint_sub_lem :
    (x y c : ℕ)
    → x < B
    → y < B
    → c ≤ 1
    → ((uint_sub x y c).0 + y + c ≡ x + B * (uint_sub x y c).1)
      × ((uint_sub x y c).0 < B)
      × ((uint_sub x y c).1 ≤ 1)
unfolding uint_sub
uint_sub_lem x y c hx hy hc = u64_sub_lem x y c hx hy hc

-- The four products of the halves, put together as `U64Mul` does.
module _ (a b c d : ℕ) where
  abbrev whole : ℕ
  whole = 2 ^ 64 * a + 2 ^ 32 * b + 2 ^ 32 * c + d

  abbrev middle : ℕ
  middle = u64 (u64 b + u64 d / 2 ^ 32)

  abbrev high : ℕ
  high = u64 (u64 (u64 a + middle / 2 ^ 32) + u64 (middle % 2 ^ 32 + u64 c) / 2 ^ 32)

  join_halves :
      a ≤ (2 ^ 32 - 1) * (2 ^ 32 - 1)
      → b ≤ (2 ^ 32 - 1) * (2 ^ 32 - 1)
      → c ≤ (2 ^ 32 - 1) * (2 ^ 32 - 1)
      → d ≤ (2 ^ 32 - 1) * (2 ^ 32 - 1)
      → (u64 whole + B * high ≡ whole) × (u64 whole < B) × (high < B)
  join_halves ha hb hc hd = omega arith

product_of_halves :
    (x y : ℕ)
    → x * y
      ≡ whole
          (x / 2 ^ 32 * (y / 2 ^ 32))
          (x / 2 ^ 32 * (y % 2 ^ 32))
          (x % 2 ^ 32 * (y / 2 ^ 32))
          (x % 2 ^ 32 * (y % 2 ^ 32))
product_of_halves x y = omega (arith, ap₂ ◌*◌ (split x) (split y))
  where
    split : (n : ℕ) → n ≡ 2 ^ 32 * (n / 2 ^ 32) + n % 2 ^ 32
    split n = omega arith

pub product-le : (m x y : ℕ) → x ≤ m → y ≤ m → x * y ≤ m * m
product-le m x y p q = grind arith

pub u64_mul_lem :
    (x y : ℕ)
    → x < B
    → y < B
    → ((u64_mul x y).0 + B * (u64_mul x y).1 ≡ x * y)
      × ((u64_mul x y).0 < B)
      × ((u64_mul x y).1 < B)
unfolding u64_mul
u64_mul_lem x y hx hy =
    rw (bit_and_mask 32 x, bit_and_mask 32 y, bit_and_mask 32, product_of_halves x y)
      (join_halves _ _ _ _ (product-le (2 ^ 32 - 1) _ _ (omega arith) (omega arith))
        (product-le (2 ^ 32 - 1) _ _ (omega arith) (omega arith))
        (product-le (2 ^ 32 - 1) _ _ (omega arith) (omega arith))
        (product-le (2 ^ 32 - 1) _ _ (omega arith) (omega arith)))

-- `UIntMul` of two words is exact: the word that it returns and the word that it stores are the low
-- and the high digit of the product to the base 2^64.
pub uint_mul_lem :
    (x y : ℕ)
    → x < B
    → y < B
    → ((uint_mul x y).0 + B * (uint_mul x y).1 ≡ x * y)
      × ((uint_mul x y).0 < B)
      × ((uint_mul x y).1 < B)
unfolding uint_mul
uint_mul_lem x y hx hy = u64_mul_lem x y hx hy
