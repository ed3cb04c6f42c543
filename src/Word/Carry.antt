-- ===== src/Word/Carry.antt =====
-- cmake/bigint/src/base.c: addition, subtraction and multiplication. Each returns its result with
-- what the C code stores through the last pointer. `size_t` has 64 bits.
pub mod Laws
use demo.Common.{ℕ, ◌+◌, ◌-◌, ◌*◌, ◌/◌, ◌%◌, ◌^◌, bit_and, bit_or, bit_xor, ◌==◌, if◌then◌else◌}

-- `UintSize` of nat.h.
abbrev pub uint_size : ℕ
uint_size = 64

-- The words have `B` values; `_M` is `B - 1`.
abbrev pub B : ℕ
B = 2 ^ 64

abbrev pub u32 : ℕ → ℕ
u32 x = x % 2 ^ 32

abbrev pub u64 : ℕ → ℕ
u64 x = x % 2 ^ 64

-- `~x`
abbrev pub not32 : ℕ → ℕ
not32 x = 2 ^ 32 - 1 - x

abbrev pub not64 : ℕ → ℕ
not64 x = 2 ^ 64 - 1 - x

unfoldable pub u32_add : ℕ → ℕ → ℕ → ℕ × ℕ
u32_add x y carry = let sum64 = u64 (u64 (x + y) + carry) in (u32 sum64, u32 (sum64 / 2 ^ 32))

unfoldable pub u64_add : ℕ → ℕ → ℕ → ℕ × ℕ
u64_add x y carry =
    let sum = u64 (x + y + carry) in
    (sum, bit_or (bit_and x y) (bit_and (bit_or x y) (not64 sum)) / 2 ^ 63)

unfoldable pub uint_add : ℕ → ℕ → ℕ → ℕ × ℕ
uint_add x y carry =
    if uint_size == 32 then u32_add (u32 x) (u32 y) (u32 carry) else u64_add x y carry

unfoldable pub u32_sub : ℕ → ℕ → ℕ → ℕ × ℕ
u32_sub a b borrow =
    let diff = u32 (a + 2 ^ 32 - b + 2 ^ 32 - borrow) in
    (diff, bit_or (bit_and (not32 a) b) (bit_and (not32 (bit_xor a b)) diff) / 2 ^ 31)

unfoldable pub u64_sub : ℕ → ℕ → ℕ → ℕ × ℕ
u64_sub x y borrow =
    let diff = u64 (x + 2 ^ 64 - y + 2 ^ 64 - borrow) in
    (diff, bit_or (bit_and (not64 x) y) (bit_and (not64 (bit_xor x y)) diff) / 2 ^ 63)

unfoldable pub uint_sub : ℕ → ℕ → ℕ → ℕ × ℕ
uint_sub x y borrow =
    if uint_size == 32 then u32_sub (u32 x) (u32 y) (u32 borrow) else u64_sub x y borrow

-- The low half, and the high half.
unfoldable pub u32_mul : ℕ → ℕ → ℕ × ℕ
u32_mul x y = let tmp = u64 (x * y) in (u32 tmp, tmp / 2 ^ 32)

unfoldable pub u64_mul : ℕ → ℕ → ℕ × ℕ
u64_mul x y =
    let x0 = bit_and x (2 ^ 32 - 1) in
    let x1 = x / 2 ^ 32 in
    let y0 = bit_and y (2 ^ 32 - 1) in
    let y1 = y / 2 ^ 32 in
    let w0 = u64 (x0 * y0) in
    let t = u64 (u64 (x1 * y0) + w0 / 2 ^ 32) in
    let w1 = bit_and t (2 ^ 32 - 1) in
    let w2 = t / 2 ^ 32 in
    let w1' = u64 (w1 + u64 (x0 * y1)) in
    (u64 (x * y), u64 (u64 (u64 (x1 * y1) + w2) + w1' / 2 ^ 32))

unfoldable pub uint_mul : ℕ → ℕ → ℕ × ℕ
uint_mul x y = if uint_size == 32 then u32_mul (u32 x) (u32 y) else u64_mul x y
