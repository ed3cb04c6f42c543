-- ===== src/Word/Count.antt =====
-- cmake/bigint/src/base.c: the number of bits of a word, and of zeros above them. `none` is a read
-- outside the table.
pub mod Laws
pub mod Trailing
use demo.Common.{ℕ, ◌+◌, ◌-◌, ◌/◌, ◌^◌, List, [], ◌∷◌, Option, get_elem?, leb, ◌==◌, if◌then◌else◌}
use demo.Word.Carry.{uint_size, u32}
use mathlib.Core.Option.{map}

abbrev pub len8tab : List ℕ
len8tab =
    0 ∷ 1 ∷ 2 ∷ 2 ∷ 3 ∷ 3 ∷ 3 ∷ 3 ∷ 4 ∷ 4 ∷ 4 ∷ 4 ∷ 4 ∷ 4 ∷ 4 ∷ 4 ∷ 5 ∷ 5 ∷ 5 ∷ 5 ∷ 5 ∷ 5 ∷ 5 ∷ 5
    ∷ 5 ∷ 5 ∷ 5 ∷ 5 ∷ 5 ∷ 5 ∷ 5 ∷ 5 ∷ 6 ∷ 6 ∷ 6 ∷ 6 ∷ 6 ∷ 6 ∷ 6 ∷ 6 ∷ 6 ∷ 6 ∷ 6 ∷ 6 ∷ 6 ∷ 6 ∷ 6 ∷ 6
    ∷ 6 ∷ 6 ∷ 6 ∷ 6 ∷ 6 ∷ 6 ∷ 6 ∷ 6 ∷ 6 ∷ 6 ∷ 6 ∷ 6 ∷ 6 ∷ 6 ∷ 6 ∷ 6 ∷ 7 ∷ 7 ∷ 7 ∷ 7 ∷ 7 ∷ 7 ∷ 7 ∷ 7
    ∷ 7 ∷ 7 ∷ 7 ∷ 7 ∷ 7 ∷ 7 ∷ 7 ∷ 7 ∷ 7 ∷ 7 ∷ 7 ∷ 7 ∷ 7 ∷ 7 ∷ 7 ∷ 7 ∷ 7 ∷ 7 ∷ 7 ∷ 7 ∷ 7 ∷ 7 ∷ 7 ∷ 7
    ∷ 7 ∷ 7 ∷ 7 ∷ 7 ∷ 7 ∷ 7 ∷ 7 ∷ 7 ∷ 7 ∷ 7 ∷ 7 ∷ 7 ∷ 7 ∷ 7 ∷ 7 ∷ 7 ∷ 7 ∷ 7 ∷ 7 ∷ 7 ∷ 7 ∷ 7 ∷ 7 ∷ 7
    ∷ 7 ∷ 7 ∷ 7 ∷ 7 ∷ 7 ∷ 7 ∷ 7 ∷ 7 ∷ 8 ∷ 8 ∷ 8 ∷ 8 ∷ 8 ∷ 8 ∷ 8 ∷ 8 ∷ 8 ∷ 8 ∷ 8 ∷ 8 ∷ 8 ∷ 8 ∷ 8 ∷ 8
    ∷ 8 ∷ 8 ∷ 8 ∷ 8 ∷ 8 ∷ 8 ∷ 8 ∷ 8 ∷ 8 ∷ 8 ∷ 8 ∷ 8 ∷ 8 ∷ 8 ∷ 8 ∷ 8 ∷ 8 ∷ 8 ∷ 8 ∷ 8 ∷ 8 ∷ 8 ∷ 8 ∷ 8
    ∷ 8 ∷ 8 ∷ 8 ∷ 8 ∷ 8 ∷ 8 ∷ 8 ∷ 8 ∷ 8 ∷ 8 ∷ 8 ∷ 8 ∷ 8 ∷ 8 ∷ 8 ∷ 8 ∷ 8 ∷ 8 ∷ 8 ∷ 8 ∷ 8 ∷ 8 ∷ 8 ∷ 8
    ∷ 8 ∷ 8 ∷ 8 ∷ 8 ∷ 8 ∷ 8 ∷ 8 ∷ 8 ∷ 8 ∷ 8 ∷ 8 ∷ 8 ∷ 8 ∷ 8 ∷ 8 ∷ 8 ∷ 8 ∷ 8 ∷ 8 ∷ 8 ∷ 8 ∷ 8 ∷ 8 ∷ 8
    ∷ 8 ∷ 8 ∷ 8 ∷ 8 ∷ 8 ∷ 8 ∷ 8 ∷ 8 ∷ 8 ∷ 8 ∷ 8 ∷ 8 ∷ 8 ∷ 8 ∷ 8 ∷ 8 ∷ 8 ∷ 8 ∷ 8 ∷ 8 ∷ 8 ∷ 8 ∷ 8 ∷ 8
    ∷ 8 ∷ 8 ∷ 8 ∷ 8 ∷ 8 ∷ 8 ∷ 8 ∷ 8 ∷ 8 ∷ 8 ∷ 8 ∷ 8 ∷ 8 ∷ 8 ∷ 8 ∷ 8 ∷ []

unfoldable pub len8 : ℕ → Option ℕ
len8 x = get_elem? len8tab x

-- `if (x >= 1 << k) { x >>= k; n += k; }` on x and n.
abbrev pub halve : ℕ → ℕ × ℕ → ℕ × ℕ
halve k (x, n) = if leb (2 ^ k) x then (x / 2 ^ k, n + k) else (x, n)

-- `n + len8tab[x]`
abbrev pub add_len8 : ℕ × ℕ → Option ℕ
add_len8 (x, n) = map (λ l. n + l) (len8 x)

unfoldable pub len16 : ℕ → Option ℕ
len16 x = add_len8 (halve 8 (x, 0))

unfoldable pub len32 : ℕ → Option ℕ
len32 x = add_len8 (halve 8 (halve 16 (x, 0)))

unfoldable pub len64 : ℕ → Option ℕ
len64 x = add_len8 (halve 8 (halve 16 (halve 32 (x, 0))))

unfoldable pub len : ℕ → Option ℕ
len x = if uint_size == 32 then len32 (u32 x) else len64 x

unfoldable pub leading_zeros : ℕ → Option ℕ
leading_zeros x = map (λ l. uint_size - l) (len x)

unfoldable pub leading_zeros64 : ℕ → Option ℕ
leading_zeros64 x = map (λ l. 64 - l) (len64 x)

unfoldable pub leading_zeros8 : ℕ → Option ℕ
leading_zeros8 x = map (λ l. 8 - l) (len8 x)

unfoldable pub leading_zeros16 : ℕ → Option ℕ
leading_zeros16 x = map (λ l. 16 - l) (len16 x)

unfoldable pub leading_zeros32 : ℕ → Option ℕ
leading_zeros32 x = map (λ l. 32 - l) (len32 x)
