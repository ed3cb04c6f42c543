-- ===== src/BigInt/Text.antt =====
-- cmake/bigint/src/bigint.c: the text of an integer. The parameters are those of `natI2a`: the
-- floating-point estimate of the length, the fuel, and whether memory is granted.
use demo.Common.{ℕ, Bool, List, Option}
use demo.Memory.{M}
use demo.Nat.Text.Whole.{nat_i2a}
use demo.BigInt.{BigInt}

module _ (log_len : ℕ → ℕ → ℕ) (f : ℕ) (got_text got_table : Bool) where
  unfoldable pub big_int2_text : BigInt → ℕ → M (Option (List ℕ))
  big_int2_text x base = nat_i2a log_len f got_text got_table x.abs x.neg base

  unfoldable pub big_int2_string : BigInt → M (Option (List ℕ))
  big_int2_string x = nat_i2a log_len f got_text got_table x.abs x.neg 10

  unfoldable pub big_int2_hex_str : BigInt → M (Option (List ℕ))
  big_int2_hex_str x = nat_i2a log_len f got_text got_table x.abs x.neg 16
