-- ===== src/Nat/Div/Basic.antt =====
-- cmake/bigint/src/natdiv.c: the school method, on a divisor of at least two words with its top bit
-- set. `none` is a fault of the heap, or a guess that is more than 2 too large.
use demo.Common.{ℕ, zero, suc, ◌+◌, ◌-◌, ◌^◌, ltb, leb, ◌==◌, ◌&&◌, if◌then◌else◌}
use demo.Memory.{M, pure, fault, ◌>>=◌, ◌>>◌}
use demo.Word.Carry.{B, u64}
use demo.Nat.{Nat, get, put, nat_new_len, nat_part, nat_free}
use demo.Nat.Add.{add_vv}
use demo.Nat.Sub.{sub_vv}
use demo.Nat.Mul.{mul_ww, mul_add_vww}
use demo.Nat.Div.{reciprocal_word, div_ww, attempt, greater_than}

-- `x.data[i - k]`
abbrev pub get_below : Nat → ℕ → ℕ → M ℕ
get_below x i k = if leb k i then get x (i - k) else fault

-- The loop that lowers a guess, on `qhat` and `rhat`: two rounds are enough.
unfoldable pub lower_guess : ℕ → ℕ → ℕ → ℕ → ℕ → ℕ → M ℕ
lower_guess vn1 vn2 ujn2 zero qhat rhat = fault
lower_guess vn1 vn2 ujn2 (suc f) qhat rhat =
    let x = mul_ww qhat vn2 in
    let qhat' = u64 (qhat + 2 ^ 64 - 1) in
    let rhat' = u64 (rhat + vn1) in
    let rest = lower_guess vn1 vn2 ujn2 f qhat' rhat' in
    if greater_than x.1 x.0 rhat ujn2
    then (if ltb rhat' rhat then pure qhat' else rest)
    else pure qhat

-- The guess of a digit, at `j`.
unfoldable pub guess_digit : Nat → Nat → ℕ → ℕ → ℕ → M ℕ
guess_digit u v rec vn1 j = do
  let n = v.len
  ujn ← (if ltb (j + n) u.len then get u (j + n) else pure 0)
  if ujn == vn1 then pure (B - 1) else do
    ujn1 ← get_below u (j + n) 1
    d ← attempt (div_ww ujn ujn1 vn1 rec)
    vn2 ← get_below v n 2
    ujn2 ← get_below u (j + n) 2
    lower_guess vn1 vn2 ujn2 2 d.0 d.1

-- What is done where the guess was one too large: the divisor is added back.
unfoldable pub add_back : Nat → Nat → ℕ → ℕ → ℕ → M ℕ
add_back u v j qhl qhat = do
  u3 ← nat_part u j (j + v.len)
  rest ← nat_part u j u.len
  cc ← add_vv u3 rest v
  (if ltb v.len qhl then (do w ← get u (j + v.len); put u (j + v.len) (u64 (w + cc))) else pure tt)
  pure (u64 (qhat + 2 ^ 64 - 1))

-- The guess times the divisor is taken from `u` at `j`: the digit.
unfoldable pub take_digit : Nat → Nat → Nat → ℕ → ℕ → M ℕ
take_digit u v qhatv j qhat = do
  low ← nat_part qhatv 0 v.len
  top ← mul_add_vww low v qhat 0
  put qhatv v.len top
  let qhl = if ltb u.len (j + qhatv.len) && top == 0 then qhatv.len - 1 else qhatv.len
  part ← nat_part u j (j + qhl)
  rest ← nat_part u j u.len
  c ← sub_vv part rest qhatv
  if c == 0 then pure qhat else add_back u v j qhl qhat

-- The loop on `j`, from `m` down: the digits below `j` are left.
unfoldable pub digit_loop : Nat → Nat → Nat → Nat → ℕ → ℕ → ℕ → ℕ → M (Unit {0})
digit_loop q u v qhatv rec vn1 m zero = pure tt
digit_loop q u v qhatv rec vn1 m (suc j) = do
  guess ← guess_digit u v rec vn1 j
  qhat ← take_digit u v qhatv j guess
  (if j == m && (m == q.len && qhat == 0) then pure tt else put q j qhat)
  digit_loop q u v qhatv rec vn1 m j

unfoldable pub nat_div_basic : Nat → Nat → Nat → M (Unit {0})
nat_div_basic q u v = do
  let n = v.len
  qhatv ← nat_new_len (n + 1)
  vn1 ← get_below v n 1
  rec ← attempt (reciprocal_word vn1)
  digit_loop q u v qhatv rec vn1 (u.len - n) (u.len + 1 - n)
  nat_free qhatv >>= λ _. pure tt
