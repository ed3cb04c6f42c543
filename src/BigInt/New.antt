-- ===== src/BigInt/New.antt =====
-- `BigIntNewI` and `BigIntNewU` hold the number that they are given.
use demo.Common.{
  ℕ, ◌-◌, ◌%◌, ◌^◌, ◌<◌, ◌≡◌, refl, arith, ap, ◌∙◌, Bool, true, false, Option, some, leb,
  if◌then◌else◌,
}
use demo.Common.Int.{ℤ, sub_ℕ, signed}
use demo.Word.Carry.{B}
use demo.Memory.{Heap, ◌>>=◌}
use demo.Nat.{Nat, nat_new}
use demo.Nat.Laws.{IsReady, Returns, Keeps-trans}
use demo.BigInt.{BigInt, big_int_new_i, big_int_new_u}
use demo.BigInt.Result.{ReturnsInt}
use demo.Nat.New.{nat_new-Returns}
use demo.BigInt.Grant.{granted, granted-Keeps, granted-IsReady, malloc-granted}

-- The number whose `int64_t` has the bit pattern `v`.
abbrev from_int64 : ℕ → ℤ
from_int64 v = sub_ℕ v (if leb (2 ^ 63) v then 2 ^ 64 else 0)

new-Returns :
    (h : Heap) (neg : Bool) (v : ℕ) {number : ℤ} {result : Option (Option BigInt × Heap)}
    → IsReady h
    → (d : Returns (granted h) v (nat_new v (granted h))) → signed neg v ≡ number
    → result ≡ some (some (record { neg = neg; abs = d.view }), d.heap)
    → ReturnsInt h number result
new-Returns h neg v r d same e = record {
  int = record { neg = neg; abs = d.view };
  heap = d.heap;
  digits = d.digits;
  returns = e;
  holds = d.holds;
  total = ap (signed neg) d.total ∙ same;
  keeps = Keeps-trans (granted-Keeps h) d.keeps;
  ready = d.ready;
}

magnitude : Bool → ℕ → ℕ
magnitude neg v = if neg then (2 ^ 64 - v) % 2 ^ 64 else v

signed-magnitude :
    (v : ℕ) → v < 2 ^ 64 → signed (leb (2 ^ 63) v) (magnitude (leb (2 ^ 63) v) v) ≡ from_int64 v
unfolding signed magnitude
signed-magnitude v lt = ground arith

magnitude-lt : (neg : Bool) (v : ℕ) → v < 2 ^ 64 → magnitude neg v < B
unfolding magnitude
magnitude-lt true v lt = omega arith
magnitude-lt false v lt = lt

new_i-run :
    (h : Heap) (v : ℕ) {z : Nat} {h' : Heap}
    → IsReady h
    → nat_new (magnitude (leb (2 ^ 63) v) v) (granted h) ≡ some (z, h')
    → big_int_new_i v h ≡ some (some (record { neg = leb (2 ^ 63) v; abs = z }), h')
unfolding magnitude big_int_new_i
new_i-run h v r e = rw (big_int_new_i, ◌>>=◌, malloc-granted h r, e) refl

-- `BigIntNewI` returns the number that the `int64_t` is, also the smallest one, where memory is
-- granted, and changes nothing that was there before.
big_int_new_i-Returns :
    (h : Heap) (v : ℕ) → IsReady h → v < 2 ^ 64 → ReturnsInt h (from_int64 v) (big_int_new_i v h)
big_int_new_i-Returns h v r lt =
    let d =
      nat_new-Returns (granted h) (magnitude (leb (2 ^ 63) v) v) (granted-IsReady h r)
        (magnitude-lt (leb (2 ^ 63) v) v lt) in
    new-Returns h (leb (2 ^ 63) v) _ r d (signed-magnitude v lt) (new_i-run h v r d.returns)

new_u-run :
    (h : Heap) (v : ℕ) {z : Nat} {h' : Heap}
    → IsReady h
    → nat_new v (granted h) ≡ some (z, h')
    → big_int_new_u v h ≡ some (some (record { neg = false; abs = z }), h')
unfolding big_int_new_u
new_u-run h v r e = rw (big_int_new_u, ◌>>=◌, malloc-granted h r, e) refl

-- `BigIntNewU` returns the number that it is given, where memory is granted, and changes nothing that
-- was there before.
pub big_int_new_u-Returns :
    (h : Heap) (v : ℕ) → IsReady h → v < 2 ^ 64 → ReturnsInt h (signed false v) (big_int_new_u v h)
big_int_new_u-Returns h v r lt =
    let d = nat_new-Returns (granted h) v (granted-IsReady h r) (omega arith) in
    new-Returns h false _ r d refl (new_u-run h v r d.returns)
