-- ===== src/BigInt/Product.antt =====
-- `BigIntMul` multiplies integers, below the threshold of Karatsuba's method.
use demo.Common.{ℕ, suc, min, ◌<◌, refl, ap, ◌∙◌, List, not}
use demo.Common.Int.{◌*ℤ◌, signed}
use demo.Memory.{Heap, pure, ◌>>=◌}
use demo.Nat.Value.{value}
use demo.Nat.Laws.{IsReady, Holds, Holds-keep}
use demo.Nat.Mul.Karatsuba.{karatsuba_threshold}
use demo.Nat.Mul.Whole.{nat_mul}
use demo.Nat.Mul.Whole.Laws.{nat_mul-Returns}
use demo.BigInt.{BigInt, same_sign, big_int_mul}
use demo.BigInt.Grant.{granted, granted-Keeps, granted-IsReady}
use demo.BigInt.Result.{Gives, ReturnsInt}
use demo.BigInt.Sum.{settled, settle-run}
use demo.BigInt.Sign.{signed_mul}

product-Gives :
    (h : Heap) (f : ℕ) (x y : BigInt) {xs ys : List ℕ}
    → IsReady h
    → Holds h x.abs xs
    → Holds h y.abs ys
    → min x.abs.len y.abs.len < karatsuba_threshold
    → Gives h (signed x.neg (value xs) *ℤ signed y.neg (value ys)) (
        (nat_mul (suc (suc f)) x.abs y.abs >>= λ abs.
        pure {A = BigInt} (record { neg = not (same_sign x.neg y.neg); abs = abs }))
          h)
product-Gives h f x y {xs} {ys} r vx vy small =
    let d = nat_mul-Returns h x.abs y.abs f r vx vy small in
    record {
      int = record { neg = not (same_sign x.neg y.neg); abs = d.view };
      heap = d.heap;
      digits = d.digits;
      returns = rw (◌>>=◌, d.returns) refl;
      holds = d.holds;
      total =
          ap (signed (not (same_sign x.neg y.neg))) d.total
          ∙ signed_mul x.neg y.neg (value xs) (value ys);
      keeps = d.keeps;
      ready = d.ready;
    }

-- `BigIntMul` of two integers, of which one has fewer than `karatsubaThreshold` words, returns their
-- product and changes nothing that was there before, where memory is granted.
pub big_int_mul-ReturnsInt :
    (h : Heap) (f : ℕ) (x y : BigInt) {xs ys : List ℕ}
    → IsReady h
    → Holds h x.abs xs
    → Holds h y.abs ys
    → min x.abs.len y.abs.len < karatsuba_threshold
    → ReturnsInt h
        (signed x.neg (value xs) *ℤ signed y.neg (value ys))
        (big_int_mul (suc (suc f)) x y h)
unfolding big_int_mul
big_int_mul-ReturnsInt h f x y r vx vy small =
    let k = granted-Keeps h in
    let g =
      product-Gives (granted h) f x y (granted-IsReady h r) (Holds-keep k vx) (Holds-keep k vy)
        small in
    settled h g refl (settle-run h _ r g.returns)
