-- ===== src/BigInt/Sum.antt =====
-- `BigIntAdd` and `BigIntSub` add and subtract integers, where no carry and no borrow runs on.
use demo.Common.{
  ℕ, ◌≤◌, ◌≡◌, refl, arith, ap, ◌∙◌, List, [], ◌∷◌, length, Bool, not, Option, none, some,
  if◌then◌else◌,
}
use demo.Common.Int.{ℤ, ◌-ℤ◌, signed}
use demo.Memory.{Heap, M, pure, ◌>>=◌}
use demo.Memory.Laws.{length-words}
use demo.Nat.{Nat, Order, less, equal, greater, nat_cmp}
use demo.Nat.Value.{value}
use demo.Nat.Laws.{IsReady, Holds, Keeps-trans}
use demo.Nat.Compare.{IsTrim, Says, nat_cmp-Compared}
use demo.Nat.Sub.{nat_sub}
use demo.Nat.Sub.Laws.{nat_sub-Returns}
use demo.BigInt.{BigInt, malloc_big_int, sub_magnitudes, settle}
use demo.BigInt.Grant.{granted, granted-Keeps, malloc-granted}
use demo.BigInt.Result.{IsCalm, Gives, ReturnsInt}
use demo.BigInt.Sign.{signed_sub, signed_sub_rev, signed_settle}

module _ (h : Heap) (s : Bool) (x y : Nat) {xs ys : List ℕ} (r : IsReady h) (vx : Holds h x xs)
    (vy : Holds h y ys) (tx : IsTrim xs) (ty : IsTrim ys) (calm : IsCalm xs ys) where
  below :
      value xs ≤ value ys
      → length xs ≤ length ys
      → nat_cmp x y h ≡ some (less, h)
      → Gives h (signed s (value xs) -ℤ signed s (value ys)) (sub_magnitudes s x y h)
  unfolding sub_magnitudes
  below le len e =
      let d = nat_sub-Returns h y x r vy vx (calm.take' len le) le in
      record {
        int = record { neg = not s; abs = d.view };
        heap = d.heap;
        digits = d.digits;
        returns = rw (e, ◌>>=◌, d.returns);
        holds = d.holds;
        total = ap (signed (not s)) d.total ∙ signed_sub_rev s (value xs) (value ys) le;
        keeps = d.keeps;
        ready = d.ready;
      }

  above :
      value ys ≤ value xs
      → length ys ≤ length xs
      → sub_magnitudes s x y h
        ≡ (nat_sub x y >>= λ abs. pure {A = BigInt} (record { neg = s; abs = abs })) h
      → Gives h (signed s (value xs) -ℤ signed s (value ys)) (sub_magnitudes s x y h)
  above le len step =
      let d = nat_sub-Returns h x y r vx vy (calm.take len le) le in
      record {
        int = record { neg = s; abs = d.view };
        heap = d.heap;
        digits = d.digits;
        returns = step ∙ rw (◌>>=◌, d.returns);
        holds = d.holds;
        total = ap (signed s) d.total ∙ signed_sub s (value xs) (value ys) le;
        keeps = d.keeps;
        ready = d.ready;
      }

  magnitudes-Gives :
      (o : Order)
      → nat_cmp x y h ≡ some (o, h)
      → Says o (value xs) (value ys)
      → Says o (length xs) (length ys)
      → Gives h (signed s (value xs) -ℤ signed s (value ys)) (sub_magnitudes s x y h)
  unfolding sub_magnitudes
  magnitudes-Gives less e le len = below le len e
  magnitudes-Gives equal e le len = above (omega arith) (omega arith) (rw (e, ◌>>=◌))
  magnitudes-Gives greater e le len = above le len (rw (e, ◌>>=◌))

  pub sub_magnitudes-Gives :
      Gives h (signed s (value xs) -ℤ signed s (value ys)) (sub_magnitudes s x y h)
  sub_magnitudes-Gives =
      let c = nat_cmp-Compared h x y vx vy tx ty in
      magnitudes-Gives c.answer c.returns c.says c.lengths

value-empty : (ws : List ℕ) → length ws ≡ 0 → value ws ≡ 0
value-empty [] e = refl
value-empty (w ∷ ws) e = absurd (omega arith)

settle-total :
    (h : Heap) (z : BigInt) (ws : List ℕ)
    → Holds h z.abs ws
    → signed (settle z).neg (value ws) ≡ signed z.neg (value ws)
unfolding settle
settle-total h z ws v =
    signed_settle z.neg z.abs.len (value ws)
      (λ e. value-empty ws (length-words h z.abs.blk z.abs.off z.abs.len v.at ∙ e))

abs-settle : (z : BigInt) → (settle z).abs ≡ z.abs
unfolding settle
abs-settle z = refl

pub settled :
    (h : Heap) {number other : ℤ} {result : Option (Option BigInt × Heap)}
    {inner : Option (BigInt × Heap)}
    → (g : Gives (granted h) other inner) → other ≡ number
    → result ≡ some (some (settle g.int), g.heap)
    → ReturnsInt h number result
settled h g same e = record {
  int = settle g.int;
  heap = g.heap;
  digits = g.digits;
  returns = e;
  holds = rw (abs-settle g.int) g.holds;
  total = settle-total g.heap g.int g.digits g.holds ∙ g.total ∙ same;
  keeps = Keeps-trans (granted-Keeps h) g.keeps;
  ready = g.ready;
}

-- What `BigIntAdd` and `BigIntSub` have in common: `m` computes the signed number.
pub settle-run :
    (h : Heap) (m : M BigInt) {z : BigInt} {h' : Heap}
    → IsReady h
    → m (granted h) ≡ some (z, h')
    → (malloc_big_int >>= λ given.
          if not given then pure none else (m >>= λ z. pure (some (settle z))))
        h
      ≡ some (some (settle z), h')
settle-run h m r e = rw (◌>>=◌, malloc-granted h r, e) refl
