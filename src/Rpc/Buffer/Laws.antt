-- ===== src/Rpc/Buffer/Laws.antt =====
-- What the buffer's operations write, where memory is granted and where it is not.
use demo.Common.{
  ℕ, suc, ◌+◌, ◌%◌, ◌^◌, ◌≤◌, ◌<◌, ◌≡◌, refl, arith, true, List, ◌++◌, length, length-append,
  Option, some, ltb, le→leb, Bool-cases, ltb→lt, ltb→le, inl, inr, ◌⊎◌,
}
use demo.Common.Int.{ℤ}
use demo.Common.Effect.{◌>>=◌}
use demo.Rpc.{success, failure}
use demo.Common.Alloc.{Heap, realloc}
use demo.Rpc.Buffer.{Buffer, copy_in, new_cap, buffer_append}

-- `len` is at most `cap`.
pub record IsValid (b : Buffer) : Type 0 where
  pub fits : length b.bytes ≤ b.cap

-- The bytes `src` are appended; no block is allocated or freed.
pub record Appended (h : Heap) (b : Buffer) (src : List ℕ) (result : Option ((ℤ × Buffer) × Heap))
    : Type 0 where
  pub buffer : Buffer
  pub heap : Heap
  pub returns : result ≡ some ((success, buffer), heap)
  pub bytes : buffer.bytes ≡ b.bytes ++ src
  pub valid : IsValid buffer
  pub larger : b.cap ≤ buffer.cap
  pub live : heap.live ≡ h.live
  pub fails : heap.fails ≡ h.fails

-- More room is asked for and not granted: the result is -1, and the buffer is as it was.
pub record Refused (h : Heap) (b : Buffer) (src : List ℕ) (result : Option ((ℤ × Buffer) × Heap))
    : Type 0 where
  pub heap : Heap
  pub returns : result ≡ some ((failure, b), heap)
  pub refused : h.fails h.calls ≡ true
  pub full : b.cap < length b.bytes + length src
  pub live : heap.live ≡ h.live

copy_in_lem :
    (b : Buffer) (src : List ℕ) (h : Heap)
    → length b.bytes + length src ≤ b.cap
    → copy_in b src h ≡ some ((success, record b { bytes = b.bytes ++ src }), h)
unfolding copy_in
copy_in_lem b src h le = rw (le→leb (length b.bytes + length src) b.cap le) refl

-- The new capacity is enough, also where its double wraps around.
new_cap-le :
    (b : Buffer) (n : ℕ)
    → length b.bytes + n < 2 ^ 64
    → b.cap < length b.bytes + n
    → length b.bytes + n ≤ new_cap b n
unfolding new_cap
new_cap-le b n small more = ground arith

-- `buffer_append`, for less than 2^64 bytes in all, either appends the bytes and returns 0, or
-- returns -1 and leaves the buffer as it was, and this only where `realloc` fails and the bytes do
-- not fit.
pub buffer_append-Outcome :
    (b : Buffer) (src : List ℕ) (h : Heap)
    → IsValid b
    → length b.bytes + length src < 2 ^ 64
    → Appended h b src (buffer_append b src h) ⊎ Refused h b src (buffer_append b src h)
unfolding buffer_append
buffer_append-Outcome b src h v small =
    elim (Bool-cases (ltb b.cap ((length b.bytes + length src) % 2 ^ 64))) [
      | inr e ↦
          let le : length b.bytes + length src ≤ b.cap = omega (arith, ltb→le b.cap _ e) in
          inl (record {
            buffer = record b { bytes = b.bytes ++ src };
            heap = h;
            returns = rw e (copy_in_lem b src h le);
            bytes = refl;
            valid = record { fits = omega (arith, length-append b.bytes src) };
            larger = omega arith;
            live = refl;
            fails = refl;
          })
      | inl e ↦
          let more : b.cap < length b.bytes + length src = omega (arith, ltb→lt b.cap _ e) in
          elim (Bool-cases (h.fails h.calls)) [
            | inl refused ↦ inr (record {
              heap = record h { calls = suc h.calls };
              returns = rw e (unfold realloc in rw (◌>>=◌, refused) refl);
              refused = refused;
              full = more;
              live = refl;
            })
            | inr granted ↦
                let le = new_cap-le b (length src) small more in
                let b' = record b { cap = new_cap b (length src) } in
                let h' = record h { calls = suc h.calls } in
                inl (record {
                  buffer = record b' { bytes = b.bytes ++ src };
                  heap = h';
                  returns = rw e (unfold realloc in rw (◌>>=◌, granted) (copy_in_lem b' src h' le));
                  bytes = refl;
                  valid = record { fits = omega (arith, length-append b.bytes src) };
                  larger = omega arith;
                  live = refl;
                  fails = refl;
                })
          ]
    ]
