-- ===== src/Rpc/Reader/Laws.antt =====
-- Reads of what is ahead of a reader.
use demo.Common.{
  ℕ, ◌+◌, ◌%◌, ◌^◌, ◌≤◌, ◌<◌, ◌≡◌, refl, arith, ap, List, [], ◌++◌, length, drop, length-append,
  take-append, drop-append, append_assoc, none, some, le→ltb, le→leb, lt→ltb,
}
use demo.Common.Effect.{◌>>=◌}
use demo.Common.Alloc.{Heap}
use demo.Rpc.Reader.{Reader, reader_init, reader_read_bytes}

-- The reader is inside its bytes, and `rest` is ahead of it.
pub record Ahead (r : Reader) (rest : List ℕ) : Type 0 where
  pub front : List ℕ
  pub split : r.bytes ≡ front ++ rest
  pub here : r.pos ≡ length front
  pub whole : r.len ≡ length r.bytes
  pub small : r.len < 2 ^ 63

pub reader_init-Ahead :
    (bytes : List ℕ) → length bytes < 2 ^ 63 → Ahead (reader_init bytes (length bytes)) bytes
unfolding reader_init
reader_init-Ahead bytes lt = record {
  front = [];
  split = refl;
  here = refl;
  whole = refl;
  small = lt;
}

abbrev pub advance : Reader → ℕ → Reader
advance r n = record r { pos = r.pos + n }

module _ (r : Reader) (xs rest : List ℕ) (a : Ahead r (xs ++ rest)) where
  total : length r.bytes ≡ r.pos + (length xs + length rest)
  total =
      omega (
        arith,
        ap length a.split,
        length-append a.front (xs ++ rest),
        length-append xs rest,
        a.here,
      )

  ahead : drop r.pos r.bytes ≡ xs ++ rest
  ahead = rw (a.split, a.here) (drop-append a.front (xs ++ rest))

  pub reader_read_bytes-some :
      (n : ℕ) (h : Heap)
      → length xs ≡ n
      → reader_read_bytes r n h ≡ some ((some xs, advance r n), h)
  unfolding reader_read_bytes
  reader_read_bytes-some n h e =
      let inside : r.pos + n ≤ r.len = omega (arith, total, a.whole) in
      let wide : (r.pos + n) % 2 ^ 64 ≤ r.len = omega (arith, a.small) in
      let within : r.pos + n ≤ length r.bytes = omega (arith, a.whole) in
      rw
        (
          le→ltb r.len ((r.pos + n) % 2 ^ 64) wide,
          ◌>>=◌,
          le→leb (r.pos + n) (length r.bytes) within,
          ahead,
          ← e,
          take-append xs rest,
        )
        refl

  pub advance-Ahead : (n : ℕ) → length xs ≡ n → Ahead (advance r n) rest
  advance-Ahead n e = record {
    front = a.front ++ xs;
    split = rw append_assoc a.split;
    here = omega (arith, a.here, length-append a.front xs);
    whole = a.whole;
    small = a.small;
  }

-- Fewer bytes are ahead than are asked for: the reader stays where it is.
pub reader_read_bytes-none :
    (r : Reader) (rest : List ℕ) (n : ℕ) (h : Heap)
    → Ahead r rest
    → length rest < n
    → n < 2 ^ 63
    → reader_read_bytes r n h ≡ some ((none, r), h)
unfolding reader_read_bytes
reader_read_bytes-none r rest n h a few small =
    let total : r.len ≡ r.pos + length rest =
      omega (arith, a.whole, ap length a.split, length-append a.front rest, a.here) in
    rw (lt→ltb r.len ((r.pos + n) % 2 ^ 64) (omega (arith, a.small))) refl
