-- ===== src/Rpc/Buffer/Writes.antt =====
-- Appends to a buffer, one after the other, where memory is granted.
use demo.Common.{
  ℕ, suc, ◌+◌, ◌%◌, ◌^◌, ◌<◌, ◌≡◌, refl, arith, ap, ◌∙◌, List, ◌++◌, length, take, take-short,
  length-append, append_assoc, Option, lt→ltb, inl, inr,
}
use demo.Common.Int.{ℤ}
use demo.Common.Effect.{◌>>=◌}
use demo.Rpc.{width}
use demo.Rpc.Bytes.{le_bytes}
use demo.Common.Alloc.{IsPlenty, IsPlenty-same, malloc_grants, free_one, Heap}
use demo.Rpc.Buffer.{
  Buffer, number, text, message, buffer_append, append_text, append_message, buffer_append_dt,
}
use demo.Rpc.Buffer.Laws.{IsValid, Appended, buffer_append-Outcome}
use demo.Rpc.Args.{Arg, IsArg, payload}

pub append-Appended :
    (b : Buffer) (src : List ℕ) (h : Heap)
    → IsPlenty h
    → IsValid b
    → length b.bytes + length src < 2 ^ 64
    → Appended h b src (buffer_append b src h)
append-Appended b src h p v small = elim (buffer_append-Outcome b src h v small) [
  | inl a ↦ a
  | inr r ↦ absurd (cc (r.refused, p.plenty h.calls))
]

-- The room that is left after an append.
pub left_room :
    (h : Heap) (b : Buffer) (s t : List ℕ) {result : Option ((ℤ × Buffer) × Heap)}
    (a : Appended h b s result)
    → length b.bytes + length (s ++ t) < 2 ^ 64
    → length a.buffer.bytes + length t < 2 ^ 64
left_room h b s t a lt =
    omega (arith, ap length a.bytes, length-append b.bytes s, length-append s t)

pub first_room :
    (b : Buffer) (s t : List ℕ)
    → length b.bytes + length (s ++ t) < 2 ^ 64
    → length b.bytes + length s < 2 ^ 64
first_room b s t lt = omega (arith, length-append s t)

-- Two appends, one after the other.
abbrev pub Appended-then :
    (h : Heap) (b : Buffer) (s t : List ℕ) {r r' result : Option ((ℤ × Buffer) × Heap)}
    (a : Appended h b s r)
    → Appended a.heap a.buffer t r'
    → result ≡ r'
    → Appended h b (s ++ t) result
Appended-then h b s t a a' e = record {
  buffer = a'.buffer;
  heap = a'.heap;
  returns = e ∙ a'.returns;
  bytes = a'.bytes ∙ ap (λ (x : List ℕ). x ++ t) a.bytes ∙ rw append_assoc refl;
  valid = a'.valid;
  larger = omega (arith, a.larger, a'.larger);
  live = a'.live ∙ a.live;
  fails = a'.fails ∙ a.fails;
}

pub take-u16 : (s : List ℕ) → length s < 65536 → take (length s % 2 ^ 16) s ≡ s
take-u16 s lt = take-short (length s % 2 ^ 16) s (omega arith)

module _ (b : Buffer) (h : Heap) (p : IsPlenty h) (v : IsValid b) where
  append_text-Appended :
      (s : List ℕ)
      → length s < 65536
      → length b.bytes + length (le_bytes 2 (length s) ++ s) < 2 ^ 64
      → Appended h b (le_bytes 2 (length s) ++ s) (append_text b s h)
  unfolding append_text
  append_text-Appended s lt small =
      let size = le_bytes 2 (length s) in
      let a = append-Appended b size h p v (first_room b size s small) in
      let a' =
        append-Appended a.buffer s a.heap (IsPlenty-same a.fails p) a.valid
          (left_room h b size s a small) in
      Appended-then h b size s a a' (rw (◌>>=◌, a.returns, take-u16 s lt) refl)

  granted_heap : Heap
  granted_heap = record h { calls = suc h.calls; live = suc h.live }

  append_message-Appended :
      (s : List ℕ)
      → length s < 65536
      → length b.bytes + length (le_bytes 2 (length s) ++ s) < 2 ^ 64
      → Appended h b (le_bytes 2 (length s) ++ s) (append_message b s h)
  unfolding append_message granted_heap
  append_message-Appended s lt small =
      let size = le_bytes 2 (length s) in
      let p' : IsPlenty granted_heap = record { plenty = p.plenty } in
      let a = append-Appended b size granted_heap p' v (first_room b size s small) in
      let a' =
        append-Appended a.buffer s a.heap (IsPlenty-same a.fails p') a.valid
          (left_room granted_heap b size s a small) in
      record {
        buffer = a'.buffer;
        heap = record a'.heap { live = h.live };
        returns =
            rw
              (
                ◌>>=◌,
                malloc_grants h p,
                a.returns,
                a'.returns,
                free_one a'.heap h.live (a'.live ∙ a.live),
              )
              refl;
        bytes = a'.bytes ∙ ap (λ (x : List ℕ). x ++ s) a.bytes ∙ rw append_assoc refl;
        valid = a'.valid;
        larger = omega (arith, a.larger, a'.larger);
        live = refl;
        fails = a'.fails ∙ a.fails;
      }

  -- `buffer_append_dt` writes an argument's payload.
  pub buffer_append_dt-Appended :
      (w : Arg)
      → IsArg w
      → length b.bytes + length (payload w) < 2 ^ 64
      → Appended h b (payload w) (buffer_append_dt b w.0 w.1 h)
  unfolding buffer_append_dt
  buffer_append_dt-Appended (dt, number n) q small =
      rw (lt→ltb 0 (width dt) q.0) (append-Appended b (le_bytes (width dt) n) h p v small)
  buffer_append_dt-Appended (dt, text s) q small = rw q.0 (append_text-Appended s q.1 small)
  buffer_append_dt-Appended (dt, message s) q small = rw q.0 (append_message-Appended s q.1 small)
