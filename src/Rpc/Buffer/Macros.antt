-- ===== src/Rpc/Buffer/Macros.antt =====
-- The macros of rpc_c.h write the bytes of a message, where memory is granted.
use demo.Common.{
  ℕ, suc, ◌+◌, ◌^◌, ◌<◌, ◌≡◌, refl, arith, ap, sym, ◌∙◌, List, [], ◌∷◌, ◌++◌, length, length-append,
  append_assoc, append-nil, Option, some,
}
use demo.Common.Int.{ℤ}
use demo.Common.Effect.{pure, ◌>>=◌}
use demo.Rpc.{code}
use demo.Rpc.Bytes.{le_bytes}
use demo.Common.Alloc.{IsPlenty, IsPlenty-same, malloc_grants, Heap, M}
use demo.Rpc.Buffer.{
  Buffer, buffer_new, buffer_append, buffer_append_u8, buffer_push_arg, apply_push,
  buffer_push_args, rpc_make_req, rpc_make_rsp,
}
use demo.Rpc.Buffer.Laws.{IsValid, Appended}
use demo.Rpc.Message.{counted_bytes, call_message}
use demo.Rpc.Args.{Arg, IsArg, AllArgs, payload, arg_bytes, args_bytes}
use demo.Rpc.Buffer.Writes.{
  buffer_append_dt-Appended, append-Appended, left_room, first_room, Appended-then, take-u16,
}

-- What a macro has written.
pub record Wrote (h : Heap) (b : Buffer) (src : List ℕ) (result : Option (Buffer × Heap))
    : Type 0 where
  pub buffer : Buffer
  pub heap : Heap
  pub returns : result ≡ some (buffer, heap)
  pub bytes : buffer.bytes ≡ b.bytes ++ src
  pub valid : IsValid buffer
  pub live : heap.live ≡ h.live
  pub fails : heap.fails ≡ h.fails

abbrev Wrote-of :
    (h : Heap) (b : Buffer) (src : List ℕ) {r : Option ((ℤ × Buffer) × Heap)}
    {result : Option (Buffer × Heap)} (a : Appended h b src r)
    → result ≡ some (a.buffer, a.heap)
    → Wrote h b src result
Wrote-of h b src a e = record {
  buffer = a.buffer;
  heap = a.heap;
  returns = e;
  bytes = a.bytes;
  valid = a.valid;
  live = a.live;
  fails = a.fails;
}

pub Wrote-same :
    (h : Heap) (b : Buffer) (src : List ℕ) {result result' : Option (Buffer × Heap)}
    → result' ≡ result
    → Wrote h b src result
    → Wrote h b src result'
Wrote-same h b src e w = record {
  buffer = w.buffer;
  heap = w.heap;
  returns = e ∙ w.returns;
  bytes = w.bytes;
  valid = w.valid;
  live = w.live;
  fails = w.fails;
}

-- One step writes `s`, and the ones after it write `t`.
Wrote-then :
    (h : Heap) (b : Buffer) (s t : List ℕ) {r r' result : Option (Buffer × Heap)}
    (a : Wrote h b s r)
    → Wrote a.heap a.buffer t r'
    → result ≡ r'
    → Wrote h b (s ++ t) result
Wrote-then h b s t a a' e = record {
  buffer = a'.buffer;
  heap = a'.heap;
  returns = e ∙ a'.returns;
  bytes = a'.bytes ∙ ap (λ (x : List ℕ). x ++ t) a.bytes ∙ rw append_assoc refl;
  valid = a'.valid;
  live = a'.live ∙ a.live;
  fails = a'.fails ∙ a.fails;
}

Wrote-room :
    (h : Heap) (b : Buffer) (s t : List ℕ) {r : Option (Buffer × Heap)} (a : Wrote h b s r)
    → length b.bytes + length (s ++ t) < 2 ^ 64
    → length a.buffer.bytes + length t < 2 ^ 64
Wrote-room h b s t a lt =
    omega (arith, ap length a.bytes, length-append b.bytes s, length-append s t)

module _ (b : Buffer) (h : Heap) (p : IsPlenty h) (v : IsValid b) where
  push_arg-Wrote :
      (w : Arg)
      → IsArg w
      → length b.bytes + length (arg_bytes w) < 2 ^ 64
      → Wrote h b (arg_bytes w) (buffer_push_arg b w h)
  unfolding buffer_push_arg
  push_arg-Wrote w q small =
      let type = le_bytes 1 (code w.0) in
      let a = append-Appended b type h p v (first_room b type (payload w) small) in
      let a' =
        buffer_append_dt-Appended a.buffer a.heap (IsPlenty-same a.fails p) a.valid w q
          (left_room h b type (payload w) a small) in
      Wrote-of h b (arg_bytes w) (Appended-then h b type (payload w) a a' refl)
        (rw (◌>>=◌, a.returns, a'.returns) refl)

  append_u8-Wrote :
      (n : ℕ)
      → length b.bytes + length (le_bytes 1 n) < 2 ^ 64
      → Wrote h b (le_bytes 1 n) ((buffer_append_u8 b n >>= λ x. pure x.1) h)
  unfolding buffer_append_u8
  append_u8-Wrote n small =
      let a = append-Appended b (le_bytes 1 n) h p v small in
      Wrote-of h b (le_bytes 1 n) a (rw (◌>>=◌, a.returns) refl)

apply_push-Wrote :
    (b : Buffer) (h : Heap) (ws : List Arg)
    → IsPlenty h
    → IsValid b
    → AllArgs ws
    → length b.bytes + length (args_bytes ws) < 2 ^ 64
    → Wrote h b (args_bytes ws) (apply_push b ws h)
unfolding apply_push
apply_push-Wrote b h [] p v q small = record {
  buffer = b;
  heap = h;
  returns = refl;
  bytes = sym (append-nil b.bytes);
  valid = v;
  live = refl;
  fails = refl;
}
apply_push-Wrote b h (w ∷ ws) p v q small =
    let a = push_arg-Wrote b h p v w q.0 (first_room b (arg_bytes w) (args_bytes ws) small) in
    let a' =
      apply_push-Wrote a.buffer a.heap ws (IsPlenty-same a.fails p) a.valid q.1
        (Wrote-room h b (arg_bytes w) (args_bytes ws) a small) in
    Wrote-then h b (arg_bytes w) (args_bytes ws) a a' (rw (◌>>=◌, a.returns) refl)

-- `BUFFER_PUSH_ARGS` writes the number of the arguments and the arguments.
pub buffer_push_args-Wrote :
    (b : Buffer) (h : Heap) (ws : List Arg)
    → IsPlenty h
    → IsValid b
    → AllArgs ws
    → length b.bytes + length (counted_bytes ws) < 2 ^ 64
    → Wrote h b (counted_bytes ws) (buffer_push_args b ws h)
unfolding buffer_push_args buffer_append_u8
buffer_push_args-Wrote b h ws p v q small =
    let n = le_bytes 1 (length ws) in
    let a = append-Appended b n h p v (first_room b n (args_bytes ws) small) in
    let a' =
      apply_push-Wrote a.buffer a.heap ws (IsPlenty-same a.fails p) a.valid q
        (left_room h b n (args_bytes ws) a small) in
    Wrote-then h b n (args_bytes ws) (Wrote-of h b n {result = some (a.buffer, a.heap)} a refl) a'
      (rw (◌>>=◌, a.returns) refl)

-- `RPC_MAKE_RSP` writes a result and the values with it.
pub rpc_make_rsp-Wrote :
    (b : Buffer) (h : Heap) (res : ℕ) (ws : List Arg)
    → IsPlenty h
    → IsValid b
    → AllArgs ws
    → length b.bytes + length (le_bytes 1 res ++ counted_bytes ws) < 2 ^ 64
    → Wrote h b (le_bytes 1 res ++ counted_bytes ws) (rpc_make_rsp b res ws h)
unfolding rpc_make_rsp buffer_append_u8
rpc_make_rsp-Wrote b h res ws p v q small =
    let n = le_bytes 1 res in
    let a = append-Appended b n h p v (first_room b n (counted_bytes ws) small) in
    let a' =
      buffer_push_args-Wrote a.buffer a.heap ws (IsPlenty-same a.fails p) a.valid q
        (left_room h b n (counted_bytes ws) a small) in
    Wrote-then h b n (counted_bytes ws) (Wrote-of h b n {result = some (a.buffer, a.heap)} a refl)
      a' (rw (◌>>=◌, a.returns) refl)

abbrev pub empty_buffer : ℕ → Buffer
empty_buffer cap = record { bytes = []; cap = cap }

-- The heap after two allocations.
abbrev pub two_more : Heap → Heap
two_more h = record h { calls = suc (suc h.calls); live = suc (suc h.live) }

pub buffer_new-granted :
    (h : Heap) (cap : ℕ)
    → IsPlenty h
    → buffer_new cap h ≡ some (some (empty_buffer cap), two_more h)
unfolding buffer_new
buffer_new-granted h cap p =
    let h1 = record h { calls = suc h.calls; live = suc h.live } in
    let p1 : IsPlenty h1 = record { plenty = p.plenty } in
    rw (◌>>=◌, malloc_grants h p, malloc_grants h1 p1) refl

pub record Made (h : Heap) (bytes : List ℕ) (result : Option (Buffer × Heap)) : Type 0 where
  pub buffer : Buffer
  pub heap : Heap
  pub returns : result ≡ some (buffer, heap)
  pub bytes_of : buffer.bytes ≡ bytes
  pub valid : IsValid buffer
  pub live : heap.live ≡ h.live + 2
  pub fails : heap.fails ≡ h.fails

-- An append, and what comes after it.
append-then :
    (b : Buffer) (h : Heap) (src t : List ℕ) (rest : Buffer → M Buffer)
    (a : Appended h b src (buffer_append b src h))
    → Wrote a.heap a.buffer t (rest a.buffer a.heap)
    → Wrote h b (src ++ t) ((buffer_append b src >>= λ x. rest x.1) h)
append-then b h src t rest a after =
    Wrote-then h b src t (Wrote-of h b src {result = some (a.buffer, a.heap)} a refl) after
      (rw (◌>>=◌, a.returns) refl)

-- The bytes of a request, into a new buffer.
abbrev fill : List ℕ → List Arg → List ℕ → Buffer → M Buffer
fill func ws taken b = buffer_append b (le_bytes 2 (length func)) >>= λ x.
    (buffer_append x.1 taken >>= λ y. buffer_push_args y.1 ws)

fill-Wrote :
    (b : Buffer) (h : Heap) (func : List ℕ) (ws : List Arg)
    → IsPlenty h
    → IsValid b
    → AllArgs ws
    → length b.bytes + length (call_message func (counted_bytes ws)) < 2 ^ 64
    → Wrote h b (call_message func (counted_bytes ws)) (fill func ws func b h)
fill-Wrote b h func ws p v q small =
    let n = le_bytes 2 (length func) in
    let a = append-Appended b n h p v (first_room b n (func ++ counted_bytes ws) small) in
    let small' = left_room h b n (func ++ counted_bytes ws) a small in
    let p' = IsPlenty-same a.fails p in
    let a' =
      append-Appended a.buffer func a.heap p' a.valid
        (first_room a.buffer func (counted_bytes ws) small') in
    append-then b h n (func ++ counted_bytes ws)
      (λ c. buffer_append c func >>= λ y. buffer_push_args y.1 ws) a
      (append-then a.buffer a.heap func (counted_bytes ws) (λ c. buffer_push_args c ws) a'
        (buffer_push_args-Wrote a'.buffer a'.heap ws (IsPlenty-same a'.fails p') a'.valid q
          (left_room a.heap a.buffer func (counted_bytes ws) a' small')))

rpc_make_req-fill :
    (h : Heap) (func : List ℕ) (ws : List Arg)
    → IsPlenty h
    → length func < 65536
    → rpc_make_req func ws h ≡ fill func ws func (empty_buffer 1024) (two_more h)
unfolding rpc_make_req
rpc_make_req-fill h func ws p lt =
    rw (◌>>=◌, buffer_new-granted h 1024 p) refl
    ∙ ap (λ taken. fill func ws taken (empty_buffer 1024) (two_more h)) (take-u16 func lt)

-- `RPC_MAKE_REQ` makes a buffer of the function's name with its length, the number of the arguments
-- and the arguments, where memory is granted, the name is shorter than 65536 bytes and the whole
-- than 2^64.
pub rpc_make_req-Made :
    (h : Heap) (func : List ℕ) (ws : List Arg)
    → IsPlenty h
    → length func < 65536
    → AllArgs ws
    → length (call_message func (counted_bytes ws)) < 2 ^ 64
    → Made h (call_message func (counted_bytes ws)) (rpc_make_req func ws h)
rpc_make_req-Made h func ws p lt q small =
    let w =
      fill-Wrote (empty_buffer 1024) (two_more h) func ws (record { plenty = p.plenty })
        (record { fits = omega arith }) q (omega (arith, small)) in
    record {
      buffer = w.buffer;
      heap = w.heap;
      returns = rpc_make_req-fill h func ws p lt ∙ w.returns;
      bytes_of = w.bytes;
      valid = w.valid;
      live = omega (arith, w.live);
      fails = w.fails;
    }
