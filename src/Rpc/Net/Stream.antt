-- ===== src/Rpc/Net/Stream.antt =====
-- Sockets as streams of bytes: what the operating system documents of them.
use demo.Common.{
  ℕ, zero, suc, ◌-◌, ◌^◌, ◌≤◌, ◌<◌, ◌≡◌, refl, arith, ap, sym, ◌∙◌, Bool, true, List, [], ◌∷◌, ◌++◌,
  length, length-append, some, eq→==, ne→==,
}
use demo.Rpc.Bytes.{length-le_bytes, from_le}
use demo.Rpc.Message.{word, from_le-word}
use demo.Rpc.Net.{Net, read_sock-read}
use demo.Rpc.Net.Read.{rpc_read_u32, read_loop, read_sock_until}

-- What is still to come on a connection and what has gone out. A read takes a part from the front,
-- at least a byte where there is one.
pub record Stream (net : Net) : Type 0 where
  pub incoming : net.Sock → List ℕ
  pub outgoing : net.Sock → List ℕ
  pub closed : net.Sock → Bool
  pub read_front :
      (n : ℕ) (s : net.Sock) → incoming s ≡ (net.read n s).0 ++ incoming (net.read n s).1
  pub read_most : (n : ℕ) (s : net.Sock) → length (net.read n s).0 ≤ n
  pub read_some :
      (n : ℕ) (s : net.Sock) → 0 < n → 0 < length (incoming s) → 0 < length (net.read n s).0
  pub read_quiet : (n : ℕ) (s : net.Sock) → outgoing (net.read n s).1 ≡ outgoing s
  pub write_quiet : (bs : List ℕ) (s : net.Sock) → incoming (net.write bs s).1 ≡ incoming s
  pub close_quiet : (s : net.Sock) → outgoing (net.close s) ≡ outgoing s
  pub closes : (s : net.Sock) → closed (net.close s) ≡ true

-- What cmake/rpc_c needs of a connection and does not see to: the four bytes of a header's word come in
-- one piece, and a write goes out whole. A stream socket may do otherwise.
pub record Whole (net : Net) (st : Stream net) : Type 0 where
  pub read_word : (s : net.Sock) → 4 ≤ length (st.incoming s) → length (net.read 4 s).0 ≡ 4
  pub write_all :
      (bs : List ℕ) (s : net.Sock) → st.outgoing (net.write bs s).1 ≡ st.outgoing s ++ bs
  pub write_count : (bs : List ℕ) (s : net.Sock) → (net.write bs s).0 ≡ length bs

append-same :
    (xs p rest q : List ℕ) → length xs ≡ length p → xs ++ rest ≡ p ++ q → (p ≡ xs) × (q ≡ rest)
append-same [] [] rest q e same = (refl, sym same)
append-same [] (y ∷ p) rest q e same = absurd (omega arith)
append-same (x ∷ xs) [] rest q e same = absurd (omega arith)
append-same (x ∷ xs) (y ∷ p) rest q e same =
    let tails : xs ++ rest ≡ p ++ q = cc in
    let (a, b) = append-same xs p rest q (omega arith) tails in (cc, b)

-- A piece from the front of `msg` and more.
append-piece :
    (msg p rest q : List ℕ)
    → length p ≤ length msg
    → msg ++ rest ≡ p ++ q
    → (more : List ℕ) × (msg ≡ p ++ more) × (q ≡ more ++ rest)
append-piece msg [] rest q le same = (msg, refl, sym same)
append-piece [] (y ∷ p) rest q le same = absurd (omega arith)
append-piece (x ∷ msg) (y ∷ p) rest q le same =
    let tails : msg ++ rest ≡ p ++ q = cc in
    let (more, a, b) = append-piece msg p rest q (omega arith) tails in (more, cc, b)

module _ (net : Net) (st : Stream net) where
  open net use {Sock, read}

  -- A socket after bytes were read.
  pub record After (s : Sock) (rest : List ℕ) (s' : Sock) : Type 0 where
    pub left : st.incoming s' ≡ rest
    pub quiet : st.outgoing s' ≡ st.outgoing s

  -- A round of the loop in which bytes come.
  round_lem :
      (rounds n : ℕ) (s s' : Sock) (more : List ℕ)
      → 0 < n
      → n < 2 ^ 31
      → 0 < length (read n s).0
      → read_loop net rounds (n - length (read n s).0) (read n s).1 ≡ (some more, s')
      → read_loop net (suc rounds) n s ≡ (some ((read n s).0 ++ more), s')
  unfolding read_loop
  round_lem rounds n s s' more lt few come e =
      rw
        (
          read_sock-read net n s few,
          ne→== n 0 (λ z. absurd (omega arith)),
          ne→== (length (read n s).0) 0 (λ z. absurd (omega arith)),
          e,
        )
        refl

  read_loop-some :
      (rounds : ℕ) (s : Sock) (msg rest : List ℕ)
      → length msg ≤ rounds
      → length msg < 2 ^ 31
      → st.incoming s ≡ msg ++ rest
      → (s' : Sock) × (read_loop net rounds (length msg) s ≡ (some msg, s')) × After s rest s'
  unfolding read_loop
  read_loop-some zero s [] rest le few e = (s, refl, record { left = e; quiet = refl })
  read_loop-some zero s (x ∷ msg) rest le few e = absurd (omega arith)
  read_loop-some (suc rounds) s [] rest le few e = (s, refl, record { left = e; quiet = refl })
  read_loop-some (suc rounds) s (x ∷ msg) rest le few e =
      let n = length (x ∷ msg) in
      let got = read n s in
      let some_bytes : 0 < length got.0 =
        st.read_some n s (omega arith) (omega (arith, ap length e)) in
      let (more, split, left) =
        append-piece (x ∷ msg) got.0 rest (st.incoming got.1) (st.read_most n s)
          (sym e ∙ st.read_front n s) in
      let size : length more ≡ n - length got.0 =
        omega (arith, ap length split, length-append got.0 more) in
      let (s', e', after) =
        read_loop-some rounds got.1 more rest (omega (arith, size)) (omega (arith, size, few))
          left in
      let again = ap (λ k. read_loop net rounds k got.1) (sym size) ∙ e' in
      let loop = round_lem rounds n s s' more (omega arith) few some_bytes again in
      (
        s',
        loop ∙ ap (λ (bs : List ℕ). (some bs, s')) (sym split),
        record { left = after.left; quiet = after.quiet ∙ st.read_quiet n s },
      )

  -- `read_sock_until` ends with the message that is ahead, of less than 2^31 bytes, in however many
  -- pieces it comes, leaves what is behind it and writes nothing.
  pub read_sock_until-some :
      (s : Sock) (msg rest : List ℕ)
      → length msg < 2 ^ 31
      → st.incoming s ≡ msg ++ rest
      → (s' : Sock) × (read_sock_until net (length msg) s ≡ (some msg, s')) × After s rest s'
  unfolding read_sock_until
  read_sock_until-some s msg rest few e = read_loop-some (length msg) s msg rest (omega arith) few e

  pub After-then :
      {s s' s'' : Sock} {rest rest' : List ℕ}
      → After s rest s'
      → After s' rest' s''
      → After s rest' s''
  After-then a b = record { left = b.left; quiet = b.quiet ∙ a.quiet }

module _ (net : Net) (st : Stream net) (whole : Whole net st) where
  open net use {Sock, read}

  rpc_read_u32-some :
      (s : Sock) (word rest : List ℕ)
      → st.incoming s ≡ word ++ rest
      → length word ≡ 4
      → (s' : Sock) × (rpc_read_u32 net s ≡ (some (from_le word), s')) × After net st s rest s'
  unfolding rpc_read_u32
  rpc_read_u32-some s word rest e four =
      let size = whole.read_word s (omega (arith, ap length e, length-append word rest)) in
      let (same, left) =
        append-same word (read 4 s).0 rest (st.incoming (read 4 s).1) (omega arith)
          (sym e ∙ st.read_front 4 s) in
      (
        (read 4 s).1,
        rw (read_sock-read net 4 s (omega arith), eq→== (length (read 4 s).0) 4 size, same) refl,
        record { left = left; quiet = st.read_quiet 4 s },
      )

  -- A word of a header.
  pub rpc_read_u32-word :
      (s : Sock) (v : ℕ) (rest : List ℕ)
      → v < 2 ^ 32
      → st.incoming s ≡ word v ++ rest
      → (s' : Sock) × (rpc_read_u32 net s ≡ (some v, s')) × After net st s rest s'
  rpc_read_u32-word s v rest lt e =
      let (s', got, after) = rpc_read_u32-some s (word v) rest e (length-le_bytes 4 v) in
      (s', got ∙ ap (λ n. (some n, s')) (from_le-word v lt), after)
