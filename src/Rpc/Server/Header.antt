-- ===== src/Rpc/Server/Header.antt =====
-- The header of a call: what the server takes of it, and what it refuses.
use demo.Common.{
  ℕ, ◌^◌, ◌≤◌, ◌<◌, ◌≡◌, ◌≢◌, refl, arith, ap, ◌∙◌, true, List, ◌++◌, Option, some, ltb, ◌||◌, ◌==◌,
  eq→==, ne→==, lt→ltb, le→ltb, inl, inr, ◌⊎◌, Bool-cases, ==→eq, ==→ne,
}
use demo.Rpc.{magic_num, max_msg_len}
use demo.Common.Alloc.{Heap, M}
use demo.Rpc.Net.{Net}
use demo.Rpc.Net.Read.{rpc_read_u32}
use demo.Rpc.Net.Stream.{Stream, Whole, After, After-then, rpc_read_u32-word}
use demo.Rpc.Server.{Table, receive, header_word, word_read, header_length, handle_client}
use demo.Rpc.Message.{word}
use demo.Rpc.Server.Ended.{Rejected, Rejected-of, refused}

-- What the server does not take: another magic number, or a message that is empty or too long.
abbrev pub IsBadHeader : ℕ → ℕ → Type 0
IsBadHeader mn len = (mn ≢ magic_num) ⊎ (len ≡ 0) ⊎ (max_msg_len < len)

module _ (net : Net) (st : Stream net) (whole : Whole net st) (table : Table) where
  open net use {Sock, write, close}

  header_word_lem :
      (s s' : Sock) (v : ℕ) (next : ℕ → Sock → M Sock) (h : Heap)
      → rpc_read_u32 net s ≡ (some v, s')
      → header_word net table s next h ≡ next v s' h
  unfolding header_word
  header_word_lem s s' v next h e =
      ap (λ (got : Option ℕ × Sock). word_read net table got.0 got.1 next h) e

  header_word-next :
      (s : Sock) (v : ℕ) (rest : List ℕ)
      → v < 2 ^ 32
      → st.incoming s ≡ word v ++ rest
      → (s' : Sock) × ((next : ℕ → Sock → M Sock) (h : Heap)
          → header_word net table s next h ≡ next v s' h)
        × After net st s rest s'
  header_word-next s v rest lt e =
      let (s', got, after) = rpc_read_u32-word net st whole s v rest lt e in
      (s', (λ next h. header_word_lem s s' v next h got), after)

  header_length-receive :
      (sn len : ℕ) (s : Sock) (rest : List ℕ)
      → 0 < len
      → len ≤ max_msg_len
      → st.incoming s ≡ word len ++ rest
      → (s' : Sock) × ((h : Heap) → header_length net table sn s h ≡ receive net table sn len s' h)
        × After net st s rest s'
  unfolding header_length
  header_length-receive sn len s rest lt le e =
      let (s', got, after) = header_word-next s len rest (omega arith) e in
      (
        s',
        (λ h.
            got _ h ∙ rw (ne→== len 0 (λ z. absurd (omega arith)), le→ltb max_msg_len len le) refl),
        after,
      )

  pub handle_client-receive :
      (sn len : ℕ) (s : Sock) (rest : List ℕ)
      → sn < 2 ^ 32
      → 0 < len
      → len ≤ max_msg_len
      → st.incoming s ≡ word magic_num ++ (word sn ++ (word len ++ rest))
      → (s' : Sock) × ((h : Heap) → handle_client net table s h ≡ receive net table sn len s' h)
        × After net st s rest s'
  unfolding handle_client
  handle_client-receive sn len s rest sn_lt lt le e =
      let (s1, first, a1) =
        header_word-next s magic_num (word sn ++ (word len ++ rest)) (omega arith) e in
      let (s2, second, a2) = header_word-next s1 sn (word len ++ rest) sn_lt a1.left in
      let (s3, third, a3) = header_length-receive sn len s2 rest lt le a2.left in
      (s3, (λ h. first _ h ∙ second _ h ∙ third h), After-then net st (After-then net st a1 a2) a3)

  magic_refused :
      (mn : ℕ) (rest : List ℕ) (s : Sock) (h : Heap)
      → mn < 2 ^ 32
      → mn ≢ magic_num
      → st.incoming s ≡ word mn ++ rest
      → Rejected net st table s h (handle_client net table s h)
  unfolding handle_client
  magic_refused mn rest s h lt wrong e =
      let (s1, first, a) = header_word-next s mn rest lt e in
      Rejected-of net st table s h (first _ h ∙ rw (ne→== mn magic_num wrong) refl)
        (refused net st table s s1 rest h a)

  length_refused :
      (sn len : ℕ) (rest : List ℕ) (s : Sock) (h : Heap)
      → sn < 2 ^ 32
      → len < 2 ^ 32
      → (len == 0 || ltb max_msg_len len) ≡ true
      → st.incoming s ≡ word magic_num ++ (word sn ++ (word len ++ rest))
      → Rejected net st table s h (handle_client net table s h)
  unfolding handle_client header_length
  length_refused sn len rest s h sn_lt len_lt bad e =
      let (s1, first, a1) =
        header_word-next s magic_num (word sn ++ (word len ++ rest)) (omega arith) e in
      let (s2, second, a2) = header_word-next s1 sn (word len ++ rest) sn_lt a1.left in
      let (s3, third, a3) = header_word-next s2 len rest len_lt a2.left in
      Rejected-of net st table s h (first _ h ∙ second _ h ∙ third _ h ∙ rw bad refl)
        (refused net st table s s3 rest h (After-then net st (After-then net st a1 a2) a3))

  bad_length :
      (mn len : ℕ) → mn ≡ magic_num → IsBadHeader mn len → (len == 0 || ltb max_msg_len len) ≡ true
  bad_length mn len right (inl wrong) = absurd (wrong right)
  bad_length mn len right (inr (inl none_left)) = rw (eq→== len 0 none_left) refl
  bad_length mn len right (inr (inr long)) =
      rw (ne→== len 0 (λ z. absurd (omega arith)), lt→ltb max_msg_len len long) refl

  -- A header with another magic number, or with a length of 0 or above 65536, is refused, where each of
  -- its words comes in one piece: nothing is written, the connection is closed, and no memory is asked
  -- for.
  pub handle_client-refuses :
      (mn sn len : ℕ) (rest : List ℕ) (s : Sock) (h : Heap)
      → mn < 2 ^ 32
      → sn < 2 ^ 32
      → len < 2 ^ 32
      → IsBadHeader mn len
      → st.incoming s ≡ word mn ++ (word sn ++ (word len ++ rest))
      → Rejected net st table s h (handle_client net table s h)
  handle_client-refuses mn sn len rest s h mn_lt sn_lt len_lt bad e =
      elim (Bool-cases (mn == magic_num)) [
        | inl same ↦
            let right = ==→eq mn magic_num same in
            length_refused sn len rest s h sn_lt len_lt (bad_length mn len right bad)
              (e ∙ ap (λ m. word m ++ (word sn ++ (word len ++ rest))) right)
        | inr other ↦
            magic_refused mn (word sn ++ (word len ++ rest)) s h mn_lt (==→ne mn magic_num other) e
      ]
