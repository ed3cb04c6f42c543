-- ===== src/Rpc/Net/Sent.antt =====
-- A message that is sent with its header, in four writes.
use demo.Common.{
  take, Option, none, some, ◌^◌, ◌<◌, refl, arith, ap, ℕ, ◌≡◌, ◌∙◌, List, ◌++◌, length,
  append_assoc,
}
use demo.Rpc.{magic_num}
use demo.Rpc.Message.{word, framed}
use demo.Rpc.Bytes.{length-le_bytes}
use demo.Rpc.Net.{Net, to_int, write_as, write_sock, write_sock-write}
use demo.Rpc.Net.Stream.{Stream, Whole}

module _ (net : Net) where
  open net use {Sock, write}

  -- The socket after the writes.
  unfoldable pub sent_on : ℕ → List ℕ → Sock → Sock
  sent_on sn bytes sock =
      let s1 = (write_sock net (word magic_num) sock).1 in
      let s2 = (write_sock net (word sn) s1).1 in
      let s3 = (write_sock net (word (length bytes)) s2).1 in (write_sock net bytes s3).1

module _ (net : Net) (st : Stream net) where
  open net use {Sock, write}

  write_sock-quiet :
      (bytes : List ℕ) (s : Sock) → st.incoming (write_sock net bytes s).1 ≡ st.incoming s
  unfolding write_sock
  write_sock-quiet bytes s = on (to_int (length bytes))
    where
      on : (k : Option ℕ) → st.incoming (write_as net k bytes s).1 ≡ st.incoming s
      on none = refl
      on (some n) = st.write_quiet (take n bytes) s

  pub sent_on-incoming :
      (sn : ℕ) (bytes : List ℕ) (sock : Sock)
      → st.incoming (sent_on net sn bytes sock) ≡ st.incoming sock
  unfolding sent_on
  sent_on-incoming sn bytes sock =
      let s1 = (write_sock net (word magic_num) sock).1 in
      let s2 = (write_sock net (word sn) s1).1 in
      let s3 = (write_sock net (word (length bytes)) s2).1 in
      write_sock-quiet bytes s3
      ∙ write_sock-quiet (word (length bytes)) s2
      ∙ write_sock-quiet (word sn) s1
      ∙ write_sock-quiet (word magic_num) sock

pub word-lt : (v : ℕ) → length (word v) < 2 ^ 31
word-lt v = omega (arith, length-le_bytes 4 v)

module _ (net : Net) (st : Stream net) (whole : Whole net st) where
  open net use {Sock, write}

  write_sock-outgoing :
      (bytes : List ℕ) (s : Sock)
      → length bytes < 2 ^ 31
      → st.outgoing (write_sock net bytes s).1 ≡ st.outgoing s ++ bytes
  write_sock-outgoing bytes s few =
      ap (λ (x : ℕ × Sock). st.outgoing x.1) (write_sock-write net bytes s few)
      ∙ whole.write_all bytes s

  pub sent_on-outgoing :
      (sn : ℕ) (bytes : List ℕ) (sock : Sock)
      → length bytes < 2 ^ 31
      → st.outgoing (sent_on net sn bytes sock) ≡ st.outgoing sock ++ framed sn bytes
  unfolding sent_on framed
  sent_on-outgoing sn bytes sock few =
      let s1 = (write_sock net (word magic_num) sock).1 in
      let s2 = (write_sock net (word sn) s1).1 in
      let s3 = (write_sock net (word (length bytes)) s2).1 in
      rw
        (
          write_sock-outgoing bytes s3 few,
          write_sock-outgoing (word (length bytes)) s2 (word-lt (length bytes)),
          write_sock-outgoing (word sn) s1 (word-lt sn),
          write_sock-outgoing (word magic_num) sock (word-lt magic_num),
        )
        (simp append_assoc)
