-- ===== src/Rpc/Net.antt =====
-- The sockets that cmake/rpc_c reads and writes: the operating system's calls are parameters.
pub mod Read
pub mod Stream
pub mod Sent
use demo.Common.{
  ℕ, ◌%◌, ◌^◌, ◌<◌, ◌≡◌, refl, arith, ap, ◌∙◌, List, [], length, take, take-short, ltb, lt→ltb,
  Option, none, some, if◌then◌else◌,
}

pub record Net : Type 1 where
  pub Sock : Type 0
  -- `read`: the bytes that came, none for a result that is not positive.
  pub read : ℕ → Sock → List ℕ × Sock
  -- `write`: the number of bytes that went out, 0 for a result that is negative.
  pub write : List ℕ → Sock → ℕ × Sock
  pub close : Sock → Sock

-- A length as the `int` that `read_sock` and `write_sock` are given: `none` is a negative one.
abbrev pub to_int : ℕ → Option ℕ
to_int n = if ltb (n % 2 ^ 32) (2 ^ 31) then some (n % 2 ^ 32) else none

module _ (net : Net) where
  open net use {Sock, read, write}

  -- A negative `int` is above every count that the system takes: the call fails.
  abbrev pub read_as : Option ℕ → Sock → List ℕ × Sock
  read_as none s = ([], s)
  read_as (some k) s = read k s

  abbrev pub write_as : Option ℕ → List ℕ → Sock → ℕ × Sock
  write_as none bytes s = (0, s)
  write_as (some k) bytes s = write (take k bytes) s

  unfoldable pub read_sock : ℕ → Sock → List ℕ × Sock
  read_sock n s = read_as (to_int n) s

  unfoldable pub write_sock : List ℕ → Sock → ℕ × Sock
  write_sock bytes s = write_as (to_int (length bytes)) bytes s

to_int-small : (n : ℕ) → n < 2 ^ 31 → to_int n ≡ some n
to_int-small n lt = let same : n % 2 ^ 32 ≡ n = omega arith in rw (same, lt→ltb n (2 ^ 31) lt) refl

module _ (net : Net) where
  open net use {Sock, read, write}

  pub read_sock-read : (n : ℕ) (s : Sock) → n < 2 ^ 31 → read_sock net n s ≡ read n s
  unfolding read_sock
  read_sock-read n s lt = ap (λ k. read_as net k s) (to_int-small n lt)

  pub write_sock-write :
      (bytes : List ℕ) (s : Sock) → length bytes < 2 ^ 31 → write_sock net bytes s ≡ write bytes s
  unfolding write_sock
  write_sock-write bytes s lt =
      ap (λ k. write_as net k bytes s) (to_int-small (length bytes) lt)
      ∙ ap (λ (bs : List ℕ). write bs s) (take-short (length bytes) bytes (omega arith))
