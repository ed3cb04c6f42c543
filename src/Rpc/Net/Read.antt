-- ===== src/Rpc/Net/Read.antt =====
-- rpc_util.c and rpc_server.c: reads of a given number of bytes from a socket.
use demo.Common.{ℕ, zero, suc, ◌-◌, List, [], ◌++◌, length, Option, none, some, if◌then◌else◌, ◌==◌}
use demo.Rpc.Bytes.{from_le}
use demo.Rpc.Net.{Net, read_sock}

abbrev prepend : List ℕ → Option (List ℕ) → Option (List ℕ)
prepend bs none = none
prepend bs (some rest) = some (bs ++ rest)

module _ (net : Net) where
  open net use {Sock}

  -- `rpc_read_u32`, which wants the four bytes at once.
  unfoldable pub rpc_read_u32 : Sock → Option ℕ × Sock
  rpc_read_u32 s =
      let got = read_sock net 4 s in
      if length got.0 == 4 then (some (from_le got.0), got.1) else (none, got.1)

  -- The loop of `read_sock_until` with `remain` bytes to go. Each round reads a byte or more, so that
  -- no more rounds than that are needed.
  unfoldable pub read_loop : ℕ → ℕ → Sock → Option (List ℕ) × Sock
  read_loop zero remain s = (some [], s)
  read_loop (suc rounds) remain s =
      let got = read_sock net remain s in
      let rest = read_loop rounds (remain - length got.0) got.1 in
      if remain == 0
      then (some [], s)
      else (if length got.0 == 0 then (none, got.1) else (prepend got.0 rest.0, rest.1))

  unfoldable pub read_sock_until : ℕ → Sock → Option (List ℕ) × Sock
  read_sock_until buf_len s = read_loop buf_len buf_len s
