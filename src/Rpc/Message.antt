-- ===== src/Rpc/Message.antt =====
-- The messages of cmake/rpc_c as bytes: a call and the answer to it, with their headers.
use demo.Common.{ℕ, ◌^◌, ◌<◌, ◌≡◌, arith, List, ◌++◌, length}
use demo.Rpc.{magic_num}
use demo.Rpc.Bytes.{le_bytes, from_le, from_le-le_bytes}
use demo.Rpc.Args.{Arg, args_bytes}

-- How a word of a header is sent.
abbrev pub word : ℕ → List ℕ
word v = le_bytes 4 v

pub from_le-word : (v : ℕ) → v < 2 ^ 32 → from_le (word v) ≡ v
from_le-word v lt = from_le-le_bytes 4 v (omega arith)

abbrev pub counted_bytes : List Arg → List ℕ
counted_bytes ws = le_bytes 1 (length ws) ++ args_bytes ws

-- The message of a call, less its header.
abbrev pub call_message : List ℕ → List ℕ → List ℕ
call_message name args = le_bytes 2 (length name) ++ (name ++ args)

-- What an answer holds: its result, and the values with it.
abbrev pub result_bytes : ℕ → List Arg → List ℕ
result_bytes res vs = le_bytes 1 res ++ counted_bytes vs

-- A message with its header: the magic number, the call's number, the length.
unfoldable pub framed : ℕ → List ℕ → List ℕ
framed sn msg = word magic_num ++ (word sn ++ (word (length msg) ++ msg))
