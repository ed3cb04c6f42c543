-- ===== src/Rpc/Demo.antt =====
-- main.c of cmake/rpc_c: the functions that the server offers. `int64_t` is `long long`, as the macros
-- of rpc_c.h need it to be.

pub mod Sum
pub mod Exchange
use demo.Common.{
  ℕ, zero, suc, ◌+◌, ◌%◌, ◌^◌, Bool, true, false, not, ltb, leb, List, [], ◌∷◌, ◌++◌, length, take,
  Option, none, some, if◌then◌else◌, ◌==◌, ◌&&◌,
}
use demo.Common.Int.{ℤ, pos}
use demo.Common.Effect.{pure, fault, assert, ◌>>=◌, ◌>>◌}
use demo.Rpc.{DataType, s64, s8p, s8cp, width, is_text, is_pb, rpc_ok, rpc_err, success, is_nonzero}
use demo.Rpc.Bytes.{from_le, c_string}
use demo.Common.Alloc.{M}
use demo.Rpc.Buffer.{Buffer, number, text, rpc_make_rsp}
use demo.Rpc.Reader.{Handle, rpc_parse_req_args}
use demo.Rpc.Server.{Handler, Table, same_text, rpc_server_register}

-- The sign of an `int64_t`, by its bits.
abbrev pub is_negative : ℕ → Bool
is_negative v = leb (2 ^ 63) v

-- `a += b` on `int64_t`, which must not overflow.
unfoldable pub add_s64 : ℕ → ℕ → M ℕ
add_s64 a b =
    let total = (a + b) % 2 ^ 64 in
    let overflow =
      if is_negative a
      then is_negative b && not (is_negative total)
      else not (is_negative b) && is_negative total in
    if overflow then fault else pure total

-- The types with a width are the eight of the switch.
unfoldable pub add : Handle ℕ
add dt v vlen total =
    if ltb 0 (width dt)
    then (do total' ← add_s64 total (from_le (take 8 v)); pure (success, total'))
    else pure (pos 1, total)

-- "RPC call add failed!"
abbrev pub add_failed : List ℕ
add_failed =
    b'R' ∷ b'P' ∷ b'C' ∷ b' ' ∷ b'c' ∷ b'a' ∷ b'l' ∷ b'l' ∷ b' ' ∷ b'a' ∷ b'd' ∷ b'd' ∷ b' ' ∷ b'f'
    ∷ b'a' ∷ b'i' ∷ b'l' ∷ b'e' ∷ b'd' ∷ b'!' ∷ []

unfoldable pub sum_handler : Handler
sum_handler args buf = do
  (res, r, result) ← rpc_parse_req_args add args 0
  if is_nonzero res
      then rpc_make_rsp buf rpc_err ((s8cp, text add_failed) ∷ [])
      else rpc_make_rsp buf rpc_ok ((s64, number result) ∷ [])

-- `strcat` onto a string in an array of 256 bytes.
unfoldable pub strcat : List ℕ → List ℕ → M (List ℕ)
strcat result v = do
  assert (ltb (length result + length (c_string v)) 256)
  pure (result ++ c_string v)

unfoldable pub concat : Handle (List ℕ)
concat dt v vlen result =
    if is_text dt
    then (do result' ← strcat result v; pure (success, result'))
    else pure (pos 1, result)

-- "RPC call concat failed!"
abbrev pub concat_failed : List ℕ
concat_failed =
    b'R' ∷ b'P' ∷ b'C' ∷ b' ' ∷ b'c' ∷ b'a' ∷ b'l' ∷ b'l' ∷ b' ' ∷ b'c' ∷ b'o' ∷ b'n' ∷ b'c' ∷ b'a'
    ∷ b't' ∷ b' ' ∷ b'f' ∷ b'a' ∷ b'i' ∷ b'l' ∷ b'e' ∷ b'd' ∷ b'!' ∷ []

unfoldable pub concat_handler : Handler
concat_handler args buf = do
  (res, r, result) ← rpc_parse_req_args concat args []
  if is_nonzero res
      then rpc_make_rsp buf rpc_err ((s8cp, text concat_failed) ∷ [])
      else rpc_make_rsp buf rpc_ok ((s8p, text result) ∷ [])

-- "RPC call login failed!"
abbrev pub login_failed : List ℕ
login_failed =
    b'R' ∷ b'P' ∷ b'C' ∷ b' ' ∷ b'c' ∷ b'a' ∷ b'l' ∷ b'l' ∷ b' ' ∷ b'l' ∷ b'o' ∷ b'g' ∷ b'i' ∷ b'n'
    ∷ b' ' ∷ b'f' ∷ b'a' ∷ b'i' ∷ b'l' ∷ b'e' ∷ b'd' ∷ b'!' ∷ []

-- "witton"
abbrev pub witton : List ℕ
witton = b'w' ∷ b'i' ∷ b't' ∷ b't' ∷ b'o' ∷ b'n' ∷ []

-- `Netmsg__ReqLogin`, as far as the server looks at it; the user's name is without its NUL.
pub record ReqLogin : Type 0 where
  pub username : List ℕ
  pub psw : List ℕ

-- `memcmp(psw.data, "1", 1) == 0`, which reads a byte of the password.
abbrev pub starts_with_one : List ℕ → M Bool
starts_with_one [] = fault
starts_with_one (b ∷ bs) = pure (b == b'1')

-- "sum", "concat" and "login"
abbrev pub sum_name : List ℕ
sum_name = b's' ∷ b'u' ∷ b'm' ∷ []

abbrev pub concat_name : List ℕ
concat_name = b'c' ∷ b'o' ∷ b'n' ∷ b'c' ∷ b'a' ∷ b't' ∷ []

abbrev pub login_name : List ℕ
login_name = b'l' ∷ b'o' ∷ b'g' ∷ b'i' ∷ b'n' ∷ []

-- The functions with `netmsg__req_login__unpack`, which the protobuf compiler makes: the message that
-- some bytes hold, if they hold one.
module _ (unpack : List ℕ → Option ReqLogin) where
  unfoldable pub login_matches : Option ReqLogin → M Bool
  login_matches none = pure false
  login_matches (some login) =
      if same_text login.username witton then starts_with_one login.psw else pure false

  unfoldable pub parse_login : Handle Buffer
  parse_login dt v vlen buf =
      if not (is_pb dt)
      then (do buf' ← rpc_make_rsp buf rpc_err ((s8cp, text login_failed) ∷ []); pure (pos 1, buf'))
      else (do
        matches ← login_matches (unpack (take vlen v))
        if matches then (do buf' ← rpc_make_rsp buf rpc_ok []; pure (success, buf')) else (do
          buf' ← rpc_make_rsp buf rpc_err ((s8cp, text login_failed) ∷ [])
          pure (pos 1, buf')))

  unfoldable pub login_handler : Handler
  login_handler args buf = do (res, r, buf') ← rpc_parse_req_args parse_login args buf; pure buf'

  -- The table that `server` makes before it runs.
  unfoldable pub server : Table
  server =
      let t1 = (rpc_server_register [] sum_name sum_handler).1 in
      let t2 = (rpc_server_register t1 concat_name concat_handler).1 in
      (rpc_server_register t2 login_name login_handler).1
