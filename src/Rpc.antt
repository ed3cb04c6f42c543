-- ===== src/Rpc.antt =====
-- cmake/rpc_c: calls of functions on another machine, their arguments written one after the other
-- into a buffer. The types and limits of rpc_c.h. The machine is little-endian.
pub mod Bytes
pub mod Buffer
pub mod Reader
pub mod Args
pub mod Message
pub mod Net
pub mod Server
pub mod Client
pub mod Demo
mod Tests
use demo.Common.{ℕ, zero, suc, Bool, true, false, List, [], ◌∷◌, Option, none, some, get_elem?}
use demo.Common.Int.{ℤ, pos, negsuc}

-- `data_type_t`, in its order. The 16, 32 and 64-bit pointers have no case in any switch.
pub data DataType : Type 0 where
  unknown s8 u8 s16 u16 s32 u32 s64 u64 : DataType
  s8p u8p s16p u16p s32p u32p s64p u64p : DataType
  s8cp u8cp s16cp u16cp s32cp u32cp s64cp u64cp : DataType
  vp cvp pb : DataType

abbrev pub data_types : List DataType
data_types =
    unknown ∷ s8 ∷ u8 ∷ s16 ∷ u16 ∷ s32 ∷ u32 ∷ s64 ∷ u64 ∷ s8p ∷ u8p ∷ s16p ∷ u16p ∷ s32p ∷ u32p
    ∷ s64p ∷ u64p ∷ s8cp ∷ u8cp ∷ s16cp ∷ u16cp ∷ s32cp ∷ u32cp ∷ s64cp ∷ u64cp ∷ vp ∷ cvp ∷ pb ∷ []

-- The value of the enumeration's constant.
abbrev pub code : DataType → ℕ
code unknown = 0
code s8 = 1
code u8 = 2
code s16 = 3
code u16 = 4
code s32 = 5
code u32 = 6
code s64 = 7
code u64 = 8
code s8p = 9
code u8p = 10
code s16p = 11
code u16p = 12
code s32p = 13
code u32p = 14
code s64p = 15
code u64p = 16
code s8cp = 17
code u8cp = 18
code s16cp = 19
code u16cp = 20
code s32cp = 21
code u32cp = 22
code s64cp = 23
code u64cp = 24
code vp = 25
code cvp = 26
code pb = 27

-- The constant of a byte that was read, if there is one.
abbrev pub from_code : ℕ → Option DataType
from_code c = get_elem? data_types c

-- The cases of the switches of rpc_util.c: the width of a number, 0 for the other types.
abbrev pub width : DataType → ℕ
width s8 = 1
width u8 = 1
width s16 = 2
width u16 = 2
width s32 = 4
width u32 = 4
width s64 = 8
width u64 = 8
width _ = 0

abbrev pub is_text : DataType → Bool
is_text s8p = true
is_text u8p = true
is_text s8cp = true
is_text u8cp = true
is_text _ = false

abbrev pub is_pb : DataType → Bool
is_pb pb = true
is_pb _ = false

abbrev pub rpc_ok : ℕ
rpc_ok = 0

abbrev pub rpc_err : ℕ
rpc_err = 1

abbrev pub max_msg_len : ℕ
max_msg_len = 65536

abbrev pub max_func_name_len : ℕ
max_func_name_len = 256

abbrev pub magic_num : ℕ
magic_num = 0xceadbeef

-- The results of the functions: 0, -1 and -2.
abbrev pub success : ℤ
success = pos 0

abbrev pub failure : ℤ
failure = negsuc 0

abbrev pub out_of_memory : ℤ
out_of_memory = negsuc 1

-- `if (ret)`
abbrev pub is_nonzero : ℤ → Bool
is_nonzero (pos zero) = false
is_nonzero (pos (suc n)) = true
is_nonzero (negsuc n) = true
