-- ===== src/Lib.antt =====
-- Verification of the C code of this repository: integers of any size (cmake/bigint), calls of functions
-- over a socket (cmake/rpc_c), coroutines that share a stack (cmake/coroutine) and exceptions by jumps
-- (cmake/c_try_catch).
--
-- The program's parts and the files that model them:
--   Word.Carry    cmake/bigint/src/base.c: UIntAdd, UIntSub and UIntMul with their 32-bit and
--                 64-bit versions. What the C code stores through a pointer is the second
--                 component of the result.
--   Word.Count    cmake/bigint/src/base.c: Len8, Len16, Len32, Len64, Len, LeadingZeros and its
--                 versions; Word.Count.Trailing: TrailingZeros and its versions.
--   Word.Div      cmake/bigint/src/base.c: U32Div and U32Rem; Word.Div.Long: U64Div, UIntDiv, U64Rem and
--                 UIntRem.
--   Memory        the heap that the C code uses: calloc, free, memcpy, reads and writes.
--   Nat           cmake/bigint/src/nat.h and nat.c: the struct `nat`, a view (pointer, len, cap,
--                 part) of words on the heap, least significant first, and its operations.
--   Nat.Value     the number that a list of words is.
--   Nat.Loop      the loops that go through two views and write a third.
--   Nat.Add       cmake/bigint/src/natadd.c: addVV, addVW, addVWlarge, natAdd.
--   Nat.Sub       cmake/bigint/src/natsub.c: subVV, subVW, subVWlarge, natSub.
--   Nat.Mul       cmake/bigint/src/natmul.c: mulAddWWW, addMulVVW, basicMul, mulAddVWW, natMulAddWW;
--                 Nat.Mul.Karatsuba: karatsubaLen, karatsuba and what it calls; Nat.Mul.Whole: addAt,
--                 natMul; Nat.Mul.Square: basicSqr, karatsubaSqr, natSqr.
--   Nat.Shift     cmake/bigint/src/natdiv.c: shlVU, shrVU.
--   Nat.Div       cmake/bigint/src/natdiv.c: reciprocalWord, divWW, natDivWVW, natDivW; Nat.Div.Basic:
--                 natDivBasic; Nat.Div.Recursive: natDivRecursiveStep, natDivRecursive; Nat.Div.Whole:
--                 natDivLarge, natDiv, natRem.
--   Nat.Exp       cmake/bigint/src/natconv.c: natBitLen, natIsPower2, natExpNN, natExpWW.
--   Nat.Text      cmake/bigint/src/natconv.c: maxPow and the digits of a word; Nat.Text.Table: divisors;
--                 Nat.Text.Convert: convertWords; Nat.Text.Whole: natI2a.
--   BigInt.Text   cmake/bigint/src/bigint.c: BigInt2String, BigInt2HexStr, BigInt2Text.
--   BigInt        cmake/bigint/src/bigint.c: the struct BigInt, BigIntNewI, BigIntNewU, BigIntFree,
--                 BigIntAdd, BigIntSub, BigIntMul, QuoRem, BigIntDiv.
--   Rpc           cmake/rpc_c/rpc_c.h: the types of arguments and the limits.
--   Rpc.Buffer    rpc_util.c and the macros of rpc_c.h: buffer_new, buffer_append and what writes with
--                 it, up to RPC_MAKE_REQ and RPC_MAKE_RSP.
--   Rpc.Reader    rpc_util.c: the reader of a message, parse_arg, rpc_parse_req_args.
--   Rpc.Args      what the bytes of arguments are, and what handing them over one by one does.
--   Rpc.Message   the bytes of a call and of its answer.
--   Rpc.Net       the sockets; Rpc.Net.Read: rpc_read_u32 and read_sock_until.
--   Rpc.Server    cmake/rpc_c/rpc_server.c: rpc_server_register, find_handler, handle_client.
--   Rpc.Client    cmake/rpc_c/rpc_client.c, and rpc_get_rsp and rpc_rsp_release of rpc_util.c.
--   Rpc.Demo      cmake/rpc_c/main.c: the functions sum, concat and login; a call of sum from end to end.
--   Coroutine     cmake/coroutine/src/co.c: co_open, co_new; Coroutine.Run: co_resume, co_swap, the end of
--                 a coroutine, co_join, co_wait, co_close; Coroutine.Steps: these in any order.
--   TryCatch      cmake/c_try_catch/ctry: TRY, CATCH, EXCEPT, THROW and the handler of signals.
--   Common        what these share; the modules Tests: runs on concrete input.
-- A function of the source has the same name in snake case: natNewLen is nat_new_len. The integers
-- call the views, the views call the words and the heap; all of them pass the heap on.
--
-- How the code is read:
--   - `size_t` has 64 bits (UintSize of nat.h); each word operation keeps its wrap-around, `% 2 ^ w`.
--   - A stateful function is a function from a heap to `some` result and heap, or to `none` for a
--     fault: an access outside a block, through NULL or to a freed block, a block freed twice, or an
--     assertion that fails.
--   - The allocator decides by the field `fails` of the heap which allocation fails. A block has a
--     number that is never given twice.
--   - Lengths are natural numbers: the code never makes a negative one. The structures themselves
--     (`nat`, `BigInt`) are held by value, so two pointers to one BigInt are not told apart; what
--     is shared is the words.
--   - In cmake/bigint a loop is recursion on the number of rounds that are left. `natMul`, `natSqr` and
--     what calls them take a bound on the depth of their recursion, of which 2 and 1 are enough below
--     Karatsuba's thresholds. The loops that lower a digit of a quotient are given two rounds, after
--     which the remainder is above a word, since the divisor's top bit is set. `read_sock_until` is given
--     as many rounds as bytes, of which each round reads one at least; `_align` is given 16, after which
--     its number is above every `uint16_t`; `co_join` and `co_wait` end only if the coroutines do, and
--     return whether they ended within the rounds that are given.
--   - cmake/rpc_c and cmake/coroutine take an allocator that decides in the same way and counts the blocks
--     that are not freed (Common.Alloc); their blocks are held by value. The machine is little-endian, and
--     `int64_t` is `long long`.
--   - What memory from `malloc` holds before it is written is an argument of `QuoRem` and `BigIntDiv`. A
--     variable that was not assigned is `none`, and a read of it a fault.
--   - The sockets are a parameter (`Net`). What is assumed of them (`Stream`): bytes come in their order, at
--     least one where there are some. That the four bytes of a header's word come in one piece and that a
--     write goes out whole is no such law: it is a condition (`Whole`) of the theorems that name it, since
--     the code does not see to it. `read_sock` and `write_sock` take the length as an `int`. `socket`,
--     `gethostbyname` and `connect` come to a socket or not, as an argument says.
--   - The index of `addVV` is an `int`, whose overflow is a fault; other indices are `ssize_t` or `size_t`.
--   - An exception of cmake/c_try_catch is an `int`, by its 32 bits; each TRY has one CATCH or EXCEPT. The
--     macros that write arguments take at most 10 of them, their model any number.
--   - `netmsg__req_login__unpack` and what a coroutine does before it ends or calls `co_swap` are
--     parameters. Of a saved stack the size is kept, not the bytes.
--   - In natconv.c a char is its code, and an array of chars a list. The floating-point estimate of a
--     text's length, and whether the memory for the text and for the table is granted, are arguments.
--     `maxPow` is given 64 rounds, after which a base of 2 has left the words; the loops of `natI2a` on
--     the bits of a word are given 64, one for each bit; `convertWords`, `divisors` and `natExpNN` take a
--     bound on their rounds and on the depth of what they call.
--
-- Not modelled: rpc_server_run, which accepts connections and starts threads, and the timeouts of rpc_util.c; the switch
-- of registers (ctx.c and the assembly) and the builds with USE_NATIVE_CO of cmake/coroutine; init_try_catch; the
-- small programs cmake/cobj and 天干地支; demos that only call an operating system or a library
-- (cmake/io_uring, cmake/iocp, cmake/pkg, xmake/grpc-c, mupdf); code in other languages.
--
-- The sums and differences are stated where no carry and no borrow runs on from a full word into a
-- further one (`IsAddable`, `IsTakeable`, `IsCalm`), since `addVW` and `subVW` add such a carry twice.
pub mod Common
pub mod Word
pub mod Memory
pub mod Nat
pub mod BigInt
pub mod Rpc
pub mod Coroutine
pub mod TryCatch
pub mod Tests
