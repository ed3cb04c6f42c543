-- ===== src/TryCatch.antt =====
-- cmake/c_try_catch/ctry: TRY, CATCH, EXCEPT and THROW as jumps with a stack of buffers, and the handler
-- of signals, which does what THROW does.
pub mod Laws
mod Tests
use demo.Common.{
  ℕ, zero, suc, ◌+◌, ◌-◌, Bool, true, false, ltb, List, [], ◌∷◌, ◌++◌, Option, none, some,
  if◌then◌else◌, ◌==◌, get_elem?, set, max,
}
use demo.Word.Carry.{u32}
use demo.Common.Effect.{Effect, pure, fault, assert, ◌>>=◌, ◌>>◌}

-- The statements of a function that uses the macros: an effect that can be seen, by a number, a THROW or
-- a signal, TRY with one CATCH(x) and an `else` (which may be empty), and TRY with EXCEPT. A value that is
-- thrown or caught stands for the `int` with its lowest 32 bits.
pub data Program : Type 0 where
  skip : Program
  effect : ℕ → Program
  follow : Program → Program → Program
  throw : ℕ → Program
  try_catch : Program → ℕ → Program → Program → Program
  try_except : Program → Program → Program

-- `__global_jmp_buf_depth___`, the `result` of each buffer, and the effects so far.
pub record Jumps : Type 0 where
  pub depth : ℕ
  pub results : List ℕ
  pub trace : List ℕ

-- How a statement is left: at its end, or by a jump to the buffer of a number.
pub data Exit : Type 0 where
  done : Exit
  jump : ℕ → Exit

-- The size of `__global_jmp_buf__`.
abbrev pub max_depth : ℕ
max_depth = 256

-- THROW: with a depth of 0 the index is far behind the array.
unfoldable pub throw_to : ℕ → Effect Jumps Exit
throw_to x s = elim s.depth [
  | zero ↦ none
  | suc d ↦ some (jump d, record s { depth = d; results = set s.results d (u32 x) })
]

-- TRY up to its condition: the number of its buffer.
unfoldable pub enter_try : Effect Jumps ℕ
enter_try s =
    if ltb s.depth max_depth then some (s.depth, record s { depth = suc s.depth }) else none

-- The end of the body of a TRY.
unfoldable pub leave_try : Effect Jumps Exit
leave_try s = some (done, record s { depth = s.depth - 1 })

-- `__global_jmp_buf__[__global_jmp_buf_depth___].result`
unfoldable pub thrown : Effect Jumps ℕ
thrown s = elim (get_elem? s.results s.depth) [ none ↦ none | some x ↦ some (x, s) ]

-- What is next after a part was left: `next` at its end, and a jump goes on.
abbrev pub after_part : Exit → Effect Jumps Exit → Effect Jumps Exit
after_part done next = next
after_part (jump d) next = pure (jump d)

-- What is next after the body of the TRY with buffer `d`: a jump comes in where it is to that buffer.
abbrev pub after_body : Exit → ℕ → Effect Jumps Exit → Effect Jumps Exit
after_body done d handler = leave_try
after_body (jump e) d handler = if e == d then handler else pure (jump e)

unfoldable pub run : Program → Effect Jumps Exit
run skip = pure done
run (effect n) = λ s. some (done, record s { trace = s.trace ++ (n ∷ []) })
run (follow p q) = do e ← run p; after_part e (run q)
run (throw x) = throw_to x
run (try_catch p x q r) = do
  d ← enter_try
  e ← run p
  after_body e d (thrown >>= λ y. if y == u32 x then run q else run r)
run (try_except p q) = do d ← enter_try; e ← run p; after_body e d (run q)
