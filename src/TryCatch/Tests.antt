-- ===== src/TryCatch/Tests.antt =====
-- Runs of the macros.
use demo.Common.{ℕ, arith, List, [], length-replicate, replicate}
use demo.TryCatch.{Program, skip, effect, follow, throw, try_catch, run}
use demo.TryCatch.Laws.{Agrees, eval, jumps, run-Agrees}

-- The inner TRY does not catch what the outer one does.
abbrev nested : Program
nested =
    try_catch (follow (try_catch (follow (effect 1) (throw 8)) 11 (effect 2) (throw 9)) (effect 3))
      9 (effect 4) skip

abbrev no_results : List ℕ
no_results = replicate 256 0

run-Agrees_example : Agrees 0 (eval nested []) (run nested (jumps 0 no_results []))
run-Agrees_example =
    run-Agrees nested 0 no_results [] (omega arith) (length-replicate {A = ℕ} 256 0)
