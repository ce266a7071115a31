-- ===== src/LockOrderChecker/Tests.antt =====
-- LockOrderChecker.hpp on two locks, given back in the order in which they were taken.
use windows_iocp_network.Base.{[], ◌∷◌}
use windows_iocp_network.LockOrderChecker.{construct}
use windows_iocp_network.LockOrderChecker.Stack.{
  pushes, pops, calls, list_calls, Matches, calls_refine,
}

calls_refine_example :
    Matches
      (list_calls (pushes 7 ∷ pushes 8 ∷ pops 7 ∷ []) [])
      (calls (pushes 7 ∷ pushes 8 ∷ pops 7 ∷ []) (construct 1))
calls_refine_example = calls_refine 1 (pushes 7 ∷ pushes 8 ∷ pops 7 ∷ [])
