-- ===== src/GrandCentralExecutor/Tests.antt =====
-- GrandCentralExecutor.hpp with two threads that dispatch a task each.
use windows_iocp_network.Base.{◌≤◌, ◌≡◌, refl, [], ◌∷◌, arith, length, total}
use windows_iocp_network.GrandCentralExecutor
use windows_iocp_network.GrandCentralExecutor.{Pc, outside, pushing, looping, do_dispatch, push}
use windows_iocp_network.GrandCentralExecutor.Threads.{
  System, Reach, here, next, dispatches, pushes, fresh, is_inside, one_dispatcher,
}

-- The first thread has pushed task 7; the second has given up task 8.
abbrev both_dispatched : System
both_dispatched = record {
  executor = record { central_task_queue = 7 ∷ []; remain_task_count = 2 };
  threads = looping ∷ outside ∷ [];
  dispatched = 2;
  pushed = 1;
}

Reach-both_dispatched : Reach (fresh 2) both_dispatched
unfolding GrandCentralExecutor.construct do_dispatch push
Reach-both_dispatched =
    next
      (next (next here (dispatches [] (outside ∷ []) 7 refl))
        (dispatches (pushing 7 ∷ []) [] 8 refl))
      (pushes [] (outside ∷ []) 7)

one_dispatcher_example :
    (total is_inside both_dispatched.threads ≡ 1)
    × (both_dispatched.executor.remain_task_count ≡ both_dispatched.dispatched)
    × (both_dispatched.pushed ≤ 1)
    × (length both_dispatched.executor.central_task_queue ≤ both_dispatched.pushed)
one_dispatcher_example = one_dispatcher 2 Reach-both_dispatched (omega arith) (omega arith)
