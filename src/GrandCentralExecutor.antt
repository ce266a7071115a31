-- ===== src/GrandCentralExecutor.antt =====
-- win-iocp/win-iocp/GrandCentralExecutor.hpp: `DoDispatch`, one access to the shared fields at a
-- time. A task is a number; no task is run anywhere in the source. The concurrent queue is a list.
pub mod Threads
mod Tests
use windows_iocp_network.Base.{
  ℕ, ◌+◌, ◌%◌, ◌^◌, Bool, ◌&&◌, List, [], ◌∷◌, ◌++◌, ltb, if◌then◌else◌, Outcome, done,
  crash_assert, ◌>>◌,
}
use windows_iocp_network.ClientSession.Context.{ThreadType, is_io_worker}

-- `remain_task_count` is the 64-bit pattern of the `int64_t`.
pub record GrandCentralExecutor : Type 0 where
  pub central_task_queue : List ℕ
  pub remain_task_count : ℕ

unfoldable pub construct : GrandCentralExecutor
construct = record { central_task_queue = []; remain_task_count = 0 }

-- Where a thread stands.
pub data Pc : Type 0 where
  outside : Pc  -- not in `DoDispatch`
  pushing : ℕ → Pc  -- in the `else` branch, before the `push` of its task
  looping : Pc  -- in `while (true)`

abbrev pub next_count : GrandCentralExecutor → ℕ
next_count e = (e.remain_task_count + 1) % 2 ^ 64

-- `InterlockedIncrement64(&mRemainTaskCount) > 1`, signed.
abbrev pub is_busy : ℕ → Bool
is_busy count = ltb 1 count && ltb count (2 ^ 63)

-- The assertion and the increment. In the `if` branch, whose body is a comment, the call returns.
unfoldable pub do_dispatch :
    ThreadType → ℕ → GrandCentralExecutor → Outcome (Pc × GrandCentralExecutor)
do_dispatch thread task e = do
  crash_assert (is_io_worker thread)
  done (
    if is_busy (next_count e) then outside else pushing task,
    record e { remain_task_count = next_count e },
  )

unfoldable pub push : ℕ → GrandCentralExecutor → GrandCentralExecutor
push task e = record e { central_task_queue = e.central_task_queue ++ task ∷ [] }

abbrev pub rest_of : List ℕ → List ℕ
rest_of [] = []
rest_of (task ∷ tasks) = tasks

-- One round of the loop: `try_pop`, into a local variable that nothing reads.
unfoldable pub try_pop : GrandCentralExecutor → GrandCentralExecutor
try_pop e = record e { central_task_queue = rest_of e.central_task_queue }
