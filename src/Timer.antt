-- ===== src/Timer.antt =====
-- win-iocp/win-iocp/Timer.hpp: the timed jobs of one I/O worker.
pub mod Due
mod Tests
use windows_iocp_network.Base.{
  ℕ, zero, suc, Bool, true, false, Option, none, some, List, [], ◌∷◌, if◌then◌else◌, ℤ, ltb_ℤ,
  Outcome, done, crash_assert, ◌>>◌,
}
use windows_iocp_network.ClientSession.Context.{ThreadType, is_io_worker}

-- `owner` and `task` are names.
pub record TimerJobElement : Type 0 where
  pub owner : ℕ
  pub task : ℕ
  pub execution_tick : ℤ

-- `TimerJobComparator`: whether `lhs` comes after `rhs`.
unfoldable pub compares : TimerJobElement → TimerJobElement → Bool
compares lhs rhs = ltb_ℤ rhs.execution_tick lhs.execution_tick

-- `std::priority_queue`, whose top is an element that none is above by the comparator. The list is
-- the order of the container.
unfoldable pub best : TimerJobElement → List TimerJobElement → TimerJobElement
unfolding compares
best x [] = x
best x (y ∷ ys) = best (if compares x y then y else x) ys

unfoldable pub top : List TimerJobElement → Option TimerJobElement
unfolding best
top [] = none
top (x ∷ xs) = some (best x xs)

-- `tick_count` is `LTickCount` of the thread.
pub record Timer : Type 0 where
  pub timer_job_queue : List TimerJobElement
  pub tick_count : ℤ

unfoldable pub construct : ℤ → Timer
construct now = record { timer_job_queue = []; tick_count = now }

-- The `push` is still to be written in the source.
unfoldable pub push_timer_job : ThreadType → ℕ → ℕ → ℕ → Timer → Outcome Timer
push_timer_job thread owner task after t = do crash_assert (is_io_worker thread); done t

-- The `if` of the loop: whether it breaks.
abbrev pub breaks : Option TimerJobElement → ℤ → Bool
breaks none now = true
breaks (some job) now = ltb_ℤ now job.execution_tick

-- The loop, whose other statements are comments. `none`: the fuel ran out.
unfoldable pub timer_loop : ℕ → Timer → Option Timer
unfolding top
timer_loop zero t = none
timer_loop (suc fuel) t = elim (breaks (top t.timer_job_queue) t.tick_count) [
  | true ↦ some t
  | false ↦ timer_loop fuel t
]

-- `now` is what `GetTickCount64()` returns.
unfoldable pub do_timer_job : ℕ → ℤ → Timer → Option Timer
unfolding timer_loop
do_timer_job fuel now t = timer_loop fuel (record t { tick_count = now })
