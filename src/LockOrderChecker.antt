-- ===== src/LockOrderChecker.antt =====
-- win-iocp/win-iocp/LockOrderChecker.hpp: the stack of the locks that a thread holds. A lock is
-- named by a number.
pub mod Stack
mod Tests
use windows_iocp_network.Base.{
  ℕ, ◌+◌, ◌-◌, Option, none, some, ltb, Outcome, done, crash_assert, ◌>>=◌, ◌>>◌, ◌==◌,
  if◌then◌else◌,
}

-- `lock_stack` is `mLockStack`; a null pointer is `none`.
pub record LockOrderChecker : Type 0 where
  pub worker_thread_id : ℕ
  pub stack_top_pos : ℕ
  pub lock_stack : ℕ → Option ℕ

abbrev pub set_slot : (ℕ → Option ℕ) → ℕ → Option ℕ → ℕ → Option ℕ
set_slot stack p lock i = if i == p then lock else stack i

abbrev pub max_lock_depth : ℕ
max_lock_depth = 32

unfoldable pub construct : ℕ → LockOrderChecker
construct tid = record { worker_thread_id = tid; stack_top_pos = 0; lock_stack = λ _. none }

unfoldable pub push : ℕ → LockOrderChecker → Outcome LockOrderChecker
push lock c = do
  crash_assert (ltb c.stack_top_pos max_lock_depth)
  done (record c {
    lock_stack = set_slot c.lock_stack c.stack_top_pos (some lock);
    stack_top_pos = c.stack_top_pos + 1;
  })

-- The lock that is given back is not compared with the one on the stack.
unfoldable pub pop : ℕ → LockOrderChecker → Outcome LockOrderChecker
pop lock c = do
  crash_assert (ltb 0 c.stack_top_pos)
  done (record c {
    stack_top_pos = c.stack_top_pos - 1;
    lock_stack = set_slot c.lock_stack (c.stack_top_pos - 1) none;
  })
