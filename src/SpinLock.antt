-- ===== src/SpinLock.antt =====
-- win-iocp/win-iocp/FastSpinLock.hpp (win-iocp-mssql-usage has the same file): `FastSpinlock`,
-- one access to `mLockFlag` at a time. The flag is the 32-bit pattern of the `long`.
pub mod System
pub mod Exclusion
pub mod Overflow
pub mod Stuck
pub mod Exclusive
pub mod Progress
mod Tests
use windows_iocp_network.Base.{
  ℕ, ◌+◌, ◌-◌, ◌*◌, ◌/◌, ◌%◌, ◌^◌, ◌≡◌, ◌≢◌, Bool, true, false, List, word_mod, add_size,
}

-- LF_WRITE_FLAG.
abbrev pub write_flag : ℕ
write_flag = 0x00100000

-- `flag & LF_WRITE_MASK`: the mask 0x7FF00000 has bits 20 to 30.
abbrev pub write_bits : ℕ → ℕ
write_bits flag = flag / 2 ^ 20 % 2 ^ 11 * 2 ^ 20

-- `flag & LF_READ_MASK`: the mask 0x000FFFFF has bits 0 to 19.
abbrev pub read_bits : ℕ → ℕ
read_bits flag = flag % 2 ^ 20

-- `InterlockedAdd(&mLockFlag, LF_WRITE_FLAG)`, and with the negated flag.
abbrev pub add_writer : ℕ → ℕ
add_writer flag = add_size flag write_flag

abbrev pub remove_writer : ℕ → ℕ
remove_writer flag = add_size flag (word_mod - write_flag)

-- `LeaveLock`, which nothing calls, and `LeaveReadLock`, whose branches are comments.
abbrev pub leave_lock : ℕ → ℕ
leave_lock flag = 0

abbrev pub leave_read_lock : ℕ → ℕ
leave_read_lock flag = flag

-- Where a thread stands.
pub data Pc : Type 0 where
  idle : Pc  -- outside the lock
  write_spin : Pc  -- the first inner `while` of `EnterWriteLock`
  write_add : Pc  -- before its `InterlockedAdd`
  write_drain : Pc  -- its second inner `while`, after a sum with one writer
  write_retreat : Pc  -- before the `InterlockedAdd` that takes the flag back
  writing : Pc  -- between `EnterWriteLock` and `LeaveWriteLock`
  read_spin : Pc  -- the inner `while` of `EnterReadLock`
  read_check : Pc  -- before its test of LF_READ_MASK

-- One access of one thread: the flag and its place before, and after. No move leaves
-- `EnterReadLock`, whose loop has no exit, and none of its accesses writes.
pub data Move (flag : ℕ) : Pc → ℕ → Pc → Type 0 where
  enter_write : Move flag idle flag write_spin
  spin_busy : write_bits flag ≢ 0 → Move flag write_spin flag write_spin
  spin_free : write_bits flag ≡ 0 → Move flag write_spin flag write_add
  add_alone :
      write_bits (add_writer flag) ≡ write_flag → Move flag write_add (add_writer flag) write_drain
  add_contended :
      write_bits (add_writer flag) ≢ write_flag
      → Move flag write_add (add_writer flag) write_retreat
  retreat : Move flag write_retreat (remove_writer flag) write_spin
  drain_busy : read_bits flag ≢ 0 → Move flag write_drain flag write_drain
  drain_done : read_bits flag ≡ 0 → Move flag write_drain flag writing
  leave_write : Move flag writing (remove_writer flag) idle
  enter_read : Move flag idle flag read_spin
  read_busy : write_bits flag ≢ 0 → Move flag read_spin flag read_spin
  read_free : write_bits flag ≡ 0 → Move flag read_spin flag read_check
  read_again : Move flag read_check flag read_spin
