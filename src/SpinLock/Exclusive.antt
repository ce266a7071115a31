-- ===== src/SpinLock/Exclusive.antt =====
-- `FastSpinlock` as the lock of a guard: `FastSpinlockGuard` of FastSpinLock.hpp. (The guard of
-- `ClassTypeLock` is the same with an exclusive lock of its own, and so are the two methods of
-- SyncExecutable.hpp.)
use windows_iocp_network.Base.{ℕ, refl, Bool, true, false}
use windows_iocp_network.Guard.{Lock, IsExclusive}
use windows_iocp_network.SpinLock.{Pc, idle, write_spin, writing, read_spin, Move}
use windows_iocp_network.SpinLock.System.{step, here}
use windows_iocp_network.SpinLock.Exclusion.{max_writers, owner, Inv, Step-Inv, Reach-Inv}

-- The constructor calls `EnterWriteLock` if the guard is exclusive, and `EnterReadLock` if not.
abbrev pub entry : Bool → Pc
entry true = write_spin
entry false = read_spin

abbrev pub is_writing : Pc → Bool
is_writing writing = true
is_writing _ = false

abbrev pub spin_lock : Lock ℕ Pc
spin_lock = record {
  Move = Move;
  idle = idle;
  entry = entry;
  holding = writing;
  is_holding = is_writing;
  new_flag = 0;
}

pub spin_lock-IsExclusive : IsExclusive spin_lock max_writers
spin_lock-IsExclusive = record {
  Inv = λ n f ps. Inv n (record { flag = f; threads = ps });
  new-Inv = λ n few. Reach-Inv few here;
  Move-Inv = λ n before after few m v. Step-Inv few (step before after m) v;
  holders = owner;
  holding-counts = refl;
  one_holder = λ n f ps v. v.one_owner;
}
