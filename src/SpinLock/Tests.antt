-- ===== src/SpinLock/Tests.antt =====
-- FastSpinLock.hpp on two threads.
use windows_iocp_network.Base.{total, ◌≤◌, ◌≡◌, refl, some, [], ◌∷◌, arith}
use windows_iocp_network.SpinLock.{
  idle, write_spin, writing, enter_write, spin_free, add_alone, drain_done, write_flag, read_bits,
}
use windows_iocp_network.SpinLock.System.{System, step, Reach, here, next, fresh}
use windows_iocp_network.SpinLock.Exclusion.{owner, mutual_exclusion}
use windows_iocp_network.SpinLock.Progress.{place, enterer_acquires}
use windows_iocp_network.SpinLock.Overflow.{too_many_threads}

-- The second of two threads waits at the spin.
waiting : Reach (fresh 2) (record { flag = 0; threads = idle ∷ write_spin ∷ [] })
waiting = next here (step (idle ∷ []) [] enter_write)

-- Then it holds the lock.
holding : Reach (fresh 2) (record { flag = write_flag; threads = idle ∷ writing ∷ [] })
holding =
    next
      (next (next waiting (step (idle ∷ []) [] (spin_free refl)))
        (step (idle ∷ []) [] (add_alone refl)))
      (step (idle ∷ []) [] (drain_done refl))

mutual_exclusion_example :
    (total owner (idle ∷ []) ≡ 0) × (total owner [] ≡ 0) × (read_bits write_flag ≡ 0)
mutual_exclusion_example = mutual_exclusion {n = 2} (idle ∷ []) [] (omega arith) holding

too_many_threads_example : (s : System) × Reach (fresh 5000) s × (2 ≤ total owner s.threads)
too_many_threads_example = too_many_threads 5000 (omega arith)

-- Then the first waits at the spin.
abbrev held_and_waiting : System
held_and_waiting = record { flag = write_flag; threads = write_spin ∷ writing ∷ [] }

enterer_acquires_example :
    (t : System) × Reach held_and_waiting t × (place 0 t.threads ≡ some writing)
enterer_acquires_example =
    enterer_acquires 2 0 write_spin held_and_waiting (omega arith)
      (next holding (step [] (writing ∷ []) enter_write)) refl refl
