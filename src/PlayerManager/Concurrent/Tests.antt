-- ===== src/PlayerManager/Concurrent/Tests.antt =====
-- Two threads register a player each; the second waits for the first.
use windows_iocp_network.Base.{◌≡◌, refl, some, [], ◌∷◌, arith, length, pos}
use windows_iocp_network.SpinLock.{
  write_spin, enter_write, spin_busy, spin_free, add_alone, drain_done, leave_write, write_flag,
}
use windows_iocp_network.SpinLock.Exclusive.{spin_lock, spin_lock-IsExclusive}
use windows_iocp_network.Guard.{
  outside, entering, inside, constructs, waits, enters, accesses, destructs, System, step, Reach,
  here, next, fresh,
}
use windows_iocp_network.Guard.Committed.{IsAtomic}
use windows_iocp_network.Guard.Refine.{Reach-IsAtomic}
use windows_iocp_network.PlayerManager
use windows_iocp_network.PlayerManager.{PlayerManager}
use windows_iocp_network.PlayerManager.Concurrent.{
  registers, Local, reads_id, access, body, atomic, ids_of, down_from, Reach-ids,
}

-- The first thread holds the lock, and the second spins.
abbrev held : PlayerManager → Local → System spin_lock body
held m l = record {
  flag = write_flag;
  shared = m;
  threads = inside (registers 6) l ∷ entering (registers 8) write_spin ∷ [];
  log = [];
}

abbrev new_manager : PlayerManager
new_manager = record { current_issue_id = pos 0; player_map = [] }

abbrev issued : PlayerManager
issued = record { current_issue_id = pos 1; player_map = [] }

abbrev assigned : PlayerManager
assigned = record { current_issue_id = pos 1; player_map = (pos 1, 6) ∷ [] }

enters_first :
    Reach spin_lock body (fresh spin_lock body 2 new_manager) (held new_manager (reads_id 6))
enters_first =
    next
      (next
        (next
          (next
            (next (next here (step [] (outside ∷ []) (constructs (registers 6) enter_write)))
              (step [] (outside ∷ []) (waits (registers 6) (spin_free refl) refl)))
            (step [] (outside ∷ []) (waits (registers 6) (add_alone refl) refl)))
          (step [] (outside ∷ []) (enters (registers 6) (drain_done refl))))
        (step (inside (registers 6) (reads_id 6) ∷ []) [] (constructs (registers 8) enter_write)))
      (step (inside (registers 6) (reads_id 6) ∷ []) []
        (waits (registers 8) (spin_busy (λ e. absurd (omega (arith, e)))) refl))

-- The first has returned its id, and the second still spins.
abbrev first_done : System spin_lock body
first_done = record {
  flag = 0;
  shared = assigned;
  threads = outside ∷ entering (registers 8) write_spin ∷ [];
  log = (registers 6, some (pos 1)) ∷ [];
}

registers_first : Reach spin_lock body (fresh spin_lock body 2 new_manager) first_done
unfolding access
registers_first =
    let others = entering (registers 8) write_spin ∷ [] in
    next
      (next
        (next
          (next
            (next enters_first
              (step [] others (accesses (registers 6) {d' = new_manager} refl refl)))
            (step [] others (accesses (registers 6) {d' = issued} refl refl)))
          (step [] others (accesses (registers 6) {d' = assigned} refl refl)))
        (step [] others (accesses (registers 6) {d' = assigned} refl refl)))
      (step [] others (destructs (registers 6) refl leave_write))

Reach-IsAtomic_example :
    IsAtomic spin_lock body spin_lock-IsExclusive atomic 2 new_manager first_done
Reach-IsAtomic_example =
    Reach-IsAtomic spin_lock body spin_lock-IsExclusive atomic (omega arith) registers_first

Reach-ids_example : ids_of first_done.log ≡ down_from (length (ids_of first_done.log))
unfolding PlayerManager.construct
Reach-ids_example = Reach-ids {n = 2} (omega arith) registers_first
