-- ===== src/SessionManager/Concurrent/Tests.antt =====
-- Two threads return a session each; the second waits for the first.
use windows_iocp_network.Base.{◌+◌, ◌%◌, ◌≡◌, refl, false, none, [], ◌∷◌, ◌++◌, arith, length}
use windows_iocp_network.ClientSession
use windows_iocp_network.ClientSession.{ClientSession, session_reset}
use windows_iocp_network.Mutex.{asking, mutex, asks, blocks, locks, unlocks}
use windows_iocp_network.Guard.{
  outside, entering, inside, constructs, waits, enters, accesses, destructs, System, step, Reach,
  here, next, fresh,
}
use windows_iocp_network.SessionManager.{uint64_mod}
use windows_iocp_network.SessionManager.Concurrent.{Sessions, returns, access, body, asserts}
use windows_iocp_network.SessionManager.Concurrent.Returned.{
  returned_of, AllUnused, returns_gathered,
}

abbrev one : ClientSession
one = ClientSession.construct 1 []

abbrev two : ClientSession
two = ClientSession.construct 2 []

-- All but one return of 2^64 have been made.
abbrev sessions : Sessions
sessions = record {
  free_client_list = two ∷ [];
  current_issue_count = 0;
  current_return_count = 0xFFFFFFFFFFFFFFFF;
}

abbrev all_done : System mutex body
all_done = record {
  flag = false;
  shared = record sessions {
    free_client_list = two ∷ session_reset 7 one ∷ [];
    current_return_count = 0;
  };
  threads = outside ∷ entering (returns 8 two) asking ∷ [];
  log = (returns 7 one, none) ∷ [];
}

runs : Reach mutex body (fresh mutex body 2 sessions) all_done
unfolding access ClientSession.construct
runs =
    let c = returns 7 one in
    let others = entering (returns 8 two) asking ∷ [] in
    next
      (next
        (next
          (next
            (next
              (next
                (next
                  (next (next here (step [] (outside ∷ []) (constructs c asks)))
                    (step [] (outside ∷ []) (enters c (locks refl))))
                  (step (inside c (asserts 7 one) ∷ []) [] (constructs (returns 8 two) asks)))
                (step (inside c (asserts 7 one) ∷ []) []
                  (waits (returns 8 two) (blocks refl) refl)))
              (step [] others (accesses c refl refl)))
            (step [] others (accesses c refl refl)))
          (step [] others (accesses c refl refl)))
        (step [] others (accesses c refl refl)))
      (step [] others (destructs c refl unlocks))

returns_gathered_example :
    (all_done.shared.free_client_list ≡ sessions.free_client_list ++ returned_of all_done.log)
    × (all_done.shared.current_return_count
        ≡ (sessions.current_return_count + length (returned_of all_done.log)) % uint64_mod)
    × AllUnused all_done.log
returns_gathered_example = returns_gathered 2 (omega arith) runs refl
