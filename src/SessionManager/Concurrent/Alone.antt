-- ===== src/SessionManager/Concurrent/Alone.antt =====
-- The accesses of one call of SessionManager/Concurrent, alone, do what the method does in one
-- step.
use windows_iocp_network.Base.{
  ◌+◌, ◌%◌, ◌≡◌, refl, Bool, Option, none, some, [], ◌∷◌, ◌++◌, arith, Outcome, done, Safely,
}
use windows_iocp_network.ClientSession.{ClientSession, session_reset}
use windows_iocp_network.Guard.Atomic.{Runs, Runs-rest, Atomic}
use windows_iocp_network.SessionManager.{uint64_mod, return_client_session, accept_loop}
use windows_iocp_network.SessionManager.Concurrent.{
  Sessions, Call, returns, accepts, Local, asserts, resets, pushes, counts, tests, finished, start,
  access, result, body, call,
}

-- What a call has still to do, alone, from each of its places.
abbrev counted : Sessions → Outcome (Option Bool × Sessions)
counted s =
    done (none, record s { current_return_count = (s.current_return_count + 1) % uint64_mod })

abbrev pushed : ClientSession → Sessions → Outcome (Option Bool × Sessions)
pushed client s = counted (record s { free_client_list = s.free_client_list ++ client ∷ [] })

rest : Local → Sessions → Outcome (Option Bool × Sessions)
rest (asserts socket client) s = call (returns socket client) s
rest (resets socket client) s = pushed (session_reset socket client) s
rest (pushes client) s = pushed client s
rest counts s = counted s
rest tests s = call accepts s
rest (finished r) s = done (r, s)

access-rest :
    (l : Local) (s : Sessions)
    → result l ≡ none
    → Safely (λ r. rest r.0 r.1 ≡ rest l s) (access l s)
unfolding rest access call return_client_session accept_loop
access-rest (asserts socket client) s e = ground arith
access-rest (resets socket client) s e = refl
access-rest (pushes client) s e = refl
access-rest counts s e = refl
access-rest tests s e = ground arith
access-rest (finished r) s e = cc

start-rest : (c : Call) (s : Sessions) → rest (start c) s ≡ call c s
unfolding rest
start-rest (returns socket client) s = refl
start-rest accepts s = refl

finished-rest :
    (l : Local) (s : Sessions) (r : Option Bool) → result l ≡ some r → rest l s ≡ done (r, s)
unfolding rest
finished-rest (asserts socket client) s r e = cc
finished-rest (resets socket client) s r e = cc
finished-rest (pushes client) s r e = cc
finished-rest counts s r e = cc
finished-rest tests s r e = cc
finished-rest (finished x) s r e = ground (arith, e)

pub Runs-call :
    (c : Call) (s t : Sessions) (l : Local) (r : Option Bool)
    → Runs body c s l t
    → result l ≡ some r
    → call c s ≡ done (r, t)
Runs-call = Runs-rest body call rest start-rest access-rest finished-rest

unfoldable pub atomic : Atomic body
atomic = record { call = call; runs-call = Runs-call }
