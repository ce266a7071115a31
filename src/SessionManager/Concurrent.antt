-- ===== src/SessionManager/Concurrent.antt =====
-- SessionManager.hpp on many threads: `ReturnClientSession` and `AcceptSessions` under `mMutex`,
-- access by access.
pub mod Alone
pub mod Returned
mod Tests
use windows_iocp_network.Base.{
  ℕ, suc, ◌+◌, ◌%◌, ◌^◌, ◌<◌, ◌≤◌, ◌≡◌, refl, sym, ap, subst, ◌∙◌, Bool, true, false, not, ◌&&◌,
  Option, none, some, List, [], ◌∷◌, ◌++◌, arith, ltb, ◌==◌, if◌then◌else◌, length, length-append,
  total, Outcome, done, crash, out_of_range, crash_assert, ◌>>=◌, ◌>>◌, Safely, Safely-map,
  >>=-eq-done, done-eq,
}
use mathlib.Core.List.{append_assoc, append-nil}
use windows_iocp_network.ClientSession.{ClientSession, session_reset}
use windows_iocp_network.Mutex.{mutex, mutex-IsExclusive}
use windows_iocp_network.Guard.{Body, System, Reach, fresh}
use windows_iocp_network.Guard.Atomic.{Runs-rest, Atomic, IsReplay}
use windows_iocp_network.Guard.Inside.{is_inside}
use windows_iocp_network.Guard.Committed.{quiet-eq}
use windows_iocp_network.Guard.Refine.{Reach-IsAtomic}
use windows_iocp_network.SessionManager.{
  SessionManager, max_connection, uint64_mod, in_use, return_client_session, accept_loop,
}

-- What `mMutex` guards.
pub record Sessions : Type 0 where
  pub free_client_list : List ClientSession
  pub current_issue_count : ℕ
  pub current_return_count : ℕ

-- `ReturnClientSession` with the socket that `SessionReset` gets, and `AcceptSessions`.
pub data Call : Type 0 where
  returns : ℕ → ClientSession → Call
  accepts : Call

pub data Local : Type 0 where
  asserts : ℕ → ClientSession → Local
  resets : ℕ → ClientSession → Local
  pushes : ClientSession → Local
  counts : Local
  tests : Local
  finished : Option Bool → Local

abbrev pub start : Call → Local
start (returns socket client) = asserts socket client
start accepts = tests

abbrev pub manager_of : Sessions → SessionManager
manager_of s = record {
  free_client_list = s.free_client_list;
  locked = false;
  current_issue_count = s.current_issue_count;
  current_return_count = s.current_return_count;
}

abbrev pub is_unused : ClientSession → Bool
is_unused client = not client.connected && (client.ref_count == 0)

unfoldable pub access : Local → Sessions → Outcome (Local × Sessions)
access (asserts socket client) s = do
  crash_assert (is_unused client)
  done (resets socket client, s)
access (resets socket client) s = done (pushes (session_reset socket client), s)
access (pushes client) s =
    done (counts, record s { free_client_list = s.free_client_list ++ client ∷ [] })
access counts s =
    done
      (finished none, record s { current_return_count = (s.current_return_count + 1) % uint64_mod })
access tests s =
    done (if ltb (in_use (manager_of s)) max_connection then tests else finished (some true), s)
access (finished r) s = done (finished r, s)

abbrev pub result : Local → Option (Option Bool)
result (finished r) = some r
result _ = none

abbrev pub body : Body Call Local Sessions (Option Bool)
body = record { start = start; access = access; result = result }

abbrev pub with_manager : Sessions → SessionManager → Sessions
with_manager s m = record s {
  free_client_list = m.free_client_list;
  current_issue_count = m.current_issue_count;
  current_return_count = m.current_return_count;
}

-- A loop that does not end gives no result.
abbrev pub accepted : Sessions → Option (Bool × SessionManager) → Outcome (Option Bool × Sessions)
accepted s none = crash out_of_range
accepted s (some (b, m)) = done (some b, with_manager s m)

-- The two methods as one step each.
unfoldable pub call : Call → Sessions → Outcome (Option Bool × Sessions)
call (returns socket client) s = do
  m ← return_client_session socket client (manager_of s)
  done (none, with_manager s m)
call accepts s = accepted s (accept_loop 1 (manager_of s))
