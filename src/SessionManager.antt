-- ===== src/SessionManager.antt =====
-- win-iocp/win-iocp/SessionManager.hpp: the sessions that no client uses, and the accept loop.
pub mod Accept
pub mod Concurrent
mod Tests
use windows_iocp_network.Base.{
  ℕ, zero, suc, ◌+◌, ◌-◌, ◌%◌, ◌^◌, Bool, true, false, not, ◌&&◌, Option, none, some, List, [], ◌∷◌,
  ◌++◌, ltb, ◌==◌, if◌then◌else◌, Outcome, done, crash, self_lock, crash_assert, ◌>>=◌, ◌>>◌,
}
use windows_iocp_network.ClientSession
use windows_iocp_network.ClientSession.{ClientSession, session_reset}
use windows_iocp_network.ClientSession.Context.{ThreadType, is_main}

-- A session in the list stands for the pointer to it. `locked`: whether `mMutex` is held.
pub record SessionManager : Type 0 where
  pub free_client_list : List ClientSession
  pub locked : Bool
  pub current_issue_count : ℕ
  pub current_return_count : ℕ

abbrev pub max_connection : ℕ
max_connection = 10

-- `uint64_t`.
abbrev pub uint64_mod : ℕ
uint64_mod = 2 ^ 64

unfoldable pub construct : SessionManager
construct = record {
  free_client_list = [];
  locked = false;
  current_issue_count = 0;
  current_return_count = 0;
}

-- The `for` loop, for the rounds that are left. `block` gives what `new` and `new char[BUFSIZE]`
-- returned in a round: what was in the field `mSocket`, and the bytes of the buffer.
unfoldable pub push_new : ℕ → (ℕ → ℕ × List ℕ) → List ClientSession → List ClientSession
push_new zero block free = free
push_new (suc rounds) block free =
    push_new rounds block (free ++ ClientSession.construct (block rounds).0 (block rounds).1 ∷ [])

unfoldable pub prepare_sessions :
    ThreadType → (ℕ → ℕ × List ℕ) → SessionManager → Outcome SessionManager
unfolding push_new
prepare_sessions thread block m = do
  crash_assert (is_main thread)
  done (record m { free_client_list = push_new max_connection block m.free_client_list })

-- `new_socket` is what `WSASocket` returns in `SessionReset`. The mutex is free again at the end.
unfoldable pub return_client_session : ℕ → ClientSession → SessionManager → Outcome SessionManager
return_client_session new_socket client m = if m.locked then crash self_lock else (do
  crash_assert (not client.connected && (client.ref_count == 0))
  done (record m {
    free_client_list = m.free_client_list ++ session_reset new_socket client ∷ [];
    current_return_count = (m.current_return_count + 1) % uint64_mod;
  }))

-- `mCurrentIssueCount - mCurrentReturnCount`, in 64 bits.
abbrev pub in_use : SessionManager → ℕ
in_use m = (m.current_issue_count + (uint64_mod - m.current_return_count)) % uint64_mod

-- The loop of `AcceptSessions`, whose body is still to be written in the source. `none`: the fuel
-- ran out.
unfoldable pub accept_loop : ℕ → SessionManager → Option (Bool × SessionManager)
accept_loop zero m = none
accept_loop (suc fuel) m = elim (ltb (in_use m) max_connection) [
  | true ↦ accept_loop fuel m
  | false ↦ some (true, m)
]

unfoldable pub accept_sessions : ℕ → SessionManager → Outcome (Option (Bool × SessionManager))
unfolding accept_loop
accept_sessions fuel m = if m.locked then crash self_lock else done (accept_loop fuel m)
