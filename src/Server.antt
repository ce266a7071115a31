-- ===== src/Server.antt =====
-- The program of win-iocp/win-iocp: `Initialize`, `StartIoThreads`, `StartAccept` and `Finalize` of
-- IocpManager.hpp, and `_tmain` of EduEchoServer.cpp.
pub mod Main
mod Tests
use windows_iocp_network.Base.{
  ℕ, zero, suc, ◌+◌, ◌-◌, Bool, true, false, Option, none, some, List, [], ◌∷◌, ◌++◌, ltb, ◌==◌,
  if◌then◌else◌, long_limit, ℤ, pos, negsuc, Outcome, done, crash, null_access, ◌>>=◌, ◌>>◌,
}
use windows_iocp_network.ClientSession.Context.{thread_main}
use windows_iocp_network.SessionManager
use windows_iocp_network.SessionManager.{SessionManager, prepare_sessions, accept_sessions}

-- What the calls of Windows answer. `system_info`: the number of processors, which `Initialize`
-- reads through a pointer that was never set; `none` if that points to no memory of the process. A
-- socket that is not valid is `none`. `times_out i`: whether the wait of an I/O thread has timed
-- out, for 0 when `StartAccept` has listened or `StartIoThreads` has failed, and for `i + 1` in
-- round `i` of the accept loop. (20 milliseconds pass, and no completion can come, as nothing is
-- posted.)
pub record Answers : Type 0 where
  pub system_info : Option ℕ
  pub wsa_startup : Bool
  pub completion_port : ℕ
  pub listen_socket : Option ℕ
  pub registered_port : ℕ
  pub binds : Bool
  pub begins : ℕ → Bool
  pub listens : Bool
  pub block : ℕ → ℕ × List ℕ
  pub times_out : ℕ → Bool

-- The fields of `IocpManager` (a socket that is NULL is `some 0`) and the session manager;
-- `wsa_startups`, the calls of `WSAStartup` that no `WSACleanup` has matched; `open_port`, whether
-- the port's handle is open; and `io_threads`, the arguments of the threads that were begun.
pub record Server : Type 0 where
  pub completion_port : ℕ
  pub io_thread_count : ℕ
  pub listen_socket : Option ℕ
  pub wsa_startups : ℕ
  pub open_port : Bool
  pub io_threads : List ℕ
  pub session_manager : SessionManager

unfoldable pub construct : Server
construct = record {
  completion_port = 0;
  io_thread_count = 2;
  listen_socket = some 0;
  wsa_startups = 0;
  open_port = false;
  io_threads = [];
  session_manager = SessionManager.construct;
}

-- `Initialize` from the bind on.
unfoldable pub bind_and_prepare : Answers → Server → Outcome (Bool × Server)
bind_and_prepare a s =
    if a.binds
    then (do
      m ← prepare_sessions thread_main a.block s.session_manager
      done (true, record s { session_manager = m }))
    else done (false, s)

-- From the listen socket on. (The option SO_REUSEADDR is not checked.)
unfoldable pub open_socket : Answers → Option ℕ → Server → Outcome (Bool × Server)
unfolding bind_and_prepare
open_socket a none s = done (false, record s { listen_socket = none })
open_socket a (some socket) s =
    if a.registered_port == s.completion_port
    then bind_and_prepare a (record s { listen_socket = some socket })
    else done (false, record s { listen_socket = some socket })

abbrev pub read_system_info : Option ℕ → Outcome ℕ
read_system_info none = crash null_access
read_system_info (some processors) = done processors

unfoldable pub initialize : Answers → Server → Outcome (Bool × Server)
unfolding open_socket
initialize a s = do
  processors ← read_system_info a.system_info
  let s' = record s { io_thread_count = processors }
  if a.wsa_startup
      then open_socket a a.listen_socket (record s' {
        wsa_startups = suc s.wsa_startups;
        completion_port = a.completion_port;
        open_port = true;
      })
      else done (false, s')

-- The loop of `StartIoThreads`, for the rounds that are left.
unfoldable pub begin_threads : ℕ → ℕ → (ℕ → Bool) → Server → Bool × Server
begin_threads zero i begins s = (true, s)
begin_threads (suc rounds) i begins s = elim (begins i) [
  | true ↦
      begin_threads rounds (i + 1) begins (record s { io_threads = s.io_threads ++ (i + 1) ∷ [] })
  | false ↦ (false, s)
]

-- A DWORD that is a negative `int` gives no round.
abbrev pub rounds_of : ℕ → ℕ
rounds_of count = if ltb count long_limit then count else 0

unfoldable pub start_io_threads : Answers → Server → Bool × Server
unfolding begin_threads
start_io_threads a s = begin_threads (rounds_of s.io_thread_count) 0 a.begins s

-- The I/O threads meanwhile. One whose `GetQueuedCompletionStatus` times out reads the kind of a
-- context that is null, and the process ends; IocpManager has the other turns.
unfoldable pub io_waits : Bool → List ℕ → Outcome (Unit {0})
io_waits true (thread ∷ threads) = crash null_access
io_waits _ _ = done tt

-- `while (AcceptSessions()) Sleep(100)` from round `i`, for a number of rounds of this loop and of
-- the one inside. `none`: still running.
unfoldable pub accept_rounds : ℕ → ℕ → ℕ → Answers → Server → Outcome (Option (Bool × Server))
unfolding io_waits
accept_rounds zero inner i a s = done none
accept_rounds (suc fuel) inner i a s = elim (io_waits (a.times_out (i + 1)) s.io_threads) [
  | crash f ↦ crash f
  | done u ↦ elim (accept_sessions inner s.session_manager) [
    | crash f ↦ crash f
    | done none ↦ done none
    | done (some (true, m)) ↦ accept_rounds fuel inner (i + 1) a (record s { session_manager = m })
    | done (some (false, m)) ↦ done (some (true, record s { session_manager = m }))
  ]
]

unfoldable pub start_accept : ℕ → ℕ → Answers → Server → Outcome (Option (Bool × Server))
unfolding accept_rounds
start_accept fuel inner a s =
    if a.listens then accept_rounds fuel inner 0 a s else done (some (false, s))

unfoldable pub finalize : Server → Server
finalize s = record s { open_port = false; wsa_startups = s.wsa_startups - 1 }

-- The end of `_tmain`: the exit code, after `StartAccept`.
abbrev pub after_accept : Option (Bool × Server) → Option (ℤ × Server)
after_accept none = none
after_accept (some (true, s)) = some (pos 0, finalize s)
after_accept (some (false, s)) = some (negsuc 0, s)

abbrev pub after_threads : ℕ → ℕ → Answers → Bool × Server → Outcome (Option (ℤ × Server))
after_threads fuel inner a (ok, s) = do
  io_waits (a.times_out 0) s.io_threads
  if ok
      then (do r ← start_accept fuel inner a s; done (after_accept r))
      else done (some (negsuc 0, s))

abbrev pub after_initialize : ℕ → ℕ → Answers → Bool × Server → Outcome (Option (ℤ × Server))
after_initialize fuel inner a (true, s) = after_threads fuel inner a (start_io_threads a s)
after_initialize fuel inner a (false, s) = done (some (negsuc 0, s))

unfoldable pub main : ℕ → ℕ → Answers → Outcome (Option (ℤ × Server))
unfolding initialize start_io_threads start_accept finalize construct io_waits
main fuel inner a = do r ← initialize a construct; after_initialize fuel inner a r
