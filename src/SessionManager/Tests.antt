-- ===== src/SessionManager/Tests.antt =====
-- SessionManager.hpp on one returned session.
use windows_iocp_network.Base.{
  ℕ, ◌≡◌, refl, true, false, none, some, List, [], ◌∷◌, arith, length, replicate, done, crash,
  assertion, Returns, ◌>>=◌, if◌then◌else◌, ◌==◌,
}
use windows_iocp_network.ClientSession
use windows_iocp_network.ClientSession.{ClientSession}
use windows_iocp_network.ClientSession.Context.{thread_main}
use windows_iocp_network.SessionManager
use windows_iocp_network.SessionManager.{
  SessionManager, prepare_sessions, return_client_session, accept_sessions, max_connection,
}
use windows_iocp_network.SessionManager.Accept.{returns, accept_sessions_of_returned}

abbrev block : ℕ → ℕ × List ℕ
block n = (n, replicate 4 0)

abbrev gone : List (ℕ × ClientSession)
gone = (5, ClientSession.construct 3 []) ∷ []

abbrev no_sessions : SessionManager
no_sessions = record {
  free_client_list = [];
  locked = false;
  current_issue_count = 0;
  current_return_count = 0;
}

-- Its first client is still there.
abbrev in_service : ClientSession
unfolding ClientSession.construct
in_service = record (ClientSession.construct 3 []) { connected = true }

in_service-connected : in_service.connected ≡ true
unfolding in_service
in_service-connected = refl

accept_sessions_of_returned_example :
    Returns
      (λ m. accept_sessions 1000 m ≡ done (if length gone == 0 then none else some (true, m)))
      (prepare_sessions thread_main block SessionManager.construct >>= returns gone)
unfolding ClientSession.construct
accept_sessions_of_returned_example =
    accept_sessions_of_returned block gone 999 ((refl, refl), tt) (omega arith)

-- It is not taken back: the assertion fails.
return_client_session-used : return_client_session 5 in_service no_sessions ≡ crash assertion
unfolding return_client_session in_service
return_client_session-used = refl
