-- ===== src/Session/Requests.antt =====
-- The methods of Session.hpp that make an I/O context, as requests.
use windows_iocp_network.Base.{ℕ, Outcome, done, crash, Bool}
use windows_iocp_network.Session.{
  Session, WsaAnswer, pre_recv, post_recv, flush_send, disconnect_request,
}
use windows_iocp_network.Session.Context.{DisconnectReason}

pub data Request : Type 0 where
  pre_receives post_receives : WsaAnswer → Request
  flushes : WsaAnswer → ℕ → Request
  disconnects : DisconnectReason → ℕ → Request

abbrev state_of : Outcome (Bool × Session) → Outcome Session
state_of (done (b, s)) = done s
state_of (crash e) = crash e

unfoldable pub perform : Request → Session → Outcome Session
perform (pre_receives answer) s = state_of (pre_recv answer s)
perform (post_receives answer) s = state_of (post_recv answer s)
perform (flushes answer e) s = state_of (flush_send answer e s)
perform (disconnects dr e) s = disconnect_request dr e s
