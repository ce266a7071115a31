-- ===== src/ClientSession/Connect.antt =====
-- `OnConnect` and `SessionReset` of ClientSession.hpp.
use windows_iocp_network.Base.{
  ℕ, ◌≡◌, refl, Bool, false, arith, done, crash, self_lock, ◌&&◌, ◌==◌, if◌then◌else◌,
}
use windows_iocp_network.CircularBuffer.Refine.{contents}
use windows_iocp_network.ClientSession.{ClientSession, WsaAnswer, on_connect, session_reset}

-- When the mutex is free, `OnConnect` never connects a client: with a completion port it refuses
-- every one and changes nothing, and without one it locks its own mutex a second time, if the
-- socket option was set.
pub on_connect_lem :
    (rcvbuf_set : Bool) (port addr : ℕ) (answer : WsaAnswer) (s : ClientSession)
    → s.locked ≡ false
    → on_connect rcvbuf_set port addr answer s
      ≡ (if rcvbuf_set && (port == 0) then crash self_lock else done (false, s))
unfolding on_connect
on_connect_lem rcvbuf_set port addr answer s free = ground arith

-- `SessionReset` makes the session look new but for its buffer: what the last client sent and was
-- not yet sent back is still queued for the next one.
pub session_reset_lem :
    (new_socket : ℕ) (s : ClientSession)
    → let s' = session_reset new_socket s in
      (s'.connected ≡ false)
      × (s'.ref_count ≡ 0)
      × (s'.client_addr ≡ 0)
      × (s'.socket ≡ new_socket)
      × (contents s'.buffer ≡ contents s.buffer)
unfolding session_reset
session_reset_lem new_socket s = (refl, refl, refl, refl, refl)
