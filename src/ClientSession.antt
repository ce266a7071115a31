-- ===== src/ClientSession.antt =====
-- win-iocp/win-iocp/ClientSession.hpp: one client's session. What Winsock answers is an argument of
-- the method that asks.
pub mod Context
pub mod Refs
pub mod Connect
use windows_iocp_network.Base.{
  ℕ, zero, suc, ◌+◌, Bool, true, false, not, ◌&&◌, Option, none, some, List, [], ◌∷◌, ltb, ◌==◌,
  if◌then◌else◌, long_limit, Outcome, done, crash, assertion, self_lock, crash_assert, ◌>>=◌, ◌>>◌,
}
use windows_iocp_network.CircularBuffer
use windows_iocp_network.CircularBuffer.{
  CircularBuffer, remove, get_free_space_size, get_contiguious_bytes, get_buffer_start, get_buffer,
  commit,
}
use Context.{
  IoType, io_send, io_recv, io_accept, io_disconnect, DisconnectReason, dr_none, dr_onconnect_error,
  IoContext, ThreadType, is_main, is_io_worker,
}

-- Beside the fields of the class: `locked`, whether `mMutex` is held; `contexts`, the I/O contexts
-- that were allocated (`DeleteIoContext` is empty, so none goes away); `posted`, those that WSARecv
-- and WSASend took; `disconnects`, the lines that `DisconnectCompletion` printed; and the calls of
-- `GSessionManager->CreateClientSession(this)`, a method that the program does not define.
pub record ClientSession : Type 0 where
  pub socket : ℕ
  pub client_addr : ℕ
  pub locked : Bool
  pub buffer : CircularBuffer
  pub ref_count : ℕ
  pub connected : Bool
  pub contexts : List IoContext
  pub posted : List IoContext
  pub next_context : ℕ
  pub disconnects : List DisconnectReason
  pub handed_back : ℕ

abbrev pub buf_size : ℕ
buf_size = 4096

-- The constructor; `block` is what `new char[BUFSIZE]` returned, `socket` what was in the field.
unfoldable pub construct : ℕ → List ℕ → ClientSession
construct socket block = record {
  socket = socket;
  client_addr = 0;
  locked = false;
  buffer = CircularBuffer.construct buf_size block;
  ref_count = 0;
  connected = false;
  contexts = [];
  posted = [];
  next_context = 0;
  disconnects = [];
  handed_back = 0;
}

-- The linger option only prints a line if it fails; `new_socket` is what `WSASocket` returns.
unfoldable pub session_reset : ℕ → ClientSession → ClientSession
session_reset new_socket s = record s {
  connected = false;
  ref_count = 0;
  client_addr = 0;
  socket = new_socket;
}

-- `std::lock_guard<std::mutex> lock(mMutex)`, and its end.
abbrev pub lock : ClientSession → Outcome ClientSession
lock s = if s.locked then crash self_lock else done (record s { locked = true })

abbrev pub unlock : ClientSession → ClientSession
unlock s = record s { locked = false }

unfoldable pub add_ref : ClientSession → Outcome ClientSession
add_ref s = do
  crash_assert (ltb (suc s.ref_count) long_limit)
  done (record s { ref_count = suc s.ref_count })

abbrev pub released : ℕ → ClientSession → Outcome ClientSession
released zero s = crash assertion
released (suc ref) s = done (record s {
  ref_count = ref;
  handed_back = if ref == 0 then suc s.handed_back else s.handed_back;
})

unfoldable pub release_ref : ClientSession → Outcome ClientSession
release_ref s = released s.ref_count s

-- `new Overlapped...Context(this)`, and the two fields of `mWsaBuf`.
unfoldable pub new_context :
    IoType → DisconnectReason → ℕ → Option ℕ → ClientSession → Outcome (IoContext × ClientSession)
unfolding add_ref
new_context t dr len buf s = do
  s' ← add_ref s
  done (context, record s' { contexts = context ∷ s'.contexts; next_context = suc s'.next_context })
  where
    context : IoContext
    context = record {
      id = s.next_context;
      io_type = t;
      wsa_len = len;
      wsa_buf = buf;
      disconnect_reason = dr;
    }

-- WSA_IO_PENDING, and the two tests after an overlapped call.
pub data WsaAnswer : Type 0 where
  success : WsaAnswer
  socket_error : ℕ → WsaAnswer

abbrev pub refused : WsaAnswer → Bool
refused success = false
refused (socket_error e) = not (e == 997)

-- The end of `PostRecv` and `PostSend`, where the guard's scope ends.
abbrev pub submit : WsaAnswer → IoContext → ClientSession → Bool × ClientSession
submit answer c s =
    if refused answer
    then (false, unlock s)
    else (true, unlock (record s { posted = c ∷ s.posted }))

unfoldable pub pre_recv : ClientSession → Outcome (Bool × ClientSession)
unfolding new_context
pre_recv s =
    if s.connected
    then (do (context, s') ← new_context io_recv dr_none 0 none s; done (true, s'))
    else done (false, s)

unfoldable pub post_recv : WsaAnswer → ClientSession → Outcome (Bool × ClientSession)
unfolding new_context
post_recv answer s =
    let (free, buffer) = get_free_space_size s.buffer in
    if s.connected
    then (do
      s₁ ← lock s
      (context, s₂) ←
          new_context io_recv dr_none free (some (get_buffer buffer))
            (record s₁ { buffer = buffer })
      done (submit answer context s₂))
    else done (false, s)

unfoldable pub recv_completion : ℕ → ClientSession → Outcome ClientSession
recv_completion transferred s = do
  s' ← lock s
  done (unlock (record s' { buffer = commit s'.buffer transferred }))

unfoldable pub post_send : WsaAnswer → ClientSession → Outcome (Bool × ClientSession)
unfolding new_context
post_send answer s =
    if s.connected
    then (do
      s₁ ← lock s
      (context, s₂) ←
          new_context io_send dr_none (get_contiguious_bytes s₁.buffer) (get_buffer_start s₁.buffer)
            s₁
      done (submit answer context s₂))
    else done (false, s)

unfoldable pub send_completion : ℕ → ClientSession → Outcome ClientSession
send_completion transferred s = do
  s' ← lock s
  done (unlock (record s' { buffer = remove s'.buffer transferred }))

-- The context of the request; the call of DisconnectEx is still to be written in the source.
unfoldable pub disconnect_request : DisconnectReason → ClientSession → Outcome ClientSession
unfolding new_context
disconnect_request dr s =
    if s.connected
    then (do
      (context, s') ← new_context io_disconnect dr 0 none (record s { connected = false })
      done s')
    else done s

unfoldable pub disconnect_completion : DisconnectReason → ClientSession → Outcome ClientSession
unfolding release_ref
disconnect_completion dr s = release_ref (record s { disconnects = dr ∷ s.disconnects })

unfoldable pub post_accept : ThreadType → ClientSession → Outcome (Bool × ClientSession)
unfolding new_context
post_accept thread s = do
  crash_assert (is_main thread)
  (context, s') ← new_context io_accept dr_none 0 none s
  done (true, s')

-- What the four calls of `AcceptCompletion` answer; the last gives the address of the peer.
pub record AcceptAnswers : Type 0 where
  pub accept_context_set : Bool
  pub no_delay_set : Bool
  pub rcvbuf_set : Bool
  pub peer : Option ℕ

-- The `do … while (false)` block: the address, if no call failed.
abbrev pub accepted : AcceptAnswers → Option ℕ
accepted a =
    if a.accept_context_set
    then (if a.no_delay_set then (if a.rcvbuf_set then a.peer else none) else none)
    else none

abbrev pub after_accept : Option ℕ → ClientSession → Outcome ClientSession
after_accept none s = disconnect_request dr_onconnect_error s
after_accept (some addr) s = do (ok, s') ← pre_recv (record s { client_addr = addr }); done s'

unfoldable pub accept_completion :
    ThreadType → AcceptAnswers → ClientSession → Outcome ClientSession
unfolding pre_recv disconnect_request
accept_completion thread answers s = do
  crash_assert (is_io_worker thread)
  crash_assert (not s.connected)
  after_accept (accepted answers) (record s { connected = true })

-- `handle` is 0 and is compared with the completion port. `IncreaseConnectionCount` is a method
-- that the program does not define. The guard is held until the return, also while `PostRecv` runs.
unfoldable pub on_connect :
    Bool → ℕ → ℕ → WsaAnswer → ClientSession → Outcome (Bool × ClientSession)
unfolding post_recv
on_connect rcvbuf_set completion_port addr answer s = do
  s' ← lock s
  if rcvbuf_set && (completion_port == 0)
      then (do
        (ok, s'') ← post_recv answer (record s' { client_addr = addr; connected = true })
        done (ok, unlock s''))
      else done (false, unlock s')

unfoldable pub set_socket : ℕ → ClientSession → ClientSession
set_socket sock s = record s { socket = sock }
