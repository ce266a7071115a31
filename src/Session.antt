-- ===== src/Session.antt =====
-- win-iocp/win-iocp-mssql-usage/Session.hpp. A method takes the session and returns it with its
-- result. What Winsock answers is an argument of the method. The code under `mSendBufferLock` is
-- one step; Session/Concurrent has its accesses.
pub mod Context
pub mod Requests
pub mod Refs
pub mod Lifetime
pub mod Store
pub mod Stream
pub mod Drain
pub mod Echo
pub mod Concurrent
mod Tests
use windows_iocp_network.Base.{
  ℕ, zero, suc, ◌+◌, Bool, true, false, not, ◌&&◌, Option, none, some, List, [], ◌∷◌, ltb, ◌==◌,
  if◌then◌else◌, length, long_limit, Outcome, done, crash, Fault, assertion, crash_assert, ◌>>=◌,
  ◌>>◌, ℤ, pos, negsuc, ◌+ℤ◌, ◌-ℤ◌, ltb_ℤ,
}
use windows_iocp_network.CircularBuffer
use windows_iocp_network.Memory.{region}
use windows_iocp_network.CircularBuffer.{
  CircularBuffer, remove, get_free_space_size, get_contiguious_bytes, get_buffer_start, commit, put,
}
use Context.{
  IoType, io_none, io_send, io_recv, io_recv_zero, io_disconnect, DisconnectReason, dr_none,
  dr_sendflush_error, IoContext, is_deletable, erase_context,
}

-- Beside the fields of the class: `contexts`, the I/O contexts that are allocated; `posted`, those
-- whose operation the kernel holds; `next_context`, the next unused name; and the calls of the
-- virtual methods `OnDisconnect` and `OnRelease`, which are empty in this class.
pub record Session : Type 0 where
  pub recv_buffer : CircularBuffer
  pub send_buffer : CircularBuffer
  pub send_pending_count : ℤ
  pub ref_count : ℕ
  pub connected : Bool
  pub contexts : List IoContext
  pub posted : List IoContext
  pub next_context : ℕ
  pub on_disconnects : List DisconnectReason
  pub on_releases : ℕ

-- What an overlapped call returns: 0, or SOCKET_ERROR with the value of `WSAGetLastError()`.
pub data WsaAnswer : Type 0 where
  success : WsaAnswer
  socket_error : ℕ → WsaAnswer

abbrev pub wsa_io_pending : ℕ
wsa_io_pending = 997

-- Both tests after a call: SOCKET_ERROR, and an error other than WSA_IO_PENDING.
abbrev pub failed : WsaAnswer → Bool
failed success = false
failed (socket_error e) = not (e == wsa_io_pending)

-- A count below zero does not arise: the assertion of `release_ref` fails first.
unfoldable pub add_ref : Session → Outcome Session
add_ref s = do
  crash_assert (ltb (suc s.ref_count) long_limit)
  done (record s { ref_count = suc s.ref_count })

unfoldable pub on_release : Session → Session
on_release s = record s { on_releases = suc s.on_releases }

abbrev pub released : ℕ → Session → Outcome Session
released zero s = crash assertion
released (suc ret) s =
    let s' : Session = record s { ref_count = ret } in done (if ret == 0 then on_release s' else s')

unfoldable pub release_ref : Session → Outcome Session
unfolding on_release
release_ref s = released s.ref_count s

-- `new Overlapped...Context(this)`, and the two fields of `mWsaBuf`.
unfoldable pub new_context :
    IoType → DisconnectReason → ℕ → Option ℕ → Session → Outcome (IoContext × Session)
unfolding add_ref
new_context t dr len buf s = do
  s' ← add_ref s
  done (context, record s' { contexts = context ∷ s'.contexts; next_context = suc s'.next_context })
  where
    context : IoContext
    context = record {
      id = s.next_context;
      io_type = t;
      wsa_len = len;
      wsa_buf = buf;
      disconnect_reason = dr;
    }

unfoldable pub delete_context : IoContext → Session → Outcome Session
unfolding release_ref
delete_context c s = do
  s' ← release_ref s
  crash_assert (is_deletable c.io_type)
  done (record s' { contexts = erase_context c.id s'.contexts })

abbrev pub delete_io_context : Option IoContext → Session → Outcome Session
delete_io_context none s = done s
delete_io_context (some c) s = delete_context c s

-- The kernel takes the operation of a context.
abbrev pub post : IoContext → Session → Session
post c s = record s { posted = c ∷ s.posted }

-- The end of a request: a refused context is deleted, another one is the kernel's.
unfoldable pub submit : WsaAnswer → IoContext → Session → Outcome (Bool × Session)
unfolding delete_context
submit answer c s =
    if failed answer then (do s' ← delete_context c s; done (false, s')) else done (true, post c s)

-- `(LPFN_DISCONNECTEX)(mSocket, context, TF_REUSE_SOCKET, 0)` is no call: it casts the last operand
-- of a comma expression, 0, to a function pointer. So `FALSE ==` holds, and `last_error` is what an
-- earlier call left.
unfoldable pub disconnect_request : DisconnectReason → ℕ → Session → Outcome Session
unfolding new_context delete_context
disconnect_request dr last_error s =
    if s.connected
    then (do
      (context, s') ← new_context io_disconnect dr 0 none (record s { connected = false })
      if last_error == wsa_io_pending then done s' else delete_context context s')
    else done s

unfoldable pub pre_recv : WsaAnswer → Session → Outcome (Bool × Session)
unfolding new_context submit
pre_recv answer s =
    if s.connected
    then (do (context, s') ← new_context io_recv_zero dr_none 0 none s; submit answer context s')
    else done (false, s)

unfoldable pub post_recv : WsaAnswer → Session → Outcome (Bool × Session)
unfolding new_context submit
post_recv answer s =
    let (free, buffer) = get_free_space_size s.recv_buffer in
    let s' : Session = record s { recv_buffer = buffer } in
    if s.connected
    then (if free == 0
        then done (false, s')
        else (do (context, s'') ← new_context io_recv dr_none 0 none s'; submit answer context s''))
    else done (false, s)

-- The locked part of `PostSend`.
unfoldable pub store : CircularBuffer → List ℕ → Bool × CircularBuffer
store c bytes =
    let (free, c') = get_free_space_size c in
    if ltb free (length bytes) then (false, c') else (true, put c' bytes)

unfoldable pub post_send : List ℕ → Session → Bool × Session
unfolding store
post_send bytes s =
    if s.connected
    then (let (stored, c) = store s.send_buffer bytes in (stored, record s { send_buffer = c }))
    else (false, s)

-- `mSendPendingCount == 1`
abbrev pub is_one : ℤ → Bool
is_one (pos n) = n == 1
is_one (negsuc n) = false

-- `mSendPendingCount > 0`, and `0 == mSendPendingCount`.
abbrev pub is_positive : ℤ → Bool
is_positive (pos n) = ltb 0 n
is_positive (negsuc n) = false

abbrev pub is_zero : ℤ → Bool
is_zero (pos n) = n == 0
is_zero (negsuc n) = false

-- The end of `FlushSend`, after `WSASend`.
unfoldable pub sent : WsaAnswer → ℕ → IoContext → Session → Outcome (Bool × Session)
unfolding delete_context disconnect_request
sent answer last_error c s =
    if failed answer
    then (do
      s' ← delete_context c s
      s'' ← disconnect_request dr_sendflush_error last_error s'
      done (true, s''))
    else (let count = s.send_pending_count +ℤ pos 1 in
        done (is_one count, record (post c s) { send_pending_count = count }))

-- True means that the session need not be flushed again.
unfoldable pub flush_send : WsaAnswer → ℕ → Session → Outcome (Bool × Session)
unfolding new_context sent disconnect_request
flush_send answer last_error s =
    if s.connected
    then (if get_contiguious_bytes s.send_buffer == 0
        then done (is_zero s.send_pending_count, s)
        else (if is_positive s.send_pending_count then done (false, s) else (do
          (context, s') ←
              new_context io_send dr_none (get_contiguious_bytes s.send_buffer)
                (get_buffer_start s.send_buffer) s
          sent answer last_error context s')))
    else (do s' ← disconnect_request dr_sendflush_error last_error s; done (true, s'))

unfoldable pub on_disconnect : DisconnectReason → Session → Session
on_disconnect dr s = record s { on_disconnects = dr ∷ s.on_disconnects }

unfoldable pub disconnect_completion : DisconnectReason → Session → Outcome Session
unfolding on_disconnect release_ref
disconnect_completion dr s = release_ref (on_disconnect dr s)

unfoldable pub send_completion : ℕ → Session → Session
send_completion transferred s = record s {
  send_buffer = remove s.send_buffer transferred;
  send_pending_count = s.send_pending_count -ℤ pos 1;
}

unfoldable pub recv_completion : ℕ → Session → Session
recv_completion transferred s = record s { recv_buffer = commit s.recv_buffer transferred }

-- `PostSend` reads `len` bytes at `mRecvBuffer.GetBufferStart()`.
unfoldable pub echo_back : Session → Session
unfolding post_send
echo_back s =
    let len = get_contiguious_bytes s.recv_buffer in
    let (ok, s') = post_send (region (get_buffer_start s.recv_buffer) len s.recv_buffer.buffer) s in
    if len == 0
    then s
    else (if ok then record s' { recv_buffer = remove s'.recv_buffer len } else s')

-- The constructor; the two blocks are what `new char[]` returned.
unfoldable pub construct : ℕ → List ℕ → ℕ → List ℕ → Session
construct send_size send_block recv_size recv_block = record {
  recv_buffer = CircularBuffer.construct recv_size recv_block;
  send_buffer = CircularBuffer.construct send_size send_block;
  send_pending_count = pos 0;
  ref_count = 0;
  connected = false;
  contexts = [];
  posted = [];
  next_context = 0;
  on_disconnects = [];
  on_releases = 0;
}
