-- ===== src/ClientSession/Context.antt =====
-- win-iocp/win-iocp/ClientSession.hpp, the I/O contexts; and the kinds of threads of
-- EduEchoServer.cpp. `id` names the allocated context, in place of its address.
use windows_iocp_network.Base.{ℕ, Bool, true, false, Option}

pub data IoType : Type 0 where
  io_none io_send io_recv io_recv_zero io_accept io_disconnect : IoType

pub data DisconnectReason : Type 0 where
  dr_none dr_recv_zero dr_active dr_onconnect_error dr_completion_error : DisconnectReason
  dr_io_request_error : DisconnectReason

-- `wsa_buf` is an offset in `mBuffer`, or null.
pub record IoContext : Type 0 where
  pub id : ℕ
  pub io_type : IoType
  pub wsa_len : ℕ
  pub wsa_buf : Option ℕ
  pub disconnect_reason : DisconnectReason

-- `LThreadType`.
pub data ThreadType : Type 0 where
  unset thread_main thread_io_worker : ThreadType

abbrev pub is_main : ThreadType → Bool
is_main thread_main = true
is_main _ = false

abbrev pub is_io_worker : ThreadType → Bool
is_io_worker thread_io_worker = true
is_io_worker _ = false

-- `context->mIoType == IO_RECV || context->mIoType == IO_SEND`
abbrev pub is_recv_or_send : IoType → Bool
is_recv_or_send io_recv = true
is_recv_or_send io_send = true
is_recv_or_send _ = false
