-- ===== src/Session/Context.antt =====
-- win-iocp/win-iocp-mssql-usage/OverlappedIOContext.hpp: the kinds of I/O, and the context of one
-- operation. `id` names the allocated context, in place of its address.
use windows_iocp_network.Base.{ℕ, Bool, true, false, Option, List, [], ◌∷◌, ◌==◌, if◌then◌else◌}

pub data IoType : Type 0 where
  io_none io_send io_recv io_recv_zero io_accept io_disconnect io_connect : IoType

pub data DisconnectReason : Type 0 where
  dr_none dr_active dr_onconnect_error dr_completion_error dr_io_request_error : DisconnectReason
  dr_sendflush_error : DisconnectReason

-- `wsa_buf` is an offset in the send buffer, or null.
pub record IoContext : Type 0 where
  pub id : ℕ
  pub io_type : IoType
  pub wsa_len : ℕ
  pub wsa_buf : Option ℕ
  pub disconnect_reason : DisconnectReason

-- The cases of the switch in `DeleteIoContext`; `io_none` meets its default.
abbrev pub is_deletable : IoType → Bool
is_deletable io_none = false
is_deletable io_send = true
is_deletable io_recv = true
is_deletable io_recv_zero = true
is_deletable io_accept = true
is_deletable io_disconnect = true
is_deletable io_connect = true

abbrev pub is_send : IoType → Bool
is_send io_send = true
is_send _ = false

-- `io_type == IO_RECV || io_type == IO_SEND`
abbrev pub is_recv_or_send : IoType → Bool
is_recv_or_send io_send = true
is_recv_or_send io_recv = true
is_recv_or_send _ = false

-- `delete` of the context with that name.
abbrev pub erase_context : ℕ → List IoContext → List IoContext
erase_context i [] = []
erase_context i (c ∷ cs) = if c.id == i then cs else c ∷ erase_context i cs
