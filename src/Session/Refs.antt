-- ===== src/Session/Refs.antt =====
-- What the requests of Session.hpp allocate and count: a reference for each allocated context, and
-- no context but those of posted operations and pending disconnects.
use windows_iocp_network.Base.{ℕ, suc, ◌+◌, ◌<◌, ◌≡◌, arith, length, total, long_limit, Returns}
use windows_iocp_network.Session.{Session, pre_recv, post_recv, flush_send, disconnect_request}
use windows_iocp_network.Session.Context.{
  IoType, io_none, io_send, io_recv, io_recv_zero, io_accept, io_disconnect, io_connect, IoContext,
}
use windows_iocp_network.Session.Requests.{
  Request, pre_receives, post_receives, flushes, disconnects, perform,
}

-- 1 for a context whose operation must be with the kernel, 0 for a disconnect's: no disconnect is
-- ever posted.
abbrev pub owed_type : IoType → ℕ
owed_type io_none = 1
owed_type io_send = 1
owed_type io_recv = 1
owed_type io_recv_zero = 1
owed_type io_accept = 1
owed_type io_disconnect = 0
owed_type io_connect = 1

abbrev pub owed : IoContext → ℕ
owed c = owed_type c.io_type

-- `k` references belong to no context.
abbrev pub IsCounted : ℕ → Session → Type 0
IsCounted k s = s.ref_count ≡ length s.contexts + k

-- And as many operations are posted as contexts are allocated for one.
abbrev pub IsBalanced : ℕ → Session → Type 0
IsBalanced k s = IsCounted k s × (total owed s.contexts ≡ length s.posted)

-- If every allocated context has its reference and `k` more are held, as many operations are posted
-- as contexts other than disconnects' are allocated, and one more reference fits, then no request
-- that makes a context crashes, whatever Winsock answers; and all this holds after it, so a context
-- that Winsock refused is deleted with its reference.
pub perform-IsBalanced :
    (k : ℕ) (r : Request) (s : Session)
    → IsBalanced k s
    → suc s.ref_count < long_limit
    → Returns (IsBalanced k) (perform r s)
unfolding perform pre_recv post_recv flush_send disconnect_request
perform-IsBalanced k (pre_receives answer) s (b, p) h = ground (arith, b, p, h)
perform-IsBalanced k (post_receives answer) s (b, p) h = ground (arith, b, p, h)
perform-IsBalanced k (flushes answer e) s (b, p) h = ground (arith, b, p, h)
perform-IsBalanced k (disconnects dr e) s (b, p) h = ground (arith, b, p, h)
