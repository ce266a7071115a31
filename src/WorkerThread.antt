-- ===== src/WorkerThread.antt =====
-- win-iocp/win-iocp-mssql-usage/WorkerThread.hpp: `DoIocpJob`, for the session of the completed
-- operation. `DoSendJob` is empty.
pub mod Job
mod Tests
use windows_iocp_network.Base.{
  ℕ, Bool, true, false, not, ◌&&◌, ◌||◌, Option, none, some, ◌==◌, if◌then◌else◌, Outcome, done,
  crash, assertion, null_access, ◌>>=◌,
}
use windows_iocp_network.Session.{Session, disconnect_request, delete_context}
use windows_iocp_network.ServerSession.{connect_completion}
use windows_iocp_network.Session.Context.{
  IoType, io_connect, dr_completion_error, IoContext, is_recv_or_send,
}

-- What `GetQueuedCompletionStatus` returned; `last_error` is what `GetLastError()` answers in the
-- job.
pub record Completion : Type 0 where
  pub ret : Bool
  pub transferred : ℕ
  pub context : Option IoContext
  pub last_error : ℕ

abbrev pub wait_timeout : ℕ
wait_timeout = 258

-- `ret == 0 || dwTransferred == 0`
abbrev pub has_failed : Completion → Bool
has_failed c = not c.ret || (c.transferred == 0)

-- The switch: `completionOk` is not used after it, and no context is deleted.
abbrev pub switch_on : IoType → Session → Session
switch_on io_connect s = connect_completion s
switch_on _ s = s

unfoldable pub fail_io : IoContext → ℕ → Session → Outcome Session
unfolding disconnect_request delete_context
fail_io context last_error s = do
  s' ← disconnect_request dr_completion_error last_error s
  delete_context context s'

-- Without a context the job returns on a timeout; otherwise `context->mIoType` is read, or the
-- assertion on `remote` fails.
abbrev pub job : Option IoContext → Completion → Session → Outcome Session
job none c s =
    if has_failed c
    then (if c.last_error == wait_timeout then done s else crash null_access)
    else crash assertion
job (some context) c s =
    if has_failed c && is_recv_or_send context.io_type
    then fail_io context c.last_error s
    else done (switch_on context.io_type s)

unfoldable pub do_iocp_job : Completion → Session → Outcome Session
unfolding fail_io connect_completion
do_iocp_job c s = job c.context c s
