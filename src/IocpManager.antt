-- ===== src/IocpManager.antt =====
-- win-iocp/win-iocp/IocpManager.hpp: one turn of `IoWorkerThread`, for the session of the completed
-- operation.
pub mod Worker
pub mod Lifetime
pub mod Phases
mod Tests
use windows_iocp_network.Base.{
  ℕ, Bool, true, false, not, ◌&&◌, ◌||◌, Option, none, some, ◌==◌, if◌then◌else◌, Outcome, done,
  crash, assertion, null_access, ◌>>=◌, ◌>>◌,
}
use windows_iocp_network.ClientSession.{
  ClientSession, WsaAnswer, AcceptAnswers, disconnect_request, disconnect_completion,
  accept_completion, pre_recv, post_send, recv_completion, send_completion,
}
use windows_iocp_network.ClientSession.Context.{
  IoType, io_none, io_send, io_recv, io_recv_zero, io_accept, io_disconnect, dr_completion_error,
  dr_io_request_error, IoContext, is_recv_or_send, thread_io_worker,
}

-- What `GetQueuedCompletionStatus` returned. A null context means that no operation was dequeued.
pub record Completion : Type 0 where
  pub ret : Bool
  pub transferred : ℕ
  pub context : Option IoContext

-- What Winsock answers in the turn.
pub record Answers : Type 0 where
  pub send : WsaAnswer
  pub accept : AcceptAnswers

unfoldable pub pre_receive_completion : ClientSession → Outcome (Bool × ClientSession)
unfolding pre_recv
pre_receive_completion client = pre_recv client

unfoldable pub receive_completion : ℕ → WsaAnswer → ClientSession → Outcome (Bool × ClientSession)
unfolding recv_completion post_send
receive_completion transferred answer client = do
  client' ← recv_completion transferred client
  post_send answer client'

unfoldable pub send_completed : IoContext → ℕ → ClientSession → Outcome (Bool × ClientSession)
unfolding send_completion pre_recv
send_completed context transferred client = do
  client' ← send_completion transferred client
  if context.wsa_len == transferred then pre_recv client' else done (false, client')

-- The switch over `context->mIoType`: whether the completion is in order.
unfoldable pub dispatch :
    IoType → IoContext → ℕ → Answers → ClientSession → Outcome (Bool × ClientSession)
unfolding disconnect_completion accept_completion pre_receive_completion send_completed
    receive_completion
dispatch io_disconnect context transferred answers client = do
  client' ← disconnect_completion context.disconnect_reason client
  done (true, client')
dispatch io_accept context transferred answers client = do
  client' ← accept_completion thread_io_worker answers.accept client
  done (true, client')
dispatch io_recv_zero context transferred answers client = pre_receive_completion client
dispatch io_send context transferred answers client = send_completed context transferred client
dispatch io_recv context transferred answers client =
    receive_completion transferred answers.send client
dispatch io_none context transferred answers client = crash assertion

-- `if (!completionOk) DisconnectRequest(DR_IO_REQUEST_ERROR)`; `DeleteIoContext` does nothing.
unfoldable pub close_on_failure : Bool × ClientSession → Outcome ClientSession
unfolding disconnect_request
close_on_failure (ok, client) =
    if ok then done client else disconnect_request dr_io_request_error client

-- The turn for a dequeued operation.
unfoldable pub complete : IoContext → Bool → ℕ → Answers → ClientSession → Outcome ClientSession
unfolding dispatch close_on_failure disconnect_request
complete context ret transferred answers client =
    if (not ret || (transferred == 0)) && is_recv_or_send context.io_type
    then disconnect_request dr_completion_error client
    else (do r ← dispatch context.io_type context transferred answers client; close_on_failure r)

-- Without a context the first test reads `context->mIoType`, and past it the assertion fails.
abbrev pub turn : Option IoContext → Bool → ℕ → Answers → ClientSession → Outcome ClientSession
turn none ret transferred answers client =
    if not ret || (transferred == 0) then crash null_access else crash assertion
turn (some context) ret transferred answers client = complete context ret transferred answers client

unfoldable pub worker_turn : Completion → Answers → ClientSession → Outcome ClientSession
unfolding complete
worker_turn c answers client = turn c.context c.ret c.transferred answers client
