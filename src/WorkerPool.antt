-- ===== src/WorkerPool.antt =====
-- win-iocp/win-iocp-mssql-usage/IocpManager.hpp: the set-up of the completion port and its worker
-- threads. (`GClientSessionManager`, which `StartAccept` asks, is declared nowhere.)
pub mod Startup
mod Tests
use windows_iocp_network.Base.{
  ℕ, zero, suc, ◌+◌, ◌-◌, Bool, true, false, not, ◌&&◌, Option, none, some, List, [], ◌∷◌, ◌++◌,
  ltb, ◌==◌, if◌then◌else◌, Outcome, done, crash, null_access, out_of_range, ◌>>=◌, min,
}

abbrev pub max_iothread : ℕ
max_iothread = 8

-- A `WorkerThread`: its number, the handle of its thread, and that of the port.
pub record Worker : Type 0 where
  pub worker_thread_id : ℕ
  pub thread_handle : ℕ
  pub completion_port : ℕ

-- The fields of `IocpManager`. A handle is a number, 0 is NULL, and a socket that is not valid is
-- `none`. `functions`: how many of the three static pointers to DisconnectEx, AcceptEx and
-- ConnectEx are set, in this order. Beside them: the threads that were resumed, and the arguments
-- of `CloseHandle`: a handle, or the pointer to a `Worker`.
pub data Closed : Type 0 where
  handle : ℕ → Closed
  pointer : Option Worker → Closed

pub record WorkerPool : Type 0 where
  pub completion_port : ℕ
  pub io_thread_count : ℕ
  pub listen_socket : Option ℕ
  pub worker_thread : ℕ → Option Worker
  pub functions : ℕ
  pub wsa_startups : ℕ
  pub resumed : List ℕ
  pub closed : List Closed

unfoldable pub construct : WorkerPool
construct = record {
  completion_port = 0;
  io_thread_count = 2;
  listen_socket = some 0;
  worker_thread = λ i. none;
  functions = 0;
  wsa_startups = 0;
  resumed = [];
  closed = [];
}

-- What Windows answers. `loads i`: whether the call of `WSAIoctl` number `i` succeeds; `begins i`:
-- the handle that `_beginthreadex` returns for thread `i`.
pub record Answers : Type 0 where
  pub processors : ℕ
  pub wsa_startup : Bool
  pub completion_port : ℕ
  pub listen_socket : Option ℕ
  pub registered_port : ℕ
  pub binds : Bool
  pub loads : ℕ → Bool
  pub begins : ℕ → ℕ

-- The three calls of `WSAIoctl`, for those that are left.
unfoldable pub load_functions : ℕ → ℕ → (ℕ → Bool) → WorkerPool → Bool × WorkerPool
load_functions zero i loads s = (true, s)
load_functions (suc calls) i loads s = elim (loads i) [
  | true ↦ load_functions calls (i + 1) loads (record s { functions = i + 1 })
  | false ↦ (false, s)
]

-- From the registration of the listen socket on.
unfoldable pub register_socket : Answers → WorkerPool → Bool × WorkerPool
unfolding load_functions
register_socket a s =
    if a.registered_port == s.completion_port
    then (if a.binds then load_functions 3 0 a.loads s else (false, s))
    else (false, s)

abbrev pub open_socket : Answers → Option ℕ → WorkerPool → Bool × WorkerPool
open_socket a none s = (false, record s { listen_socket = none })
open_socket a (some socket) s = register_socket a (record s { listen_socket = some socket })

abbrev pub open_port : Answers → WorkerPool → Bool × WorkerPool
open_port a s =
    let s' = record s { completion_port = a.completion_port } in
    if a.completion_port == 0 then (false, s') else open_socket a a.listen_socket s'

-- `Initailze`. The number of processors is a DWORD, and the smaller of it and 8 fits in an `int`.
unfoldable pub initailze : Answers → WorkerPool → Bool × WorkerPool
unfolding register_socket
initailze a s =
    let s' = record s { io_thread_count = min a.processors max_iothread } in
    if a.wsa_startup
    then open_port a (record s' { wsa_startups = suc s.wsa_startups })
    else (false, s')

abbrev pub set_worker : (ℕ → Option Worker) → ℕ → Option Worker → ℕ → Option Worker
set_worker table i w j = if j == i then w else table j

-- `mWorkerThread[i] = new WorkerThread(...)`
abbrev pub store_worker : ℕ → Worker → WorkerPool → Outcome WorkerPool
store_worker i w s =
    if ltb i max_iothread
    then done (record s { worker_thread = set_worker s.worker_thread i (some w) })
    else crash out_of_range

-- The first loop of `StartIoThreads`, for the rounds that are left.
unfoldable pub create_workers : ℕ → ℕ → (ℕ → ℕ) → WorkerPool → Outcome (Bool × WorkerPool)
create_workers zero i begins s = done (true, s)
create_workers (suc rounds) i begins s = elim (begins i == 0) [
  | true ↦ done (false, s)
  | false ↦ do
    s' ←
        store_worker i
          (record {
            worker_thread_id = i;
            thread_handle = begins i;
            completion_port = s.completion_port;
          })
          s
    create_workers rounds (i + 1) begins s'
]

-- `mWorkerThread[i]->GetHandle()`
abbrev pub handle_of : ℕ → WorkerPool → Outcome ℕ
handle_of i s =
    if ltb i max_iothread
    then elim (s.worker_thread i) [ none ↦ crash null_access | some w ↦ done w.thread_handle ]
    else crash out_of_range

-- The second loop.
unfoldable pub resume_workers : ℕ → ℕ → WorkerPool → Outcome WorkerPool
resume_workers zero i s = done s
resume_workers (suc rounds) i s = do
  h ← handle_of i s
  resume_workers rounds (i + 1) (record s { resumed = s.resumed ++ h ∷ [] })

abbrev pub after_create : Bool × WorkerPool → Outcome (Bool × WorkerPool)
after_create (true, s) = do s' ← resume_workers s.io_thread_count 0 s; done (true, s')
after_create (false, s) = done (false, s)

unfoldable pub start_io_threads : Answers → WorkerPool → Outcome (Bool × WorkerPool)
unfolding create_workers resume_workers
start_io_threads a s = do r ← create_workers s.io_thread_count 0 a.begins s; after_create r

-- The loop of `Finalize`: `CloseHandle(mWorkerThread[i])` is given the pointer to the worker.
unfoldable pub close_workers : ℕ → ℕ → WorkerPool → Outcome WorkerPool
close_workers zero i s = done s
close_workers (suc rounds) i s =
    if ltb i max_iothread
    then close_workers rounds (i + 1)
        (record s { closed = s.closed ++ pointer (s.worker_thread i) ∷ [] })
    else crash out_of_range

unfoldable pub finalize : WorkerPool → Outcome WorkerPool
unfolding close_workers
finalize s = do
  s' ← close_workers s.io_thread_count 0 s
  done (record s' {
    closed = s'.closed ++ handle s'.completion_port ∷ [];
    wsa_startups = s'.wsa_startups - 1;
  })

-- `DisconnectEx`, `AcceptEx` and `ConnectEx`: calls through the static pointers, which return
-- `answer` if they reach Winsock.
abbrev pub call_function : ℕ → Bool → WorkerPool → Outcome Bool
call_function i answer s = if ltb i s.functions then done answer else crash null_access

unfoldable pub disconnect_ex : Bool → WorkerPool → Outcome Bool
disconnect_ex answer s = call_function 0 answer s

unfoldable pub accept_ex : Bool → WorkerPool → Outcome Bool
accept_ex answer s = call_function 1 answer s

unfoldable pub connect_ex : Bool → WorkerPool → Outcome Bool
connect_ex answer s = call_function 2 answer s
