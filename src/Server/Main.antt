-- ===== src/Server/Main.antt =====
-- How the program of EduEchoServer.cpp ends.
use windows_iocp_network.Base.{
  ℕ, zero, suc, ◌+◌, ◌≡◌, refl, ◌∙◌, Bool, true, false, ◌&&◌, ◌||◌, Option, none, some, List, [],
  ◌∷◌, ◌++◌, arith, ltb, ◌==◌, if◌then◌else◌, ℤ, negsuc, Outcome, done, crash, null_access, ◌>>=◌,
  inl, inr, Bool-cases, Option-cases, Returns-eq_done,
}
use windows_iocp_network.ClientSession.Context.{thread_main}
use windows_iocp_network.SessionManager
use windows_iocp_network.SessionManager.{
  SessionManager, prepare_sessions, accept_loop, accept_sessions, in_use, max_connection,
}
use windows_iocp_network.SessionManager.Accept.{prepare_sessions-IsPool, IsPool}
use windows_iocp_network.Server.{
  Answers, Server, initialize, begin_threads, rounds_of, start_io_threads, accept_rounds,
  start_accept, construct, io_waits, after_accept, after_threads, after_initialize, main,
}

accept_loop-none : (fuel : ℕ) (m : SessionManager) → in_use m ≡ 0 → accept_loop fuel m ≡ none
unfolding accept_loop
accept_loop-none zero m e = refl
accept_loop-none (suc fuel) m e = rw (accept_loop, e) (accept_loop-none fuel m e)

-- Right after `PrepareSessions`, no session is in use, and `AcceptSessions` never returns.
accept_sessions-none :
    (fuel : ℕ) (m : SessionManager) → IsPool max_connection 0 m → accept_sessions fuel m ≡ done none
unfolding accept_sessions
accept_sessions-none fuel m p =
    ground (arith, p.unlocked, accept_loop-none fuel m (ground (arith, p.returned, p.issued)))

-- Whether there is a thread.
abbrev pub has_thread : List ℕ → Bool
has_thread [] = false
has_thread (thread ∷ threads) = true

io_waits_lem :
    (out : Bool) (threads : List ℕ)
    → io_waits out threads ≡ (if out && has_thread threads then crash null_access else done tt)
unfolding io_waits
io_waits_lem true [] = refl
io_waits_lem true (thread ∷ threads) = refl
io_waits_lem false threads = refl

abbrev pub waiting : ℕ → Bool → Outcome (Option (ℤ × ℕ))
waiting zero out = done none
waiting (suc fuel) out = if out then crash null_access else done none

abbrev pub waiting_rounds : ℕ → Bool → Outcome (Option (Bool × Server))
waiting_rounds zero out = done none
waiting_rounds (suc fuel) out = if out then crash null_access else done none

accept_rounds_lem :
    (fuel inner : ℕ) (a : Answers) (s : Server)
    → IsPool max_connection 0 s.session_manager
    → accept_rounds fuel inner 0 a s
      ≡ waiting_rounds fuel (a.times_out 1 && has_thread s.io_threads)
unfolding accept_rounds
accept_rounds_lem zero inner a s p = refl
accept_rounds_lem (suc fuel) inner a s p =
    rw (accept_rounds, io_waits_lem (a.times_out 1) s.io_threads)
      (elim (Bool-cases (a.times_out 1 && has_thread s.io_threads)) [
        | inl out ↦ rw out refl
        | inr quiet ↦ rw (quiet, accept_sessions-none inner s.session_manager p) refl
      ])

-- Whether threads `i`, `i + 1`, … all begin.
abbrev pub all_begin : ℕ → ℕ → (ℕ → Bool) → Bool
all_begin zero i begins = true
all_begin (suc rounds) i begins = begins i && all_begin rounds (i + 1) begins

has_thread-snoc : (xs : List ℕ) (x : ℕ) → has_thread (xs ++ x ∷ []) ≡ true
has_thread-snoc [] x = refl
has_thread-snoc (y ∷ xs) x = refl

-- Only the list of threads changes, and it gets one if the first begins.
begin_threads_lem :
    (rounds i : ℕ) (begins : ℕ → Bool) (s : Server)
    → (ts : List ℕ) × (begin_threads rounds i begins s
        ≡ (all_begin rounds i begins, record s { io_threads = ts }))
      × (has_thread ts ≡ (has_thread s.io_threads || ltb 0 rounds && begins i))
unfolding begin_threads
begin_threads_lem zero i begins s = (s.io_threads, refl, ground arith)
begin_threads_lem (suc rounds) i begins s = elim (Bool-cases (begins i)) [
  | inl b ↦
      let (ts, e, h) =
        begin_threads_lem rounds (i + 1) begins
          (record s { io_threads = s.io_threads ++ (i + 1) ∷ [] }) in
      (ts, rw (begin_threads, b) e, ground (arith, h, b, has_thread-snoc s.io_threads (i + 1)))
  | inr b ↦ (s.io_threads, rw (begin_threads, b) refl, ground (arith, b))
]

-- What is seen of the program's end: the exit code, and how often Winsock is still started.
abbrev pub seen : Option (ℤ × Server) → Option (ℤ × ℕ)
seen none = none
seen (some (code, s)) = some (code, s.wsa_startups)

abbrev pub seen_of : Outcome (Option (ℤ × Server)) → Outcome (Option (ℤ × ℕ))
seen_of (done r) = done (seen r)
seen_of (crash e) = crash e

-- Whether a first I/O thread begins.
abbrev pub one_begins : Answers → ℕ → Bool
one_begins a processors = ltb 0 (rounds_of processors) && a.begins 0

-- What is seen after `Initialize` has returned true.
abbrev pub served : ℕ → Answers → ℕ → Outcome (Option (ℤ × ℕ))
served fuel a processors =
    if a.times_out 0 && one_begins a processors
    then crash null_access
    else (if all_begin (rounds_of processors) 0 a.begins && a.listens
        then waiting fuel (a.times_out 1 && one_begins a processors)
        else done (some (negsuc 0, 1)))

seen-waiting_rounds :
    (fuel : ℕ) (out : Bool)
    → seen_of (do r ← waiting_rounds fuel out; done (after_accept r)) ≡ waiting fuel out
seen-waiting_rounds zero out = refl
seen-waiting_rounds (suc fuel) true = refl
seen-waiting_rounds (suc fuel) false = refl

after_threads_lem :
    (fuel inner : ℕ) (a : Answers) (s : Server)
    → IsPool max_connection 0 s.session_manager
    → s.io_threads ≡ []
    → s.wsa_startups ≡ 1
    → seen_of (after_threads fuel inner a (start_io_threads a s)) ≡ served fuel a s.io_thread_count
unfolding start_io_threads start_accept
after_threads_lem fuel inner a s p none_yet started =
    let n = rounds_of s.io_thread_count in
    let (ts, e, h) = begin_threads_lem n 0 a.begins s in
    let some_thread : has_thread ts ≡ one_begins a s.io_thread_count =
      ground (arith, h, none_yet) in
    let loops = accept_rounds_lem fuel inner a (record s { io_threads = ts }) p in
    rw (e, io_waits_lem (a.times_out 0) ts, some_thread)
      (elim (Bool-cases (a.times_out 0 && one_begins a s.io_thread_count)) [
        | inl out ↦ rw out refl
        | inr quiet ↦ rw quiet (elim (Bool-cases (all_begin n 0 a.begins)) [
          | inl b ↦ rw b (elim (Bool-cases a.listens) [
            | inl l ↦
                rw (loops, some_thread, l)
                  (seen-waiting_rounds fuel (a.times_out 1 && one_begins a s.io_thread_count))
            | inr l ↦ rw (l, started) refl
          ])
          | inr b ↦ rw (b, started) refl
        ])
      ])

-- Whether `Initialize` returns true.
abbrev pub is_valid : Option ℕ → Bool
is_valid none = false
is_valid (some socket) = true

abbrev pub initializes : Answers → Bool
initializes a =
    a.wsa_startup && is_valid a.listen_socket && (a.registered_port == a.completion_port) && a.binds

-- What is seen at the end: nothing, as it never comes, the code -1, or a crash.
abbrev pub expected_of : ℕ → Answers → Option ℕ → Outcome (Option (ℤ × ℕ))
expected_of fuel a none = crash null_access
expected_of fuel a (some processors) =
    if initializes a
    then served fuel a processors
    else done (some (negsuc 0, if a.wsa_startup then 1 else 0))

-- The server after an `Initialize` that returned true.
abbrev ready : Answers → ℕ → SessionManager → Server
ready a processors m = record {
  completion_port = a.completion_port;
  io_thread_count = processors;
  listen_socket = a.listen_socket;
  wsa_startups = 1;
  open_port = true;
  io_threads = [];
  session_manager = m;
}

initialize-true :
    (a : Answers) (processors : ℕ) (m : SessionManager)
    → a.system_info ≡ some processors
    → prepare_sessions thread_main a.block SessionManager.construct ≡ done m
    → initializes a ≡ true
    → initialize a construct ≡ done (true, ready a processors m)
unfolding initialize construct
initialize-true a processors m e p ok = ground (arith, e, p, ok)

-- After one that returned false.
abbrev unready : Answers → ℕ → Server
unready a processors = record {
  completion_port = if a.wsa_startup then a.completion_port else 0;
  io_thread_count = processors;
  listen_socket = if a.wsa_startup then a.listen_socket else some 0;
  wsa_startups = if a.wsa_startup then 1 else 0;
  open_port = a.wsa_startup;
  io_threads = [];
  session_manager = SessionManager.construct;
}

initialize_wild : (a : Answers) → a.system_info ≡ none → initialize a construct ≡ crash null_access
unfolding initialize
initialize_wild a e = ground (arith, e)

initialize-false :
    (a : Answers) (processors : ℕ)
    → a.system_info ≡ some processors
    → initializes a ≡ false
    → initialize a construct ≡ done (false, unready a processors)
unfolding initialize construct
initialize-false a processors e failed = elim (Option-cases a.listen_socket) [
  | inl n ↦ ground (arith, e, failed, n)
  | inr (socket, n) ↦ ground (arith, e, failed, n)
]

main-after_initialize :
    (fuel inner : ℕ) (a : Answers)
    → main fuel inner a ≡ (initialize a construct >>= after_initialize fuel inner a)
unfolding main
main-after_initialize fuel inner a = refl

main_of_some :
    (fuel inner : ℕ) (a : Answers) (processors : ℕ)
    → a.system_info ≡ some processors
    → seen_of (main fuel inner a) ≡ expected_of fuel a (some processors)
main_of_some fuel inner a processors e =
    let (m, p, pool) =
      Returns-eq_done (IsPool max_connection 0)
        (prepare_sessions thread_main a.block SessionManager.construct)
        (prepare_sessions-IsPool a.block) in
    rw (main-after_initialize fuel inner a) (elim (Bool-cases (initializes a)) [
      | inl ok ↦
          rw (initialize-true a processors m e p ok, ok)
            (after_threads_lem fuel inner a (ready a processors m) pool refl refl)
      | inr failed ↦ rw (initialize-false a processors e failed, failed) refl
    ])

-- `_tmain` never ends well. If `Initialize`'s unset pointer leads nowhere, it crashes; if a tested
-- call of `Initialize` fails (Winsock, the listen socket, its registration at the port, the bind),
-- it returns -1, and Winsock stays started if it was. After that, the process crashes as soon as
-- the wait of an I/O thread times out, if one was begun; before that, it returns -1 with Winsock
-- started if a thread or the listen fails, and otherwise it is in the first call of
-- `AcceptSessions` after any number of rounds.
pub main_lem :
    (fuel inner : ℕ) (a : Answers) → seen_of (main fuel inner a) ≡ expected_of fuel a a.system_info
main_lem fuel inner a = elim (Option-cases a.system_info) [
  | inl wild ↦ rw (main-after_initialize fuel inner a, initialize_wild a wild, wild) refl
  | inr (processors, e) ↦ main_of_some fuel inner a processors e ∙ rw e refl
]
