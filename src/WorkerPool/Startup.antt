-- ===== src/WorkerPool/Startup.antt =====
-- What `Initailze` and `StartIoThreads` leave behind, and that they stay inside the table.
use windows_iocp_network.Base.{
  ℕ, zero, suc, ◌+◌, ◌≤◌, ◌<◌, ◌≡◌, refl, sym, ap, ◌∙◌, Bool, true, false, not, ◌&&◌, Option, none,
  some, List, [], ◌∷◌, ◌++◌, arith, ltb, ◌==◌, if◌then◌else◌, min, done, crash, null_access,
  Returns, Returns-map, Returns-bind, Option-cases, Bool-cases, inl, inr,
}
use mathlib.Core.List.{append_assoc, append-nil}
use windows_iocp_network.WorkerPool.{
  connect_ex, accept_ex, disconnect_ex, Worker, WorkerPool, Answers, max_iothread, set_worker,
  store_worker, create_workers, handle_of, resume_workers, after_create, start_io_threads,
  initailze, construct,
}

-- How many threads begin, up to the first that does not.
abbrev pub begun : ℕ → ℕ → (ℕ → ℕ) → ℕ
begun zero i begins = 0
begun (suc rounds) i begins = if begins i == 0 then 0 else suc (begun rounds (i + 1) begins)

-- The first `k` entries of the table are the workers of the threads that began, all others null.
abbrev pub IsTable : ℕ → (ℕ → ℕ) → ℕ → (ℕ → Option Worker) → Type 0
IsTable port begins k table =
    (j : ℕ)
    → table j ≡ (
        if ltb j k
        then some
            (record { worker_thread_id = j; thread_handle = begins j; completion_port = port })
        else none)

pub record Created (begins : ℕ → ℕ) (rounds i : ℕ) (s : WorkerPool) (r : Bool × WorkerPool)
    : Type 0 where
  pub all : r.0 ≡ (begun rounds i begins == rounds)
  pub table : IsTable s.completion_port begins (i + begun rounds i begins) r.1.worker_thread
  pub same : r.1 ≡ record s { worker_thread = r.1.worker_thread }

store_worker_lem :
    (i : ℕ) (w : Worker) (s : WorkerPool)
    → i < max_iothread
    → store_worker i w s ≡ done (record s { worker_thread = set_worker s.worker_thread i (some w) })
store_worker_lem i w s h = ground arith

Created-suc :
    (begins : ℕ → ℕ) (rounds i : ℕ) (s : WorkerPool) (w : Worker)
    → (begins i == 0) ≡ false
    → (r : Bool × WorkerPool)
    → Created begins rounds
        (i + 1)
        (record s { worker_thread = set_worker s.worker_thread i (some w) })
        r
    → Created begins (suc rounds) i s r
Created-suc begins rounds i s w starts r c = record {
  all = ground (arith, c.all, starts);
  table = λ j. ground (arith, c.table j, starts);
  same = c.same;
}

create_workers-Created :
    (begins : ℕ → ℕ) (rounds i : ℕ) (s : WorkerPool)
    → i + rounds ≤ max_iothread
    → IsTable s.completion_port begins i s.worker_thread
    → Returns (Created begins rounds i s) (create_workers rounds i begins s)
unfolding create_workers
create_workers-Created begins zero i s h t = record {
  all = refl;
  table = λ j. ground (arith, t j);
  same = refl;
}
create_workers-Created begins (suc rounds) i s h t = elim (Bool-cases (begins i == 0)) [
  | inl fails ↦
      rw (create_workers, fails)
        (record {
          all = ground (arith, fails);
          table = λ j. ground (arith, t j, fails);
          same = refl;
        })
  | inr starts ↦
      let w : Worker = record {
        worker_thread_id = i;
        thread_handle = begins i;
        completion_port = s.completion_port;
      } in
      let s' : WorkerPool = record s { worker_thread = set_worker s.worker_thread i (some w) } in
      rw (create_workers, starts)
        (rw (store_worker_lem i w s (omega arith)) (
          Returns-map (Created begins rounds (i + 1) s') (Created begins (suc rounds) i s)
            (create_workers rounds (i + 1) begins s') (Created-suc begins rounds i s w starts)
            (create_workers-Created begins rounds (i + 1) s' (omega arith)
              (λ j. ground (arith, t j)))))
]

-- The handles of threads `i`, `i + 1`, …
abbrev pub handles : ℕ → ℕ → (ℕ → ℕ) → List ℕ
handles zero i begins = []
handles (suc rounds) i begins = begins i ∷ handles rounds (i + 1) begins

handle_of_lem :
    (port : ℕ) (begins : ℕ → ℕ) (k i : ℕ) (s : WorkerPool)
    → IsTable port begins k s.worker_thread
    → i < k
    → k ≤ max_iothread
    → handle_of i s ≡ done (begins i)
handle_of_lem port begins k i s t h b = ground (arith, t i)

resume_workers_lem :
    (port : ℕ) (begins : ℕ → ℕ) (k rounds i : ℕ) (s : WorkerPool)
    → IsTable port begins k s.worker_thread
    → i + rounds ≤ k
    → k ≤ max_iothread
    → resume_workers rounds i s ≡ done (record s { resumed = s.resumed ++ handles rounds i begins })
unfolding resume_workers
resume_workers_lem port begins k zero i s t h b =
    ap (λ l. done (record s { resumed = l })) (sym (append-nil s.resumed))
resume_workers_lem port begins k (suc rounds) i s t h b =
    rw (resume_workers, handle_of_lem port begins k i s t (omega arith) b)
      (resume_workers_lem port begins k rounds (i + 1)
          (record s { resumed = s.resumed ++ begins i ∷ [] }) t (omega arith) b
        ∙ ap (λ l. done (record s { resumed = l }))
            (append_assoc s.resumed (begins i ∷ []) (handles rounds (i + 1) begins)))

-- After `StartIoThreads`, from a state `s`.
pub record Started (begins : ℕ → ℕ) (s : WorkerPool) (r : Bool × WorkerPool) : Type 0 where
  pub all : r.0 ≡ (begun s.io_thread_count 0 begins == s.io_thread_count)
  pub table : IsTable s.completion_port begins (begun s.io_thread_count 0 begins) r.1.worker_thread
  pub resumed :
      r.1.resumed ≡ (if r.0 then s.resumed ++ handles s.io_thread_count 0 begins else s.resumed)

begun-le : (rounds i : ℕ) (begins : ℕ → ℕ) → begun rounds i begins ≤ rounds
begun-le zero i begins = omega arith
begun-le (suc rounds) i begins = ground (arith, begun-le rounds (i + 1) begins)

after_create-Started :
    (begins : ℕ → ℕ) (s : WorkerPool) (r : Bool × WorkerPool)
    → s.io_thread_count ≤ max_iothread
    → Created begins s.io_thread_count 0 s r
    → Returns (Started begins s) (after_create r)
after_create-Started begins s (false, s') b c = record {
  all = c.all;
  table = λ j. ground (arith, c.table j);
  resumed = ap (λ (x : WorkerPool). x.resumed) c.same;
}
after_create-Started begins s (true, s') b c =
    let n = s.io_thread_count in
    let k = begun n 0 begins in
    let full : k ≡ n = ground (arith, c.all) in
    let count : s'.io_thread_count ≡ n = ap (λ (x : WorkerPool). x.io_thread_count) c.same in
    let before : s'.resumed ≡ s.resumed = ap (λ (x : WorkerPool). x.resumed) c.same in
    let table : IsTable s.completion_port begins n s'.worker_thread =
      λ j. ground (arith, c.table j) in
    let resumes =
      ap (λ t. resume_workers t 0 s') count
      ∙ resume_workers_lem s.completion_port begins n n 0 s' table (omega arith) b in
    rw resumes (record {
      all = c.all;
      table = λ j. ground (arith, c.table j);
      resumed = ap (λ l. l ++ handles n 0 begins) before;
    })

start_io_threads-Started :
    (a : Answers) (s : WorkerPool)
    → s.io_thread_count ≤ max_iothread
    → ((j : ℕ) → s.worker_thread j ≡ none)
    → Returns (Started a.begins s) (start_io_threads a s)
unfolding start_io_threads
start_io_threads-Started a s b empty =
    Returns-bind (Created a.begins s.io_thread_count 0 s) (Started a.begins s)
      (create_workers s.io_thread_count 0 a.begins s) after_create
      (λ r c. after_create-Started a.begins s r b c)
      (create_workers-Created a.begins s.io_thread_count 0 s (omega arith)
        (λ j. ground (arith, empty j)))

abbrev pub is_valid : Option ℕ → Bool
is_valid none = false
is_valid (some socket) = true

-- Whether every call that `Initailze` tests succeeds.
abbrev pub initializes : Answers → Bool
initializes a =
    a.wsa_startup
    && not (a.completion_port == 0)
    && is_valid a.listen_socket
    && (a.registered_port == a.completion_port)
    && a.binds
    && (a.loads 0 && a.loads 1 && a.loads 2)

initailze_lem :
    (a : Answers)
    → let (ok, s) = initailze a construct in
      (ok ≡ initializes a)
      × (s.io_thread_count ≡ min a.processors max_iothread)
      × ((j : ℕ) → s.worker_thread j ≡ none)
      × (s.resumed ≡ [])
unfolding initailze construct
initailze_lem a = elim (Option-cases a.listen_socket) [
  | inl n ↦ (ground (arith, n), ground (arith, n), λ j. ground (arith, n), ground (arith, n))
  | inr (socket, n) ↦
      (ground (arith, n), ground (arith, n), λ j. ground (arith, n), ground (arith, n))
]

-- Which extension functions a call reaches after `Initailze`: each needs those before it.
pub extensions_lem :
    (a : Answers) (answer : Bool)
    → let (ok, s) = initailze a construct in
      (connect_ex answer s ≡ (if ok then done answer else crash null_access))
      × (ok ≡ true → (accept_ex answer s ≡ done answer) × (disconnect_ex answer s ≡ done answer))
unfolding initailze construct connect_ex accept_ex disconnect_ex
extensions_lem a answer = elim (Option-cases a.listen_socket) [
  | inl n ↦ (ground (arith, n), ground (arith, n))
  | inr (socket, n) ↦ (ground (arith, n), ground (arith, n))
]

-- After `Initailze` and `StartIoThreads` of a new manager, whatever Windows answers, no access was
-- outside the table of 8 workers or through a null pointer in it. `Initailze` says true exactly if
-- every call that it tests succeeds, and the thread count is the smaller of the number of
-- processors and 8; `ConnectEx`, the last pointer that it loads, can be called exactly then, and is
-- null otherwise. `StartIoThreads` says true exactly if all these threads begin; the table holds a
-- worker, with its number, its handle and the port, for each thread before the first that does not
-- begin, and null elsewhere; and all of them are resumed, in order, or none if one did not begin.
pub startup_lem :
    (a : Answers) (answer : Bool)
    → let (ok, s) = initailze a construct in
      (ok ≡ initializes a)
      × (s.io_thread_count ≡ min a.processors max_iothread)
      × (connect_ex answer s ≡ (if initializes a then done answer else crash null_access))
      × Returns
          (λ r.
            let n = s.io_thread_count in
            (r.0 ≡ (begun n 0 a.begins == n))
            × IsTable s.completion_port a.begins (begun n 0 a.begins) r.1.worker_thread
            × (r.1.resumed ≡ (if r.0 then handles n 0 a.begins else [])))
          (start_io_threads a s)
startup_lem a answer =
    let s = (initailze a construct).1 in
    let (ok, count, empty, fresh) = initailze_lem a in
    (
      ok,
      count,
      (extensions_lem a answer).0 ∙ ap (λ b. if b then done answer else crash null_access) ok,
      Returns-map (Started a.begins s) _ (start_io_threads a s)
          (λ r v. (
            v.all,
            v.table,
            v.resumed
                ∙ ap (λ l. if r.0 then l ++ handles s.io_thread_count 0 a.begins else l) fresh,
          ))
          (start_io_threads-Started a s (omega (arith, count)) empty),
    )
