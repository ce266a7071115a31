-- ===== src/WorkerPool/Tests.antt =====
-- The mssql IocpManager on sixteen processors, where thread 5 does not begin.
use windows_iocp_network.Base.{
  ◌≡◌, refl, true, none, some, [], ◌∷◌, min, if◌then◌else◌, ◌==◌, Returns, done, crash, null_access,
}
use windows_iocp_network.WorkerPool.{
  connect_ex, Answers, WorkerPool, handle, pointer, max_iothread, construct, initailze,
  start_io_threads, finalize,
}
use windows_iocp_network.WorkerPool.Startup.{initializes, begun, IsTable, handles, startup_lem}

abbrev five_threads : Answers
five_threads = record {
  processors = 16;
  wsa_startup = true;
  completion_port = 40;
  listen_socket = some 44;
  registered_port = 40;
  binds = true;
  loads = λ i. true;
  begins = λ i. if i == 5 then 0 else 7;
}

startup_lem_example :
    let (ok, s) = initailze five_threads construct in
    (ok ≡ initializes five_threads)
    × (s.io_thread_count ≡ min five_threads.processors max_iothread)
    × (connect_ex true s ≡ (if initializes five_threads then done true else crash null_access))
    × Returns
        (λ r.
          let n = s.io_thread_count in
          (r.0 ≡ (begun n 0 five_threads.begins == n))
          × IsTable s.completion_port five_threads.begins
              (begun n 0 five_threads.begins)
              r.1.worker_thread
          × (r.1.resumed ≡ (if r.0 then handles n 0 five_threads.begins else [])))
        (start_io_threads five_threads s)
startup_lem_example = startup_lem five_threads true

-- `Finalize` gives `CloseHandle` the pointers to the workers; the thread handles stay open.
abbrev one_worker : WorkerPool
unfolding construct
one_worker = record construct {
  io_thread_count = 1;
  completion_port = 40;
  worker_thread = λ i.
      if i == 0
      then some (record { worker_thread_id = 0; thread_handle = 7; completion_port = 40 })
      else none;
}

finalize-one_worker :
    Returns
      (λ s.
        s.closed
        ≡ pointer (some (record { worker_thread_id = 0; thread_handle = 7; completion_port = 40 }))
          ∷ handle 40
          ∷ [])
      (finalize one_worker)
unfolding finalize one_worker
finalize-one_worker = refl
