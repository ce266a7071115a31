-- ===== src/WorkerThread/Tests.antt =====
-- WorkerThread.hpp: a receive of no bytes, and a wait that times out.
use windows_iocp_network.Base.{
  ◌≡◌, refl, true, false, not, ◌&&◌, ◌||◌, none, some, [], ◌∷◌, arith, done, Returns, pos,
  if◌then◌else◌, ◌==◌,
}
use windows_iocp_network.CircularBuffer.{CircularBuffer}
use windows_iocp_network.Session.{Session}
use windows_iocp_network.Session.Context.{io_recv, dr_none, IoContext, is_recv_or_send}
use windows_iocp_network.Session.Refs.{IsCounted}
use windows_iocp_network.WorkerThread.{do_iocp_job}
use windows_iocp_network.WorkerThread.Job.{do_iocp_job_lem}

abbrev empty_buffer : CircularBuffer
empty_buffer = record {
  buffer = 0 ∷ 0 ∷ [];
  buffer_end = 2;
  a_region_pointer = 0;
  a_region_size = 0;
  b_region_pointer = none;
  b_region_size = 0;
  capacity = 2;
}

abbrev receive : IoContext
receive = record {
  id = 4;
  io_type = io_recv;
  wsa_len = 0;
  wsa_buf = none;
  disconnect_reason = dr_none;
}

-- One reference of the owner and one of the receive.
abbrev receiving : Session
receiving = record {
  recv_buffer = empty_buffer;
  send_buffer = empty_buffer;
  send_pending_count = pos 0;
  ref_count = 2;
  connected = true;
  contexts = receive ∷ [];
  posted = receive ∷ [];
  next_context = 5;
  on_disconnects = [];
  on_releases = 0;
}

do_iocp_job_lem_example :
    Returns
      (λ s'.
        IsCounted 1 s'
        × (if (not true || (0 == 0)) && is_recv_or_send io_recv
            then s'.connected ≡ false
            else (s' ≡ receiving)))
      (do_iocp_job
        (record { ret = true; transferred = 0; context = some receive; last_error = 997 })
        receiving)
do_iocp_job_lem_example = do_iocp_job_lem 1 receive true 0 997 receiving refl refl (omega arith)

-- A wait that times out changes nothing.
do_iocp_job-timeout :
    do_iocp_job
      (record { ret = false; transferred = 0; context = none; last_error = 258 })
      receiving
    ≡ done receiving
unfolding do_iocp_job
do_iocp_job-timeout = refl
