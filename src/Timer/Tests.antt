-- ===== src/Timer/Tests.antt =====
-- Timer.hpp with two jobs, one of them due.
use windows_iocp_network.Base.{◌≡◌, none, some, [], ◌∷◌, if◌then◌else◌, pos}
use windows_iocp_network.Timer.{Timer, do_timer_job}
use windows_iocp_network.Timer.Due.{any_due, do_timer_job_lem}

abbrev two_jobs : Timer
two_jobs = record {
  timer_job_queue =
      record { owner = 1; task = 1; execution_tick = pos 900 }
      ∷ record { owner = 1; task = 2; execution_tick = pos 300 }
      ∷ [];
  tick_count = pos 0;
}

do_timer_job_lem_example : do_timer_job 100 (pos 500) two_jobs ≡ (
    if any_due (pos 500) two_jobs.timer_job_queue
    then none
    else some (record two_jobs { tick_count = pos 500 }))
do_timer_job_lem_example = do_timer_job_lem 99 (pos 500) two_jobs
