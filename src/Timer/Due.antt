-- ===== src/Timer/Due.antt =====
-- When `DoTimerJob` ends.
use windows_iocp_network.Base.{
  ℕ, zero, suc, ◌≡◌, refl, Bool, true, false, ◌||◌, not, none, some, List, [], ◌∷◌, arith,
  if◌then◌else◌, ℤ, leb_ℤ, Bool-cases, inl, inr,
}
use windows_iocp_network.Timer.{
  TimerJobElement, Timer, compares, best, top, breaks, timer_loop, do_timer_job,
}

-- Whether the time of some job has come.
abbrev pub any_due : ℤ → List TimerJobElement → Bool
any_due now [] = false
any_due now (j ∷ js) = leb_ℤ j.execution_tick now || any_due now js

-- The top is due if and only if some job is.
best_due :
    (now : ℤ) (x : TimerJobElement) (xs : List TimerJobElement)
    → leb_ℤ (best x xs).execution_tick now ≡ (leb_ℤ x.execution_tick now || any_due now xs)
unfolding best compares
best_due now x [] = ground arith
best_due now x (y ∷ ys) = ground (arith, best_due now (if compares x y then y else x) ys)

breaks-top : (now : ℤ) (js : List TimerJobElement) → breaks (top js) now ≡ not (any_due now js)
unfolding top
breaks-top now [] = refl
breaks-top now (x ∷ xs) = ground (arith, best_due now x xs)

timer_loop_due :
    (fuel : ℕ) (t : Timer)
    → any_due t.tick_count t.timer_job_queue ≡ true
    → timer_loop fuel t ≡ none
unfolding timer_loop
timer_loop_due zero t h = refl
timer_loop_due (suc fuel) t h =
    ground (arith, breaks-top t.tick_count t.timer_job_queue, timer_loop_due fuel t h)

-- `DoTimerJob` ends in its first round if the time of no job in the queue has come, and then only
-- the tick count is new; if the time of any has come, it does not end in any number of rounds.
pub do_timer_job_lem :
    (fuel : ℕ) (now : ℤ) (t : Timer)
    → do_timer_job (suc fuel) now t
      ≡ (if any_due now t.timer_job_queue then none else some (record t { tick_count = now }))
unfolding do_timer_job
do_timer_job_lem fuel now t =
    let t' : Timer = record t { tick_count = now } in
    elim (Bool-cases (any_due now t.timer_job_queue)) [
      | inl due ↦ rw (due, timer_loop_due (suc fuel) t' due) refl
      | inr not_due ↦ ground (arith, breaks-top now t.timer_job_queue)
    ]
