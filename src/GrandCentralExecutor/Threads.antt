-- ===== src/GrandCentralExecutor/Threads.antt =====
-- Threads that dispatch tasks to one executor, in any interleaving.
use windows_iocp_network.Base.{
  ℕ, suc, ◌+◌, ◌-◌, ◌^◌, ◌≤◌, ◌<◌, ◌≡◌, refl, min, List, [], ◌∷◌, ◌++◌, arith, length,
  length-append, replicate, done, total, total-middle, total-replicate, Bool-cases, inl, inr,
}
use windows_iocp_network.ClientSession.Context.{thread_io_worker}
use windows_iocp_network.GrandCentralExecutor
use windows_iocp_network.GrandCentralExecutor.{
  GrandCentralExecutor, Pc, outside, pushing, looping, next_count, is_busy, do_dispatch, push,
  try_pop, rest_of,
}

-- `dispatched`: how many calls of `DoDispatch` have been made; `pushed`: how many tasks have gone
-- into the queue.
pub record System : Type 0 where
  pub executor : GrandCentralExecutor
  pub threads : List Pc
  pub dispatched : ℕ
  pub pushed : ℕ

pub data Step : System → System → Type 0 where
  dispatches :
      (before after : List Pc) (task : ℕ) {e e' : GrandCentralExecutor} {p : Pc} {d n : ℕ}
      → do_dispatch thread_io_worker task e ≡ done (p, e')
      → Step
          (record { executor = e; threads = before ++ outside ∷ after; dispatched = d; pushed = n })
          (record { executor = e'; threads = before ++ p ∷ after; dispatched = suc d; pushed = n })
  pushes :
      (before after : List Pc) (task : ℕ) {e : GrandCentralExecutor} {d n : ℕ}
      → Step
          (record {
            executor = e;
            threads = before ++ pushing task ∷ after;
            dispatched = d;
            pushed = n;
          })
          (record {
            executor = push task e;
            threads = before ++ looping ∷ after;
            dispatched = d;
            pushed = suc n;
          })
  pops :
      (before after : List Pc) {e : GrandCentralExecutor} {d n : ℕ}
      → Step
          (record { executor = e; threads = before ++ looping ∷ after; dispatched = d; pushed = n })
          (record {
            executor = try_pop e;
            threads = before ++ looping ∷ after;
            dispatched = d;
            pushed = n;
          })

pub data Reach (s : System) : System → Type 0 where
  here : Reach s s
  next : {t u : System} → Reach s t → Step t u → Reach s u

abbrev pub fresh : ℕ → System
fresh n = record {
  executor = GrandCentralExecutor.construct;
  threads = replicate n outside;
  dispatched = 0;
  pushed = 0;
}

-- Threads that will never come out of `DoDispatch`.
abbrev pub is_inside : Pc → ℕ
is_inside outside = 0
is_inside _ = 1

abbrev pub is_looping : Pc → ℕ
is_looping looping = 1
is_looping _ = 0

-- Before the counter wraps around: it holds the number of calls; one thread is inside from the
-- first call on; only that thread has pushed, once.
pub record Inv (s : System) : Type 0 where
  pub count : s.executor.remain_task_count ≡ s.dispatched
  pub inside : total is_inside s.threads ≡ min 1 s.dispatched
  pub one_push : s.pushed ≡ total is_looping s.threads
  pub queue : length s.executor.central_task_queue ≤ s.pushed

do_dispatch-cases :
    (task : ℕ) (e e' : GrandCentralExecutor) (p : Pc) (d : ℕ)
    → do_dispatch thread_io_worker task e ≡ done (p, e')
    → e.remain_task_count ≡ d
    → suc d < 2 ^ 63
    → (e'.remain_task_count ≡ suc d)
      × (is_inside p ≡ 1 - d)
      × (is_looping p ≡ 0)
      × (e'.central_task_queue ≡ e.central_task_queue)
unfolding do_dispatch
do_dispatch-cases task e e' p d h c l = elim (Bool-cases (is_busy (next_count e))) [
  | inl busy ↦ ground (arith, h)
  | inr free ↦ ground (arith, h)
]

module _ (before after : List Pc) (p : Pc) where
  inside-middle :
      total is_inside (before ++ p ∷ after)
      ≡ total is_inside before + is_inside p + total is_inside after
  inside-middle = total-middle is_inside before p after

  looping-middle :
      total is_looping (before ++ p ∷ after)
      ≡ total is_looping before + is_looping p + total is_looping after
  looping-middle = total-middle is_looping before p after

length-rest_of : (tasks : List ℕ) → length (rest_of tasks) ≤ length tasks
length-rest_of [] = omega arith
length-rest_of (x ∷ xs) = omega arith

Step-Inv : {s t : System} → Step s t → t.dispatched < 2 ^ 63 → Inv s → Inv t
unfolding push try_pop
Step-Inv (dispatches before after task {e} {e'} {p} {d} h) l v =
    let (c, i, k, q) = do_dispatch-cases task e e' p d h v.count l in
    record {
      count = c;
      inside =
          omega
            (arith, v.inside, i, inside-middle before after outside, inside-middle before after p);
      one_push = omega (
        arith,
        v.one_push,
        k,
        looping-middle before after outside,
        looping-middle before after p,
      );
      queue = rw q v.queue;
    }
Step-Inv (pushes before after task {e}) l v = record {
  count = v.count;
  inside = omega (
    arith,
    v.inside,
    inside-middle before after (pushing task),
    inside-middle before after looping,
  );
  one_push = omega (
    arith,
    v.one_push,
    looping-middle before after (pushing task),
    looping-middle before after looping,
  );
  queue = omega (arith, v.queue, length-append e.central_task_queue (task ∷ []));
}
Step-Inv (pops before after {e}) l v = record {
  count = v.count;
  inside = v.inside;
  one_push = v.one_push;
  queue = omega (arith, v.queue, length-rest_of e.central_task_queue);
}

-- The number of calls only grows.
Step-dispatched : {s t : System} → Step s t → s.dispatched ≤ t.dispatched
Step-dispatched (dispatches before after task h) = omega arith
Step-dispatched (pushes before after task) = omega arith
Step-dispatched (pops before after) = omega arith

Reach-Inv : (n : ℕ) {s : System} → Reach (fresh n) s → s.dispatched < 2 ^ 63 → Inv s
unfolding GrandCentralExecutor.construct
Reach-Inv n here l = record {
  count = refl;
  inside = omega (arith, total-replicate is_inside n outside refl);
  one_push = omega (arith, total-replicate is_looping n outside refl);
  queue = omega arith;
}
Reach-Inv n (next r st) l = Step-Inv st l (Reach-Inv n r (omega (arith, Step-dispatched st)))

total-looping-le : (ps : List Pc) → total is_looping ps ≤ total is_inside ps
total-looping-le [] = omega arith
total-looping-le (p ∷ ps) = ground (arith, total-looping-le ps)

-- With any number of I/O workers on a new executor, whenever between 1 and 2^63 - 1 calls of
-- `DoDispatch` have been made, in any interleaving: exactly one thread is inside a call; the
-- counter holds the number of calls; at most one task of all has been pushed; and the queue holds
-- no more tasks than were pushed.
pub one_dispatcher :
    (n : ℕ) {s : System}
    → Reach (fresh n) s
    → 0 < s.dispatched
    → s.dispatched < 2 ^ 63
    → (total is_inside s.threads ≡ 1)
      × (s.executor.remain_task_count ≡ s.dispatched)
      × (s.pushed ≤ 1)
      × (length s.executor.central_task_queue ≤ s.pushed)
one_dispatcher n {s} r some_call few =
    let v = Reach-Inv n r few in
    (
      omega (arith, v.inside),
      v.count,
      omega (arith, v.one_push, v.inside, total-looping-le s.threads),
      v.queue,
    )
