-- ===== src/WorkerThread/Job.antt =====
-- What `DoIocpJob` does to a session.
use windows_iocp_network.Base.{
  ℕ, suc, ◌<◌, ◌≡◌, refl, ap, Bool, true, false, not, ◌&&◌, ◌||◌, some, List, [], ◌∷◌, arith, ◌==◌,
  if◌then◌else◌, length, long_limit, Returns, Returns-map, Returns-bind, Bool-cases, inl, inr,
}
use windows_iocp_network.Session.{Session, disconnect_request, delete_context}
use windows_iocp_network.Session.Context.{
  IoContext, erase_context, is_recv_or_send, dr_completion_error, io_none, is_deletable, IoType,
  io_send, io_recv, io_recv_zero, io_accept, io_disconnect, io_connect,
}
use windows_iocp_network.Session.Refs.{IsCounted}
use windows_iocp_network.WorkerThread.{switch_on, fail_io, do_iocp_job}
use windows_iocp_network.ServerSession.{connect_completion}

-- A context of that name is allocated.
abbrev pub holds : ℕ → List IoContext → Bool
holds i [] = false
holds i (c ∷ cs) = (c.id == i) || holds i cs

length-erase_context :
    (i : ℕ) (cs : List IoContext)
    → holds i cs ≡ true
    → suc (length (erase_context i cs)) ≡ length cs
length-erase_context i [] h = ground arith
length-erase_context i (c ∷ cs) h = elim (Bool-cases (c.id == i)) [
  | inl e ↦ rw e refl
  | inr e ↦
      let rest : holds i cs ≡ true = ground arith in rw e (ap suc (length-erase_context i cs rest))
]

-- What the failed receive or send leaves.
pub record Failed (k : ℕ) (s : Session) : Type 0 where
  pub balanced : IsCounted k s
  pub closed : s.connected ≡ false

delete_context-Failed :
    (k : ℕ) (c : IoContext) (s : Session)
    → is_deletable c.io_type ≡ true
    → holds c.id s.contexts ≡ true
    → IsCounted k s
    → s.connected ≡ false
    → Returns (Failed k) (delete_context c s)
unfolding delete_context
delete_context-Failed k c s d h b e = ground (arith, length-erase_context c.id s.contexts h)

disconnect_request-Failed :
    (k last_error : ℕ) (i : ℕ) (s : Session)
    → holds i s.contexts ≡ true
    → IsCounted k s
    → suc s.ref_count < long_limit
    → Returns
        (λ s'. Failed k s' × (holds i s'.contexts ≡ true))
        (disconnect_request dr_completion_error last_error s)
unfolding disconnect_request
disconnect_request-Failed k last_error i s h b room = ground arith

switch_on-eq : (t : IoType) (s : Session) → switch_on t s ≡ s
unfolding connect_completion
switch_on-eq io_none s = refl
switch_on-eq io_send s = refl
switch_on-eq io_recv s = refl
switch_on-eq io_recv_zero s = refl
switch_on-eq io_accept s = refl
switch_on-eq io_disconnect s = refl
switch_on-eq io_connect s = refl

fail_io-Failed :
    (k last_error : ℕ) (c : IoContext) (s : Session)
    → is_recv_or_send c.io_type ≡ true
    → holds c.id s.contexts ≡ true
    → IsCounted k s
    → suc s.ref_count < long_limit
    → Returns (Failed k) (fail_io c last_error s)
unfolding fail_io
fail_io-Failed k last_error c s t h b room =
    let deletable : is_deletable c.io_type ≡ true = ground arith in
    Returns-bind (λ s'. Failed k s' × (holds c.id s'.contexts ≡ true)) (Failed k)
      (disconnect_request dr_completion_error last_error s) (delete_context c)
      (λ s' p. delete_context-Failed k c s' deletable p.1 p.0.balanced p.0.closed)
      (disconnect_request-Failed k last_error c.id s h b room)

-- The job for a dequeued operation returns, if its context is allocated, every context has its
-- reference and one more fits: a receive or send that failed or moved no bytes leaves the session
-- disconnected with one reference for each context still, and any other operation leaves the
-- session as it is (so a receive or send that went well is neither completed nor its context
-- deleted).
pub do_iocp_job_lem :
    (k : ℕ) (c : IoContext) (ret : Bool) (n last_error : ℕ) (s : Session)
    → holds c.id s.contexts ≡ true
    → IsCounted k s
    → suc s.ref_count < long_limit
    → Returns
        (λ s'.
          IsCounted k s'
          × (if (not ret || (n == 0)) && is_recv_or_send c.io_type
              then s'.connected ≡ false
              else (s' ≡ s)))
        (do_iocp_job
          (record { ret = ret; transferred = n; context = some c; last_error = last_error })
          s)
unfolding do_iocp_job
do_iocp_job_lem k c ret n last_error s h b room =
    elim (Bool-cases ((not ret || (n == 0)) && is_recv_or_send c.io_type)) [
      | inl bad ↦
          let t : is_recv_or_send c.io_type ≡ true = ground arith in
          rw bad (
            Returns-map (Failed k) _ (fail_io c last_error s) (λ s' p. (p.balanced, p.closed))
              (fail_io-Failed k last_error c s t h b room))
      | inr good ↦ rw (good, switch_on-eq c.io_type s) (b, refl)
    ]
