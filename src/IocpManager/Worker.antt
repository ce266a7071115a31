-- ===== src/IocpManager/Worker.antt =====
-- What every turn of `IoWorkerThread` does, whatever completes.
use windows_iocp_network.Base.{
  ℕ, suc, ◌+◌, ◌≤◌, ◌<◌, ◌≡◌, ◌≢◌, refl, Bool, true, false, not, ◌||◌, ◌&&◌, none, some, List, [],
  ◌∷◌, arith, ◌==◌, length, long_limit, ◌>>=◌, Bool-cases, inl, inr, Outcome, done, crash, Returns,
}
use windows_iocp_network.ClientSession.{ClientSession}
use windows_iocp_network.ClientSession.Context.{
  IoType, io_none, io_send, io_recv, io_recv_zero, io_accept, io_disconnect, IoContext,
  is_recv_or_send,
}
use windows_iocp_network.ClientSession.Refs.{IsCounted}
use windows_iocp_network.IocpManager.{Answers, dispatch, close_on_failure, worker_turn}

abbrev pub is_recv : IoType → ℕ
is_recv io_recv = 1
is_recv _ = 0

-- When a turn does not meet an assertion: the operation has a known kind, an accept completes on an
-- unconnected session, and a disconnect completes while its context's reference is there.
abbrev pub Ready : IoType → ClientSession → Type 0
Ready io_none s = ⊥
Ready io_accept s = s.connected ≡ false
Ready io_disconnect s = 0 < s.ref_count
Ready _ s = Unit {0}

-- The receives that the kernel holds.
abbrev pub receives : List IoContext → ℕ
receives [] = 0
receives (c ∷ cs) = is_recv c.io_type + receives cs

-- What a turn leaves of a session: the references are still counted; no context has gone; no
-- receive has been posted; the mutex is free; and if the session was handed back, every context
-- that it ever allocated has been matched by a `DisconnectCompletion`.
pub record Turned (s s' : ClientSession) : Type 0 where
  pub counted : IsCounted s'
  pub grows : length s.contexts ≤ length s'.contexts
  pub no_receive : receives s'.posted ≡ receives s.posted
  pub unlocked : s'.locked ≡ false
  pub handed : s'.handed_back ≢ s.handed_back → length s'.contexts ≡ length s'.disconnects

module _ (c : IoContext) (n : ℕ) (answers : Answers) (s : ClientSession) where
  dispatch-Turned :
      (t : IoType)
      → IsCounted s
      → s.locked ≡ false
      → Ready t s
      → suc s.ref_count < long_limit
      → Returns
          (λ r.
            Turned s r.1
            × (r.1.ref_count ≤ suc s.ref_count)
            × (r.0 ≡ false → r.1.handed_back ≡ s.handed_back))
          (dispatch t c n answers s)
  unfolding dispatch
  dispatch-Turned io_none k l r h = absurd r
  dispatch-Turned io_send k l r h = ground arith
  dispatch-Turned io_recv k l r h = ground arith
  dispatch-Turned io_recv_zero k l r h = ground arith
  dispatch-Turned io_accept k l r h = ground arith
  dispatch-Turned io_disconnect k l r h = ground arith

close_on_failure-Turned :
    (s : ClientSession) (r : Bool × ClientSession)
    → Turned s r.1
    → suc r.1.ref_count < long_limit
    → (r.0 ≡ false → r.1.handed_back ≡ s.handed_back)
    → Returns (Turned s) (close_on_failure r)
unfolding close_on_failure
close_on_failure-Turned s (true, s') t h e = t
close_on_failure-Turned s (false, s') t h e =
    ground (arith, t.counted, t.grows, t.no_receive, t.unlocked, e refl)

then_close :
    (s : ClientSession) (m : Outcome (Bool × ClientSession))
    → Returns
        (λ r.
          Turned s r.1
          × (r.1.ref_count ≤ suc s.ref_count)
          × (r.0 ≡ false → r.1.handed_back ≡ s.handed_back))
        m
    → suc (suc s.ref_count) < long_limit
    → Returns (Turned s) (m >>= close_on_failure)
then_close s (crash e) t h = t
then_close s (done r) (t, le, e) h = close_on_failure-Turned s r t (omega arith) e

-- A turn for a dequeued operation returns if the references are counted, the mutex is free, two
-- more references fit, and the operation is of a known kind, for an accept on an unconnected
-- session and for a disconnect with a reference. It keeps the references counted, gives no context
-- free, posts no receive (so the data that a zero-byte receive announces is never asked for), and
-- hands the session back only if every context it ever allocated has met a `DisconnectCompletion`.
pub worker_turn-Turned :
    (c : IoContext) (ret : Bool) (n : ℕ) (answers : Answers) (s : ClientSession)
    → IsCounted s
    → s.locked ≡ false
    → Ready c.io_type s
    → suc (suc s.ref_count) < long_limit
    → Returns
        (Turned s)
        (worker_turn (record { ret = ret; transferred = n; context = some c }) answers s)
unfolding worker_turn
worker_turn-Turned c ret n answers s k l r h =
    elim (Bool-cases ((not ret || (n == 0)) && is_recv_or_send c.io_type)) [
      | inl failed ↦ rw failed (ground arith)
      | inr goes_on ↦ rw goes_on (
          then_close s (dispatch c.io_type c n answers s)
            (dispatch-Turned c n answers s c.io_type k l r (omega arith)) h)
    ]

-- A turn without an operation never returns: every wait of 20 ms that dequeues nothing ends the
-- process.
pub worker_turn-ne-done :
    (ret : Bool) (n : ℕ) (answers : Answers) (s s' : ClientSession)
    → worker_turn (record { ret = ret; transferred = n; context = none }) answers s ≢ done s'
unfolding worker_turn
worker_turn-ne-done ret n answers s s' = ground arith
