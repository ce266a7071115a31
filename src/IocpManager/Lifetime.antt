-- ===== src/IocpManager/Lifetime.antt =====
-- What becomes of an accepted session over any sequence of turns of the worker threads.
mod Tests
use windows_iocp_network.Base.{
  ℕ, suc, ◌+◌, ◌<◌, ◌≤◌, ◌≡◌, refl, sym, ap, ◌∙◌, Bool, true, false, not, ◌||◌, ◌&&◌, none, some,
  List, [], ◌∷◌, ◌++◌, arith, ◌==◌, length, take, drop, take-append-drop, ◌-◌, length-append, total,
  total-middle, total-append, ◌⊎◌, inl, inr, Bool-cases, Outcome, done, crash, ◌>>=◌, >>=-eq-done,
}
use mathlib.Core.List.{append-nil}
use windows_iocp_network.ClientSession
use windows_iocp_network.ClientSession.{ClientSession, post_accept}
use windows_iocp_network.ClientSession.Context.{
  IoType, io_none, io_send, io_recv, io_recv_zero, io_accept, io_disconnect, IoContext,
  is_recv_or_send, thread_main,
}
use windows_iocp_network.ClientSession.Refs.{IsCounted}
use windows_iocp_network.IocpManager.{Answers, dispatch, close_on_failure, worker_turn}

abbrev pub kind : IoType → ℕ
kind io_disconnect = 1
kind _ = 0

-- What a turn has done that met `d` disconnect completions.
pub record Grown (d : ℕ) (s s' : ClientSession) : Type 0 where
  pub disconnects : length s'.disconnects ≡ d + length s.disconnects
  pub counted : IsCounted s'
  pub unlocked : s'.locked ≡ false
  pub handed : (s'.handed_back ≡ s.handed_back) ⊎ (length s'.contexts ≡ length s'.disconnects)

module _ (c : IoContext) (n : ℕ) (answers : Answers) (s : ClientSession) (k : IsCounted s)
    (l : s.locked ≡ false) where
  dispatch-Grown :
      (t : IoType) {r : Bool × ClientSession}
      → dispatch t c n answers s ≡ done r
      → Grown (kind t) s r.1 × (r.0 ≡ false → r.1.handed_back ≡ s.handed_back)
  unfolding dispatch
  dispatch-Grown io_none e = cc
  dispatch-Grown io_send e = ground (arith, e)
  dispatch-Grown io_recv e = ground (arith, e)
  dispatch-Grown io_recv_zero e = ground (arith, e)
  dispatch-Grown io_accept e = ground (arith, e)
  dispatch-Grown io_disconnect e = ground (arith, e)

  close_on_failure-Grown :
      (d : ℕ) (r : Bool × ClientSession) {s' : ClientSession}
      → Grown d s r.1
      → (r.0 ≡ false → r.1.handed_back ≡ s.handed_back)
      → close_on_failure r ≡ done s'
      → Grown d s s'
  unfolding close_on_failure
  close_on_failure-Grown d (true, s₁) g h e =
      ground (arith, e, g.disconnects, g.counted, g.unlocked, g.handed)
  close_on_failure-Grown d (false, s₁) g h e =
      ground (arith, e, g.disconnects, g.counted, g.unlocked, h refl)

  worker_turn-Grown :
      (ret : Bool) {s' : ClientSession}
      → worker_turn (record { ret = ret; transferred = n; context = some c }) answers s ≡ done s'
      → Grown (kind c.io_type) s s'
  unfolding worker_turn
  worker_turn-Grown ret e = elim (Bool-cases ((not ret || (n == 0)) && is_recv_or_send c.io_type)) [
    | inl failed ↦ ground (arith, e, failed, k, l)
    | inr goes_on ↦
        let (r, d, q) =
          >>=-eq-done (dispatch c.io_type c n answers s) close_on_failure
            (ground (arith, e, goes_on)) in
        let (g, h) = dispatch-Grown c.io_type d in close_on_failure-Grown (kind c.io_type) r g h q
  ]

abbrev pub added : ClientSession → ClientSession → List IoContext
added s s' = take (length s'.contexts - length s.contexts) s'.contexts

-- A turn that returns only adds contexts, at the front.
worker_turn_adds :
    (c : IoContext) (ret : Bool) (n : ℕ) (answers : Answers) (s s' : ClientSession)
    → worker_turn (record { ret = ret; transferred = n; context = some c }) answers s ≡ done s'
    → s'.contexts ≡ added s s' ++ s.contexts
unfolding worker_turn dispatch close_on_failure
worker_turn_adds c ret n answers s s' e =
    let k = length s'.contexts - length s.contexts in
    let kept : drop k s'.contexts ≡ s.contexts = ground (arith, e) in
    sym (take-append-drop k s'.contexts) ∙ ap (λ cs. added s s' ++ cs) kept

-- A session, and the contexts of its operations that have not completed.
pub record Port : Type 0 where
  pub client : ClientSession
  pub pending : List IoContext

-- A turn for a pending operation, with any outcome and any answers of Winsock, that returns; the
-- contexts that it adds become pending.
pub data Step : Port → Port → Type 0 where
  completes :
      (before after : List IoContext) (c : IoContext) (ret : Bool) (n : ℕ) (answers : Answers)
      {s s' : ClientSession}
      → worker_turn (record { ret = ret; transferred = n; context = some c }) answers s ≡ done s'
      → Step
          (record { client = s; pending = before ++ c ∷ after })
          (record { client = s'; pending = added s s' ++ (before ++ after) })

pub data Reach (s : Port) : Port → Type 0 where
  here : Reach s s
  next : {t u : Port} → Reach s t → Step t u → Reach s u

abbrev pub is_disconnect : IoContext → ℕ
is_disconnect c = kind c.io_type

-- The accept context is not of the disconnect kind, so not every context can meet a
-- `DisconnectCompletion`.
pub record Inv (p : Port) : Type 0 where
  pub counted : IsCounted p.client
  pub unlocked : p.client.locked ≡ false
  pub handed : p.client.handed_back ≡ 0
  pub met :
      total is_disconnect p.pending + length p.client.disconnects
      ≤ total is_disconnect p.client.contexts
  pub more : total is_disconnect p.client.contexts < length p.client.contexts

kind-le : (t : IoType) → kind t ≤ 1
kind-le io_none = omega arith
kind-le io_send = omega arith
kind-le io_recv = omega arith
kind-le io_recv_zero = omega arith
kind-le io_accept = omega arith
kind-le io_disconnect = omega arith

total-is_disconnect-le : (cs : List IoContext) → total is_disconnect cs ≤ length cs
total-is_disconnect-le [] = omega arith
total-is_disconnect-le (c ∷ cs) = omega (arith, kind-le c.io_type, total-is_disconnect-le cs)

Step-Inv : {p q : Port} → Step p q → Inv p → Inv q
Step-Inv (completes before after c ret n answers {s} {s'} e) v =
    let g = worker_turn-Grown c n answers s v.counted v.unlocked ret e in
    let new = added s s' in
    let f = worker_turn_adds c ret n answers s s' e in
    let sum = ap (total is_disconnect) f ∙ total-append is_disconnect new s.contexts in
    let size = ap length f ∙ length-append new s.contexts in
    let left = total-append is_disconnect new (before ++ after) in
    let both = total-append is_disconnect before after in
    let middle = total-middle is_disconnect before c after in
    let more : total is_disconnect s'.contexts < length s'.contexts =
      omega (arith, v.more, sum, size, total-is_disconnect-le new) in
    let met : total is_disconnect (new ++ (before ++ after)) + length s'.disconnects
        ≤ total is_disconnect s'.contexts =
      omega (arith, v.met, sum, left, both, middle, g.disconnects) in
    record {
      counted = g.counted;
      unlocked = g.unlocked;
      handed = elim g.handed [
        | inl same ↦ same ∙ v.handed
        | inr every ↦ absurd (omega (arith, met, more, every))
      ];
      met = met;
      more = more;
    }

post_accept-Inv :
    (socket : ℕ) (block : List ℕ) {ok : Bool} {s : ClientSession}
    → post_accept thread_main (ClientSession.construct socket block) ≡ done (ok, s)
    → Inv (record { client = s; pending = s.contexts })
unfolding post_accept ClientSession.construct
post_accept-Inv socket block e = record {
  counted = ground (arith, e);
  unlocked = ground (arith, e);
  handed = ground (arith, e);
  met = ground (arith, e);
  more = ground (arith, e);
}

Reach-Inv : {p q : Port} → Inv p → Reach p q → Inv q
Reach-Inv v here = v
Reach-Inv v (next r st) = Step-Inv st (Reach-Inv v r)

-- After `PostAccept` on a new session, however the pending operations complete, in any order and
-- each at most once, as long as the turns return: the reference count does not get to 0, and the
-- session is never handed back to the session manager.
pub never_handed_back :
    (socket : ℕ) (block : List ℕ) {ok : Bool} {s : ClientSession} {p : Port}
    → post_accept thread_main (ClientSession.construct socket block) ≡ done (ok, s)
    → Reach (record { client = s; pending = s.contexts }) p
    → (0 < p.client.ref_count) × (p.client.handed_back ≡ 0)
never_handed_back socket block e r =
    let v = Reach-Inv (post_accept-Inv socket block e) r in
    (omega (arith, v.counted, v.met, v.more), v.handed)
