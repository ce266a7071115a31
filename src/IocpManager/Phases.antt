-- ===== src/IocpManager/Phases.antt =====
-- The life of an accepted session of IocpManager.hpp and ClientSession.hpp, where the kernel
-- transfers at most as many bytes as an operation has room for. A context stands for its operation,
-- also where the source has a comment in place of the call that starts it.
mod Tests
use windows_iocp_network.Base.{
  ℕ, suc, ◌+◌, ◌-◌, ◌<◌, ◌≤◌, ◌≡◌, refl, sym, ap, subst, ◌∙◌, Bool, true, false, not, ◌||◌, ◌&&◌,
  Option, none, some, List, [], ◌∷◌, ◌++◌, arith, ◌==◌, length, take, ◌⊎◌, inl, inr, Bool-cases,
  Option-cases, List-cases, Outcome, done, crash, ◌>>=◌, Returns, Returns-done, if◌then◌else◌,
  long_limit, done-eq,
}
use mathlib.Core.List.{append-nil}
use windows_iocp_network.CircularBuffer
use windows_iocp_network.CircularBuffer.{CircularBuffer}
use windows_iocp_network.ClientSession
use windows_iocp_network.ClientSession.{ClientSession, post_accept, accepted, buf_size}
use windows_iocp_network.ClientSession.Context.{
  IoType, io_none, io_send, io_recv, io_recv_zero, io_accept, io_disconnect, IoContext,
  DisconnectReason, dr_none, dr_onconnect_error, dr_completion_error, is_recv_or_send, thread_main,
}
use windows_iocp_network.IocpManager.{Answers, dispatch, close_on_failure, worker_turn}
use windows_iocp_network.IocpManager.Lifetime.{Port, added}

-- The operation that a session waits for, if any.
pub data Phase : Type 0 where
  accepting receiving closing closed : Phase

pub data Next : Phase → Phase → Type 0 where
  goes_online : Next accepting receiving
  is_refused : Next accepting closing
  breaks : Next receiving closing
  ends : Next closing closed

abbrev pub pending_type : Phase → Option IoType
pending_type accepting = some io_accept
pending_type receiving = some io_recv
pending_type closing = some io_disconnect
pending_type closed = none

abbrev pub IsPending : Option IoType → List IoContext → Type 0
IsPending none cs = cs ≡ []
IsPending (some t) cs = (c : IoContext) × (cs ≡ c ∷ []) × (c.io_type ≡ t) × (c.wsa_len ≡ 0)

abbrev pub is_receiving : Phase → Bool
is_receiving receiving = true
is_receiving _ = false

-- The turns that are left.
abbrev pub turns_left : Phase → ℕ
turns_left accepting = 3
turns_left receiving = 2
turns_left closing = 1
turns_left closed = 0

-- The references: at least, and at most.
abbrev fewest : Phase → ℕ
fewest receiving = 2
fewest closing = 2
fewest _ = 1

abbrev most : Phase → ℕ
most accepting = 1
most closing = 3
most _ = 2

-- A session in a phase: exactly the operation of the phase is pending, with a buffer of length 0;
-- WSARecv and WSASend have never been called; and nothing is in the buffer of the session but what
-- `new` left there.
pub record Stands (block : List ℕ) (phase : Phase) (p : Port) : Type 0 where
  pub pending : IsPending (pending_type phase) p.pending
  pub online : p.client.connected ≡ is_receiving phase
  pub unlocked : p.client.locked ≡ false
  pub silent : p.client.posted ≡ []
  pub untouched : p.client.buffer ≡ CircularBuffer.construct buf_size block
  pub handed : p.client.handed_back ≡ 0
  pub referenced : fewest phase ≤ p.client.ref_count
  pub few : p.client.ref_count ≤ most phase

-- A turn for a pending operation with any outcome, any number of bytes that fits, and any answers
-- of Winsock, that returns.
pub data Step : Port → Port → Type 0 where
  completes :
      (before after : List IoContext) (c : IoContext) (ret : Bool) (n : ℕ) (answers : Answers)
      {s s' : ClientSession}
      → n ≤ c.wsa_len
      → worker_turn (record { ret = ret; transferred = n; context = some c }) answers s ≡ done s'
      → Step
          (record { client = s; pending = before ++ c ∷ after })
          (record { client = s'; pending = added s s' ++ (before ++ after) })

-- After a number of turns.
pub data Reach (s : Port) : ℕ → Port → Type 0 where
  here : Reach s 0 s
  next : {n : ℕ} {t u : Port} → Reach s n t → Step t u → Reach s (suc n) u

-- What a turn in a phase leads to.
pub Turned : List ℕ → Phase → ClientSession → ClientSession → Type 0
Turned block phase s s' =
    (phase' : Phase) × Next phase phase'
    × Stands block phase' (record { client = s'; pending = added s s' })

-- A context as the constructors leave it, and a session with one more.
abbrev made : IoType → DisconnectReason → ClientSession → IoContext
made t dr s = record {
  id = s.next_context;
  io_type = t;
  wsa_len = 0;
  wsa_buf = none;
  disconnect_reason = dr;
}

abbrev with_made : IoType → DisconnectReason → ClientSession → ClientSession
with_made t dr s = record s {
  ref_count = suc s.ref_count;
  contexts = made t dr s ∷ s.contexts;
  next_context = suc s.next_context;
}

module _ (c : IoContext) (ret : Bool) (answers : Answers) (s : ClientSession)
    (free : s.locked ≡ false) (few : suc s.ref_count < long_limit) where
  accept_fails :
      c.io_type ≡ io_accept
      → s.connected ≡ false
      → accepted answers.accept ≡ none
      → worker_turn (record { ret = ret; transferred = 0; context = some c }) answers s
        ≡ done (record (with_made io_disconnect dr_onconnect_error s) { connected = false })
  unfolding worker_turn
  accept_fails t off failed = rw (t, off, failed) (ground (arith, off))

  accept_succeeds :
      (addr : ℕ)
      → c.io_type ≡ io_accept
      → s.connected ≡ false
      → accepted answers.accept ≡ some addr
      → worker_turn (record { ret = ret; transferred = 0; context = some c }) answers s
        ≡ done (record (with_made io_recv dr_none s) { connected = true; client_addr = addr })
  unfolding worker_turn
  accept_succeeds addr t off ok = rw (t, off, ok) (ground arith)

  receive_fails :
      c.io_type ≡ io_recv
      → s.connected ≡ true
      → worker_turn (record { ret = ret; transferred = 0; context = some c }) answers s
        ≡ done (record (with_made io_disconnect dr_completion_error s) { connected = false })
  unfolding worker_turn
  receive_fails t on = ground arith

disconnect_ends :
    (c : IoContext) (ret : Bool) (answers : Answers) (s : ClientSession) (rest : ℕ)
    → c.io_type ≡ io_disconnect
    → s.ref_count ≡ suc (suc rest)
    → worker_turn (record { ret = ret; transferred = 0; context = some c }) answers s
      ≡ done (record s { ref_count = suc rest; disconnects = c.disconnect_reason ∷ s.disconnects })
unfolding worker_turn
disconnect_ends c ret answers s rest t e = ground arith

added-made :
    (t : IoType) (dr : DisconnectReason) (s : ClientSession)
    → added s (with_made t dr s) ≡ made t dr s ∷ []
added-made t dr s = ground arith

is_type : {t u : IoType} → some t ≡ some u → u ≡ t
is_type e = ground (arith, e)

made-IsPending :
    (t : IoType) (dr : DisconnectReason) (s : ClientSession)
    → IsPending (some t) (added s (with_made t dr s))
made-IsPending t dr s = (made t dr s, added-made t dr s, refl, refl)

turn-Turned :
    (block : List ℕ) (phase : Phase) (c : IoContext) (ret : Bool) (answers : Answers)
    (s : ClientSession)
    → Stands block phase (record { client = s; pending = c ∷ [] })
    → pending_type phase ≡ some c.io_type
    → Returns
        (Turned block phase s)
        (worker_turn (record { ret = ret; transferred = 0; context = some c }) answers s)
unfolding Turned
turn-Turned block accepting c ret answers s v e = elim (Option-cases (accepted answers.accept)) [
  | inl failed ↦
      rw
        (accept_fails c ret answers s v.unlocked (omega (arith, v.few)) (is_type e) v.online failed)
        (
          closing,
          is_refused,
          record {
            pending = made-IsPending io_disconnect dr_onconnect_error s;
            online = refl;
            unlocked = v.unlocked;
            silent = v.silent;
            untouched = v.untouched;
            handed = v.handed;
            referenced = omega (arith, v.referenced);
            few = omega (arith, v.few);
          },
        )
  | inr (addr, ok) ↦
      rw
        (accept_succeeds c ret answers s v.unlocked (omega (arith, v.few)) addr (is_type e) v.online
          ok)
        (
          receiving,
          goes_online,
          record {
            pending = made-IsPending io_recv dr_none s;
            online = refl;
            unlocked = v.unlocked;
            silent = v.silent;
            untouched = v.untouched;
            handed = v.handed;
            referenced = omega (arith, v.referenced);
            few = omega (arith, v.few);
          },
        )
]
turn-Turned block receiving c ret answers s v e =
    rw (receive_fails c ret answers s v.unlocked (omega (arith, v.few)) (is_type e) v.online) (
      closing,
      breaks,
      record {
        pending = made-IsPending io_disconnect dr_completion_error s;
        online = refl;
        unlocked = v.unlocked;
        silent = v.silent;
        untouched = v.untouched;
        handed = v.handed;
        referenced = omega (arith, v.referenced);
        few = omega (arith, v.few);
      },
    )
turn-Turned block closing c ret answers s v e =
    let two : s.ref_count ≡ suc (suc (s.ref_count - 2)) = omega (arith, v.referenced) in
    rw (disconnect_ends c ret answers s (s.ref_count - 2) (is_type e) two) (
      closed,
      ends,
      record {
        pending = ground arith;
        online = v.online;
        unlocked = v.unlocked;
        silent = v.silent;
        untouched = v.untouched;
        handed = v.handed;
        referenced = omega arith;
        few = omega (arith, v.few);
      },
    )
turn-Turned block closed c ret answers s v e = cc

-- Of what is pending, the turn returns, whatever completes and whatever Winsock answers; nothing is
-- pending only in the end.
pub AllTurn : List ℕ → Phase → ClientSession → List IoContext → Type 0
AllTurn block phase s [] = phase ≡ closed
AllTurn block phase s (c ∷ cs) =
    (cs ≡ [])
    × ((ret : Bool) (answers : Answers)
        → Returns (Turned block phase s)
            (worker_turn (record { ret = ret; transferred = 0; context = some c }) answers s))

only :
    (before after : List IoContext) {c d : IoContext}
    → before ++ c ∷ after ≡ d ∷ []
    → (before ≡ []) × (after ≡ []) × (c ≡ d)
only [] after e = (refl, ground (arith, e), ground (arith, e))
only (x ∷ []) after e = cc
only (x ∷ y ∷ before) after e = cc

pending_one :
    (o : Option IoType) (before after : List IoContext) (c : IoContext)
    → IsPending o (before ++ c ∷ after)
    → (before ≡ []) × (after ≡ []) × (o ≡ some c.io_type) × (c.wsa_len ≡ 0)
pending_one none [] after c h = cc
pending_one none (x ∷ before) after c h = cc
pending_one (some t) before after c (d, e, u, l) =
    let (no_before, no_after, same) = only before after e in
    (
      no_before,
      no_after,
      ap some (sym u ∙ ap (λ x. x.io_type) (sym same)),
      ap (λ x. x.wsa_len) same ∙ l,
    )

none_pending : (phase : Phase) → IsPending (pending_type phase) [] → phase ≡ closed
none_pending accepting (c, e, t, l) = cc
none_pending receiving (c, e, t, l) = cc
none_pending closing (c, e, t, l) = cc
none_pending closed h = refl

Stands-AllTurn :
    (block : List ℕ) (phase : Phase) (s : ClientSession) (cs : List IoContext)
    → Stands block phase (record { client = s; pending = cs })
    → AllTurn block phase s cs
unfolding AllTurn
Stands-AllTurn block phase s [] v = none_pending phase v.pending
Stands-AllTurn block phase s (c ∷ cs) v =
    let (_, others, t, _) = pending_one (pending_type phase) [] cs c v.pending in
    (
      others,
      λ ret answers.
          turn-Turned block phase c ret answers s
            (subst (λ ds. Stands block phase (record { client = s; pending = c ∷ ds })) others v) t,
    )

Step-Stands :
    (block : List ℕ) (phase : Phase) {p q : Port}
    → Step p q
    → Stands block phase p
    → (phase' : Phase) × Next phase phase' × Stands block phase' q
unfolding Turned
Step-Stands block phase (completes before after c ret n answers {s} {s'} short e) v =
    let (no_before, no_after, t, empty) =
      pending_one (pending_type phase) before after c v.pending in
    let none_moved : n ≡ 0 = omega (arith, short, empty) in
    let alone : before ++ c ∷ after ≡ c ∷ [] = rw (no_before, no_after) refl in
    let left : added s s' ++ (before ++ after) ≡ added s s' =
      rw (no_before, no_after) (append-nil (added s s')) in
    let (phase', moves, v') =
      Returns-done (Turned block phase s) _
        (subst
          (λ k.
            worker_turn (record { ret = ret; transferred = k; context = some c }) answers s
            ≡ done s')
          none_moved e)
        (turn-Turned block phase c ret answers s
          (subst (λ ds. Stands block phase (record { client = s; pending = ds })) alone v) t) in
    (
      phase',
      moves,
      subst (λ ds. Stands block phase' (record { client = s'; pending = ds })) (sym left) v',
    )

Next-turns_left :
    {phase phase' : Phase} → Next phase phase' → suc (turns_left phase') ≤ turns_left phase
Next-turns_left goes_online = omega arith
Next-turns_left is_refused = omega arith
Next-turns_left breaks = omega arith
Next-turns_left ends = omega arith

post_accept-Stands :
    (socket : ℕ) (block : List ℕ) {ok : Bool} {s : ClientSession}
    → post_accept thread_main (ClientSession.construct socket block) ≡ done (ok, s)
    → Stands block accepting (record { client = s; pending = s.contexts })
unfolding post_accept ClientSession.construct
post_accept-Stands socket block e =
    let same = done-eq e in
    rw (← same.1) (record {
      pending = (_, refl, refl, refl);
      online = refl;
      unlocked = refl;
      silent = refl;
      untouched = refl;
      handed = refl;
      referenced = omega arith;
      few = omega arith;
    })

reached :
    (block : List ℕ) {p : Port} {turns : ℕ} {q : Port}
    → Stands block accepting p
    → Reach p turns q
    → (phase : Phase) × Stands block phase q × (turns + turns_left phase ≤ 3)
reached block v here = (accepting, v, omega arith)
reached block v (next r st) =
    let (phase, v₁, few) = reached block v r in
    let (phase', moves, v') = Step-Stands block phase st v₁ in
    (phase', v', omega (arith, few, Next-turns_left moves))

-- After `PostAccept` on a new session, if no operation transfers more bytes than it has room for:
-- at any moment the session is in one of four phases (waiting for its accept, for its first
-- receive, for its disconnect, or for nothing), with nothing ever posted to WSARecv or WSASend and
-- nothing ever stored in its buffer, so it echoes no byte; the turn for what is pending returns,
-- and leads to the next phase, whatever its outcome and the answers of Winsock; and after at most
-- three turns nothing is pending any more, while the session is not handed back.
pub Reach-Stands :
    (socket : ℕ) (block : List ℕ) {ok : Bool} {s : ClientSession} {turns : ℕ} {p : Port}
    → post_accept thread_main (ClientSession.construct socket block) ≡ done (ok, s)
    → Reach (record { client = s; pending = s.contexts }) turns p
    → (phase : Phase) × Stands block phase p
      × AllTurn block phase p.client p.pending
      × (turns + turns_left phase ≤ 3)
Reach-Stands socket block {p} e r =
    let (phase, v, few) = reached block (post_accept-Stands socket block e) r in
    (phase, v, Stands-AllTurn block phase p.client p.pending v, few)
