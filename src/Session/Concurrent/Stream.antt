-- ===== src/Session/Concurrent/Stream.antt =====
-- The stream of Session/Stream while threads interleave inside the methods of one session.
use windows_iocp_network.Base.{
  ℕ, zero, suc, ◌≤◌, ◌≡◌, refl, sym, ap, subst, ◌∙◌, Bool, true, false, Option, none, some, List,
  [], ◌∷◌, ◌++◌, arith, if◌then◌else◌, total, done, >>=-eq-done, done-eq,
}
use mathlib.Core.List.{append_assoc, append-nil}
use windows_iocp_network.SpinLock.Exclusion.{max_writers}
use windows_iocp_network.SpinLock.Exclusive.{spin_lock, spin_lock-IsExclusive}
use windows_iocp_network.Guard.{System, Reach, fresh}
use windows_iocp_network.Guard.Atomic.{IsReplay}
use windows_iocp_network.Guard.Inside.{is_inside}
use windows_iocp_network.Guard.Committed.{quiet-eq}
use windows_iocp_network.Guard.Refine.{Reach-IsAtomic}
use windows_iocp_network.CircularBuffer.Refine.{contents}
use windows_iocp_network.Session.{WsaAnswer, post_send, flush_send, send_completion}
use windows_iocp_network.Memory.{region}
use windows_iocp_network.Session.Context.{IoContext, is_send}
use windows_iocp_network.Session.Stream
use windows_iocp_network.Session.Stream.{Link, IsStream, Step-IsStream}
use windows_iocp_network.Session.Concurrent.{
  Sender, Call, writes, flushes, completes, body, session_of, call, take_out, hand,
}
use windows_iocp_network.Session.Concurrent.Alone.{atomic}

abbrev pub link_of : Sender → Link
link_of s = record { session = session_of 0 s; wire = s.wire; accepted = s.accepted }

-- The bytes that a call has accepted, and those of all the calls of a log, the last first.
abbrev pub written : Call → Option Bool → List ℕ
written (writes bytes) (some true) = bytes
written c r = []

abbrev pub accepted_of : List (Call × Option Bool) → List ℕ
accepted_of [] = []
accepted_of ((c, r) ∷ log) = accepted_of log ++ written c r

accepts-eq :
    (ok : Bool) (bytes accepted : List ℕ)
    → (if ok then accepted ++ bytes else accepted) ≡ accepted ++ written (writes bytes) (some ok)
accepts-eq true bytes accepted = refl
accepts-eq false bytes accepted = sym (append-nil accepted)

writes-IsStream :
    (bytes : List ℕ) (s t : Sender) (r : Option Bool)
    → call (writes bytes) s ≡ done (r, t)
    → IsStream (link_of s)
    → IsStream (link_of t) × (t.accepted ≡ s.accepted ++ written (writes bytes) r)
unfolding call
writes-IsStream bytes s t r e v =
    let (p, q) = done-eq e in
    let v' = Step-IsStream (Stream.writes bytes) v in
    rw (← p, ← q)
      (
        record { valid = v'.valid; order = v'.order; flight = v'.flight },
        accepts-eq (post_send bytes (session_of 0 s)).0 bytes s.accepted,
      )

flushes-IsStream :
    (id : ℕ) (answer : WsaAnswer) (s t : Sender) (r : Option Bool)
    → call (flushes id answer) s ≡ done (r, t)
    → IsStream (link_of s)
    → IsStream (link_of t) × (t.accepted ≡ s.accepted)
unfolding call
flushes-IsStream id answer s t r e v =
    let ((ok, t'), f, g) = >>=-eq-done (flush_send answer 0 (session_of id s)) _ e in
    let (p, q) = done-eq g in
    let from : IsStream
        (record { session = session_of id s; wire = s.wire; accepted = s.accepted }) =
      record { valid = v.valid; order = v.order; flight = v.flight } in
    let v' = Step-IsStream (Stream.flushes answer 0 f) from in
    rw (← q) (record { valid = v'.valid; order = v'.order; flight = v'.flight }, refl)

-- What was taken out of a list, with the others.
Split : List IoContext → Option (IoContext × List IoContext) → Type 0
Split xs none = Unit {0}
Split xs (some (c, others)) =
    (before : List IoContext) × (after : List IoContext) × (xs ≡ before ++ c ∷ after)
    × (others ≡ before ++ after)

later-Split :
    (x : IoContext) (xs : List IoContext) (o : Option (IoContext × List IoContext))
    → Split xs o
    → Split (x ∷ xs) (elim o [ none ↦ none | some r ↦ some (r.0, x ∷ r.1) ])
unfolding Split
later-Split x xs none h = tt
later-Split x xs (some (c, others)) (before, after, p, q) =
    (x ∷ before, after, ap (◌∷◌ x) p, ap (◌∷◌ x) q)

take_out-Split : (i : ℕ) (xs : List IoContext) → Split xs (take_out i xs)
unfolding Split
take_out-Split i [] = tt
take_out-Split zero (x ∷ xs) = ([], xs, refl, refl)
take_out-Split (suc i) (x ∷ xs) = later-Split x xs (take_out i xs) (take_out-Split i xs)

hand-eq :
    (n : ℕ) (s t : Sender) (o : Option (IoContext × List IoContext))
    → hand n s o ≡ done t
    → (c : IoContext) × (others : List IoContext) × (o ≡ some (c, others))
      × (n ≤ c.wsa_len)
      × (is_send c.io_type ≡ true)
      × (t ≡ record s { posted = others; wire = s.wire ++ region c.wsa_buf n s.send_buffer.buffer })
hand-eq n s t none e = cc
hand-eq n s t (some (c, others)) e =
    (c, others, refl, ground (arith, e), ground (arith, e), ground (arith, e))

completes-IsStream :
    (i n : ℕ) (s t : Sender) (r : Option Bool)
    → call (completes i n) s ≡ done (r, t)
    → IsStream (link_of s)
    → IsStream (link_of t) × (t.accepted ≡ s.accepted)
unfolding call send_completion Split
completes-IsStream i n s t r e v =
    let (t', f, g) = >>=-eq-done (hand n s (take_out i s.posted)) _ e in
    let (p, q) = done-eq g in
    let (c, others, taken, short, send, handed) = hand-eq n s t' (take_out i s.posted) f in
    let (before, after, here, left) = subst (Split s.posted) taken (take_out-Split i s.posted) in
    let v' = Step-IsStream (Stream.completes before c after n here send short) v in
    rw (← q, handed, left) (record { valid = v'.valid; order = v'.order; flight = v'.flight }, refl)

call-IsStream :
    (c : Call) (s t : Sender) (r : Option Bool)
    → call c s ≡ done (r, t)
    → IsStream (link_of s)
    → IsStream (link_of t) × (t.accepted ≡ s.accepted ++ written c r)
call-IsStream (writes bytes) s t r e v = writes-IsStream bytes s t r e v
call-IsStream (flushes id answer) s t r e v =
    let (v', same) = flushes-IsStream id answer s t r e v in
    (v', same ∙ sym (append-nil s.accepted))
call-IsStream (completes i n) s t r e v =
    let (v', same) = completes-IsStream i n s t r e v in (v', same ∙ sym (append-nil s.accepted))

IsReplay-IsStream :
    (d₀ : Sender) (log : List (Call × Option Bool)) (d : Sender)
    → IsStream (link_of d₀)
    → IsReplay body atomic d₀ log d
    → IsStream (link_of d) × (d.accepted ≡ d₀.accepted ++ accepted_of log)
IsReplay-IsStream d₀ [] d v e = rw e (v, sym (append-nil d₀.accepted))
IsReplay-IsStream d₀ ((c, r) ∷ log) d v (d₁, run, e) =
    let (v₁, p) = IsReplay-IsStream d₀ log d₁ v run in
    let (v', q) = call-IsStream c d₁ d r (unfold atomic in e) v₁ in
    (
      v',
      q ∙ ap (λ xs. xs ++ written c r) p ∙ append_assoc d₀.accepted (accepted_of log) (written c r),
    )

-- With at most 2048 threads in the methods of one connected session, whose send side starts as a
-- stream in the sense of `IsStream`, at any moment of any interleaving of their accesses to the
-- lock and to what it guards, in which no method is between its guard's constructor and destructor:
-- the bytes that went out, and then those that wait in the buffer, are those accepted at the start
-- and then those of the calls of `PostSend` that returned true, in the order of the returns; and
-- the send side is a stream again, with at most one send in flight.
pub interleaved-IsStream :
    {n : ℕ} {d₀ : Sender} {t : System spin_lock body}
    → n ≤ max_writers
    → IsStream (link_of d₀)
    → Reach spin_lock body (fresh spin_lock body n d₀) t
    → total (is_inside spin_lock body) t.threads ≡ 0
    → (t.shared.wire ++ contents t.shared.send_buffer ≡ d₀.accepted ++ accepted_of t.log)
      × IsStream (link_of t.shared)
interleaved-IsStream {d₀} {t} few v r quiet =
    let a = Reach-IsAtomic spin_lock body spin_lock-IsExclusive atomic few r in
    let (v', accepted) = IsReplay-IsStream d₀ t.log a.committed v a.replay in
    rw (quiet-eq spin_lock body spin_lock-IsExclusive a quiet) (sym v'.order ∙ accepted, v')
