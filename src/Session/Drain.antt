-- ===== src/Session/Drain.antt =====
-- How the send buffer of Session.hpp empties: flushes, each followed by the completion of its send.
mod Tests
use windows_iocp_network.Base.{
  ℕ, suc, ◌-◌, ◌≤◌, ◌<◌, ◌≡◌, refl, sym, ap, ◌∙◌, Bool, true, false, List, [], ◌∷◌, ◌++◌, arith,
  ltb, ◌==◌, length, take, drop, take-append-drop, take-all, drop-all, Bool-cases, inl, inr, some,
  none, Option-cases, Outcome, done, ◌>>=◌, Returns, Returns-map, subst, Returns-bind, ℤ, pos,
  word_mod, long_limit,
}
use mathlib.Core.List.{append_assoc, append-nil}
use windows_iocp_network.Memory.{region}
use windows_iocp_network.CircularBuffer.{
  CircularBuffer, remove_a, remove_b, compact, remove, get_contiguious_bytes, get_buffer_start,
  get_stored_size,
}
use windows_iocp_network.CircularBuffer.Inv.{IsValid, remove-IsValid}
use windows_iocp_network.CircularBuffer.Room.{get_contiguious_bytes-lt}
use windows_iocp_network.CircularBuffer.Refine.{
  contents, contiguious_prefix, remove_refines, get_stored_size_lem,
}
use windows_iocp_network.Session.{Session, success, flush_send, send_completion}
use windows_iocp_network.Session.Context.{IoContext, io_send, dr_none}
use windows_iocp_network.Session.Stream.{Link, IsStream, InFlight, sends}

-- The send that a flush has posted, if any, completes with all its bytes.
abbrev completed : Link → Session → List IoContext → Link
completed l s [] = record l { session = s }
completed l s (c ∷ cs) = record l {
  session = send_completion c.wsa_len (record s { posted = l.session.posted });
  wire = l.wire ++ region c.wsa_buf c.wsa_len s.send_buffer.buffer;
}

-- `FlushSend`, where Winsock takes the send, and the completion.
unfoldable pub round : Link → Outcome Link
unfolding send_completion
round l = do
  (ok, s) ← flush_send success 0 l.session
  done (completed l s (take (length s.posted - length l.session.posted) s.posted))

removes_a :
    (c : CircularBuffer)
    → IsValid c
    → ((remove_a c (get_contiguious_bytes c)).0.a_region_size ≡ 0)
      × ((remove_a c (get_contiguious_bytes c)).1 ≡ 0)
unfolding get_contiguious_bytes remove_a
removes_a c v = ground (arith, v.small, v.b_in)

remove_b-zero : (c : CircularBuffer) → remove_b c 0 ≡ c
unfolding remove_b
remove_b-zero c = refl

closes_b : (c : CircularBuffer) → c.a_region_size ≡ 0 → (compact c).b_region_pointer ≡ none
unfolding compact
closes_b c e = ground arith

one_piece :
    (c : CircularBuffer)
    → IsValid c
    → c.b_region_pointer ≡ none
    → get_contiguious_bytes c ≡ length (contents c)
unfolding get_contiguious_bytes get_stored_size
one_piece c v closed = ground (arith, get_stored_size_lem v)

-- What `Remove` leaves of the bytes that a send covered is in one piece.
rest_contiguious :
    (c : CircularBuffer)
    → IsValid c
    → let c' = remove c (get_contiguious_bytes c) in get_contiguious_bytes c' ≡ length (contents c')
unfolding remove
rest_contiguious c v =
    let k = get_contiguious_bytes c in
    let (no_a, none_over) = removes_a c v in
    let same : remove_b (remove_a c k).0 (remove_a c k).1 ≡ (remove_a c k).0 =
      rw none_over (remove_b-zero (remove_a c k).0) in
    let closed : (remove c k).b_region_pointer ≡ none = rw same (closes_b (remove_a c k).0 no_a) in
    one_piece (remove c k) (remove-IsValid k (get_contiguious_bytes-lt v) v) closed

round-empty :
    (l : Link)
    → l.session.connected ≡ true
    → get_contiguious_bytes l.session.send_buffer ≡ 0
    → round l ≡ done l
unfolding round flush_send
round-empty l on none_left = ground arith

abbrev sending : Session → IoContext
sending s = record {
  id = s.next_context;
  io_type = io_send;
  wsa_len = get_contiguious_bytes s.send_buffer;
  wsa_buf = get_buffer_start s.send_buffer;
  disconnect_reason = dr_none;
}

round-sends :
    (l : Link)
    → l.session.connected ≡ true
    → l.session.send_pending_count ≡ pos 0
    → suc l.session.ref_count < long_limit
    → 0 < get_contiguious_bytes l.session.send_buffer
    → let b = l.session.send_buffer in
      let k = get_contiguious_bytes b in
      round l
      ≡ done (record l {
        session = record l.session {
          send_buffer = remove b k;
          ref_count = suc l.session.ref_count;
          contexts = sending l.session ∷ l.session.contexts;
          next_context = suc l.session.next_context;
        };
        wire = l.wire ++ region (get_buffer_start b) k b.buffer;
      })
unfolding round flush_send send_completion
round-sends l on idle room some_left = ground arith

-- What a round leaves: the bytes at the front have gone out.
record Drained (l l' : Link) : Type 0 where
  pub wire :
      l'.wire
      ≡ l.wire
        ++ take (get_contiguious_bytes l.session.send_buffer) (contents l.session.send_buffer)
  pub left :
      contents l'.session.send_buffer
      ≡ drop (get_contiguious_bytes l.session.send_buffer) (contents l.session.send_buffer)
  pub piece :
      get_contiguious_bytes l'.session.send_buffer ≡ length (contents l'.session.send_buffer)
  pub valid : IsValid l'.session.send_buffer
  pub online : l'.session.connected ≡ true
  pub pending : l'.session.send_pending_count ≡ pos 0
  pub posted : l'.session.posted ≡ l.session.posted
  pub accepted : l'.accepted ≡ l.accepted
  pub counted : l'.session.ref_count ≤ suc l.session.ref_count

round-Drained :
    (l : Link)
    → IsValid l.session.send_buffer
    → l.session.connected ≡ true
    → l.session.send_pending_count ≡ pos 0
    → suc l.session.ref_count < long_limit
    → Returns (Drained l) (round l)
round-Drained l v on idle room =
    let b = l.session.send_buffer in
    let k = get_contiguious_bytes b in
    elim (Bool-cases (ltb 0 k)) [
      | inl some_left ↦ rw (round-sends l on idle room (ground (arith, some_left))) (record {
        wire = ap (λ xs. l.wire ++ xs) (contiguious_prefix v).0;
        left = remove_refines k (get_contiguious_bytes-lt v) v;
        piece = rest_contiguious b v;
        valid = remove-IsValid k (get_contiguious_bytes-lt v) v;
        online = on;
        pending = idle;
        posted = refl;
        accepted = refl;
        counted = omega arith;
      })
      | inr none_left ↦
          let zero_k : k ≡ 0 = ground (arith, none_left) in
          let nothing = (contiguious_prefix v).1 zero_k in
          rw (round-empty l on zero_k) (record {
            wire = rw (nothing, zero_k) (sym (append-nil l.wire));
            left = rw (nothing, zero_k) refl;
            piece = rw (nothing, zero_k) refl;
            valid = v;
            online = on;
            pending = idle;
            posted = refl;
            accepted = refl;
            counted = omega arith;
          })
    ]

Drained-stream :
    (l l' : Link)
    → Drained l l'
    → l'.wire ++ contents l'.session.send_buffer ≡ l.wire ++ contents l.session.send_buffer
Drained-stream l l' d =
    let k = get_contiguious_bytes l.session.send_buffer in
    let whole = contents l.session.send_buffer in
    rw (d.wire, d.left)
      (append_assoc l.wire (take k whole) (drop k whole)
        ∙ ap (λ xs. l.wire ++ xs) (take-append-drop k whole))

-- Two flushes send all that waits: on a connected session whose send side is a stream in the sense
-- of `IsStream`, with no send in flight and room for two more references, `FlushSend` and the
-- completion of the send that it posted, twice, return if Winsock takes the sends and sends them
-- whole; then all bytes that `PostSend` has accepted have gone out, in order, none waits, and no
-- send is in flight.
pub two_rounds_drain :
    (l : Link)
    → IsStream l
    → l.session.connected ≡ true
    → sends l.session.posted ≡ []
    → suc (suc l.session.ref_count) < long_limit
    → Returns
        (λ l'.
          (l'.wire ≡ l.accepted)
          × (contents l'.session.send_buffer ≡ [])
          × (sends l'.session.posted ≡ [])
          × IsStream l')
        (round l >>= round)
two_rounds_drain l v on none_sent room =
    let idle : l.session.send_pending_count ≡ pos 0 =
      subst (λ xs. InFlight xs l.session.send_pending_count l.session.send_buffer) none_sent
        v.flight in
    Returns-bind (Drained l) _ (round l) round
      (λ l₁ d₁.
        Returns-map (Drained l₁) _ (round l₁)
          (λ l₂ d₂.
            let all : get_contiguious_bytes l₁.session.send_buffer
                ≡ length (contents l₁.session.send_buffer) =
              d₁.piece in
            let empty : contents l₂.session.send_buffer ≡ [] =
              d₂.left ∙ drop-all _ (contents l₁.session.send_buffer) (omega (arith, all)) in
            let gone : l₂.wire ≡ l.accepted =
              sym (append-nil l₂.wire)
              ∙ ap (λ xs. l₂.wire ++ xs) (sym empty)
              ∙ Drained-stream l₁ l₂ d₂
              ∙ Drained-stream l l₁ d₁
              ∙ sym v.order in
            let none_now : sends l₂.session.posted ≡ [] = rw (d₂.posted, d₁.posted) none_sent in
            (
              gone,
              empty,
              none_now,
              record {
                valid = d₂.valid;
                order = d₂.accepted ∙ d₁.accepted ∙ sym gone ∙ rw empty (sym (append-nil l₂.wire));
                flight = rw none_now d₂.pending;
              },
            ))
          (round-Drained l₁ d₁.valid d₁.online d₁.pending (omega (arith, d₁.counted, room))))
      (round-Drained l v.valid on idle (omega (arith, room)))
