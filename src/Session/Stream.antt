-- ===== src/Session/Stream.antt =====
-- The send side of Session.hpp over a whole history: writers, flushes and completions in any
-- order, against the stream of bytes that the peer receives.
use windows_iocp_network.Base.{
  ℕ, ◌≤◌, ◌<◌, ◌≡◌, refl, sym, ap, ◌∙◌, Bool, true, false, List, [], ◌∷◌, ◌++◌, arith,
  if◌then◌else◌, take, drop, done, ℤ, pos, word_mod, take-append-drop, Bool-cases, inl, inr,
}
use mathlib.Core.List.{append_assoc}
use windows_iocp_network.Memory.{region}
use windows_iocp_network.CircularBuffer.{CircularBuffer, get_contiguious_bytes, get_buffer_start}
use windows_iocp_network.CircularBuffer.Inv.{IsValid, remove-IsValid}
use windows_iocp_network.CircularBuffer.Room.{get_contiguious_bytes-lt}
use windows_iocp_network.CircularBuffer.Refine.{contents, contiguious_part, remove_refines}
use windows_iocp_network.Session.{
  Session, WsaAnswer, is_positive, store, post_send, flush_send, send_completion,
}
use windows_iocp_network.Session.Context.{IoContext, is_send}
use windows_iocp_network.Session.Store.{Stored, store-Stored}

-- A session; the bytes that the kernel has sent; and the bytes that `PostSend` has accepted.
pub record Link : Type 0 where
  pub session : Session
  pub wire : List ℕ
  pub accepted : List ℕ

-- The send operations that the kernel holds.
abbrev pub sends : List IoContext → List IoContext
sends [] = []
sends (c ∷ cs) = if is_send c.io_type then c ∷ sends cs else sends cs

-- A completion tells of `n` bytes sent, at most as many as were asked for. The kernel reads them at
-- the address that it was given, at any time up to then: what is there is what goes out.
pub data Step (l : Link) : Link → Type 0 where
  writes :
      (bytes : List ℕ)
      → Step l (record l {
        session = (post_send bytes l.session).1;
        accepted = if (post_send bytes l.session).0 then l.accepted ++ bytes else l.accepted;
      })
  flushes :
      (answer : WsaAnswer) (e : ℕ) {ok : Bool} {s : Session}
      → flush_send answer e l.session ≡ done (ok, s)
      → Step l (record l { session = s })
  completes :
      (before : List IoContext) (c : IoContext) (after : List IoContext) (n : ℕ)
      → l.session.posted ≡ before ++ c ∷ after
      → is_send c.io_type ≡ true
      → n ≤ c.wsa_len
      → Step l (record l {
        session = send_completion n (record l.session { posted = before ++ after });
        wire = l.wire ++ region c.wsa_buf n l.session.send_buffer.buffer;
      })

pub data Reach (l : Link) : Link → Type 0 where
  here : Reach l l
  next : {l' l'' : Link} → Reach l l' → Step l' l'' → Reach l l''

-- At most one send is in flight, and `mSendPendingCount` counts it. It covers bytes that are at the
-- front of the send buffer.
abbrev pub InFlight : List IoContext → ℤ → CircularBuffer → Type 0
InFlight [] count c = count ≡ pos 0
InFlight (x ∷ []) count c =
    (count ≡ pos 1)
    × (0 < x.wsa_len)
    × (x.wsa_buf ≡ get_buffer_start c)
    × (x.wsa_len ≤ get_contiguious_bytes c)
InFlight (x ∷ y ∷ xs) count c = ⊥

pub record IsStream (l : Link) : Type 0 where
  pub valid : IsValid l.session.send_buffer
  pub order : l.accepted ≡ l.wire ++ contents l.session.send_buffer
  pub flight : InFlight (sends l.session.posted) l.session.send_pending_count l.session.send_buffer

InFlight-Stored :
    (xs : List IoContext) (count : ℤ) {c c' : CircularBuffer} {bytes : List ℕ} {ok : Bool}
    → Stored c bytes ok c'
    → InFlight xs count c
    → InFlight xs count c'
InFlight-Stored [] count st f = f
InFlight-Stored (x ∷ []) count st f = ground (arith, st.start)
InFlight-Stored (x ∷ y ∷ xs) count st f = f

writes-IsStream :
    (l : Link) (bytes : List ℕ)
    → IsStream l
    → IsStream (record l {
      session = (post_send bytes l.session).1;
      accepted = if (post_send bytes l.session).0 then l.accepted ++ bytes else l.accepted;
    })
unfolding post_send
writes-IsStream l bytes v = elim (Bool-cases l.session.connected) [
  | inl on ↦
      let st = store-Stored bytes v.valid in
      rw on (record {
        valid = st.valid;
        order = ordered (store l.session.send_buffer bytes).0 st.queue;
        flight = InFlight-Stored (sends l.session.posted) l.session.send_pending_count st v.flight;
      })
  | inr off ↦ rw off (record { valid = v.valid; order = v.order; flight = v.flight })
]
  where
    ordered :
        (ok : Bool) {q : List ℕ}
        → q
          ≡ (if ok then contents l.session.send_buffer ++ bytes else contents l.session.send_buffer)
        → (if ok then l.accepted ++ bytes else l.accepted) ≡ l.wire ++ q
    ordered true e = rw (e, v.order) (append_assoc l.wire (contents l.session.send_buffer) bytes)
    ordered false e = rw e v.order

InFlight-none :
    (xs : List IoContext) (count : ℤ) (c : CircularBuffer)
    → InFlight xs count c
    → is_positive count ≡ false
    → (xs ≡ []) × (count ≡ pos 0)
InFlight-none [] count c f h = (refl, f)
InFlight-none (x ∷ []) count c f h = ground arith
InFlight-none (x ∷ y ∷ xs) count c f h = absurd f

sends-middle :
    (before : List IoContext) (c : IoContext) (after : List IoContext)
    → is_send c.io_type ≡ true
    → sends (before ++ c ∷ after) ≡ sends before ++ c ∷ sends after
sends-middle [] c after t = rw t
sends-middle (x ∷ before) c after t = ground (arith, sends-middle before c after t)

sends-append : (xs ys : List IoContext) → sends (xs ++ ys) ≡ sends xs ++ sends ys
sends-append [] ys = refl
sends-append (x ∷ xs) ys = ground (arith, sends-append xs ys)

InFlight-single :
    (xs : List IoContext) (x : IoContext) (ys : List IoContext) (count : ℤ) (c : CircularBuffer)
    → InFlight (xs ++ x ∷ ys) count c
    → InFlight (x ∷ []) count c × (xs ++ ys ≡ [])
InFlight-single [] x [] count b f = (f, refl)
InFlight-single [] x (y ∷ ys) count b f = absurd f
InFlight-single (z ∷ []) x ys count b f = absurd f
InFlight-single (z ∷ w ∷ xs) x ys count b f = absurd f

flushes-IsStream :
    (l : Link) (answer : WsaAnswer) (e : ℕ) {ok : Bool} {s : Session}
    → flush_send answer e l.session ≡ done (ok, s)
    → IsStream l
    → IsStream (record l { session = s })
unfolding flush_send
flushes-IsStream l answer e h v = ground (
  arith,
  InFlight-none (sends l.session.posted) l.session.send_pending_count l.session.send_buffer
      v.flight,
)

completes-IsStream :
    (l : Link) (before : List IoContext) (c : IoContext) (after : List IoContext) (n : ℕ)
    → l.session.posted ≡ before ++ c ∷ after
    → is_send c.io_type ≡ true
    → n ≤ c.wsa_len
    → IsStream l
    → IsStream (record l {
      session = send_completion n (record l.session { posted = before ++ after });
      wire = l.wire ++ region c.wsa_buf n l.session.send_buffer.buffer;
    })
unfolding send_completion
completes-IsStream l before c after n e t h v =
    let b = l.session.send_buffer in
    let count = l.session.send_pending_count in
    let whole : InFlight (sends before ++ c ∷ sends after) count b =
      rw (← sends-middle before c after t, ← e) v.flight in
    let (f, none_left) = InFlight-single (sends before) c (sends after) count b whole in
    let short : n ≤ get_contiguious_bytes b = omega arith in
    let small : n < word_mod = omega (arith, get_contiguious_bytes-lt v.valid) in
    record {
      valid = remove-IsValid n small v.valid;
      order =
          v.order
          ∙ ap (◌++◌ l.wire) (sym (take-append-drop n (contents b)))
          ∙ sym (append_assoc l.wire (take n (contents b)) (drop n (contents b)))
          ∙ rw (f.2, contiguious_part n v.valid short, remove_refines n small v.valid) refl;
      flight = rw (sends-append before after, none_left) (ground arith);
    }

pub Step-IsStream : {l l' : Link} → Step l l' → IsStream l → IsStream l'
Step-IsStream {l} (writes bytes) v = writes-IsStream l bytes v
Step-IsStream {l} (flushes answer e h) v = flushes-IsStream l answer e h v
Step-IsStream {l} (completes before c after n e t h) v =
    completes-IsStream l before c after n e t h v

-- From a session whose send buffer is well formed, whose accepted bytes are those that went out and
-- then those that wait, and that has at most one send in flight, every sequence of writers, flushes
-- and completions keeps this: the bytes accepted are those that went out, in that order, and then
-- those that wait in the buffer; and at most one send is in flight.
pub Reach-IsStream : {l l' : Link} → IsStream l → Reach l l' → IsStream l'
Reach-IsStream v here = v
Reach-IsStream v (next r st) = Step-IsStream st (Reach-IsStream v r)
