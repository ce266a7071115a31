-- ===== src/Session/Echo.antt =====
-- `EchoBack` of Session.hpp and the send side: what becomes of the bytes in the receive buffer.
-- Nothing in the repository calls `RecvCompletion` yet, so how they came there is left open.
mod Tests
use windows_iocp_network.Base.{
  ℕ, ◌≤◌, ◌<◌, ◌≡◌, refl, sym, ap, subst, ◌∙◌, Bool, true, false, List, [], ◌∷◌, ◌++◌, arith, ltb,
  ◌==◌, if◌then◌else◌, length, take, drop, take-append-drop, done, Bool-cases, inl, inr, word_mod,
}
use mathlib.Core.List.{append_assoc, append-nil}
use windows_iocp_network.Memory.{region, write_at}
use windows_iocp_network.CircularBuffer.{
  CircularBuffer, get_free_space_size, get_contiguious_bytes, get_buffer_start, get_buffer, commit,
  remove, put,
}
use windows_iocp_network.CircularBuffer.Inv.{IsValid, remove-IsValid}
use windows_iocp_network.CircularBuffer.Room.{get_contiguious_bytes-lt}
use windows_iocp_network.CircularBuffer.Refine.{contents, contiguious_prefix, remove_refines}
use windows_iocp_network.Session.{
  Session, WsaAnswer, store, post_send, flush_send, send_completion, recv_completion, echo_back,
}
use windows_iocp_network.Session.Context.{IoContext, is_send}
use windows_iocp_network.Session.Store.{Stored, store-Stored}
use windows_iocp_network.Session.Stream
use windows_iocp_network.Session.Stream.{Link, IsStream, Step-IsStream}

-- The bytes that `EchoBack` asks `PostSend` to send, and those that it accepts.
abbrev pub to_echo : Session → List ℕ
to_echo s =
    region (get_buffer_start s.recv_buffer) (get_contiguious_bytes s.recv_buffer)
      s.recv_buffer.buffer

abbrev pub echoed : Session → List ℕ
echoed s =
    if get_contiguious_bytes s.recv_buffer == 0
    then []
    else (if (post_send (to_echo s) s).0 then to_echo s else [])

-- The kernel sends as in Session/Stream; nothing but `EchoBack` writes.
pub data Step (l : Link) : Link → Type 0 where
  echoes :
      Step l (record l { session = echo_back l.session; accepted = l.accepted ++ echoed l.session })
  flushes :
      (answer : WsaAnswer) (n : ℕ) {ok : Bool} {s : Session}
      → flush_send answer n l.session ≡ done (ok, s)
      → Step l (record l { session = s })
  completes :
      (before : List IoContext) (c : IoContext) (after : List IoContext) (n : ℕ)
      → l.session.posted ≡ before ++ c ∷ after
      → is_send c.io_type ≡ true
      → n ≤ c.wsa_len
      → Step l (record l {
        session = send_completion n (record l.session { posted = before ++ after });
        wire = l.wire ++ region c.wsa_buf n l.session.send_buffer.buffer;
      })

pub data Reach (l : Link) : Link → Type 0 where
  here : Reach l l
  next : {l' l'' : Link} → Reach l l' → Step l' l'' → Reach l l''

-- The send side is a stream, and `all` is what `PostSend` has accepted and then what waits in the
-- receive buffer.
record IsEcho (all : List ℕ) (l : Link) : Type 0 where
  stream : IsStream l
  valid : IsValid l.session.recv_buffer
  order : all ≡ l.accepted ++ contents l.session.recv_buffer

echo_back-empty :
    (s : Session)
    → (get_contiguious_bytes s.recv_buffer == 0) ≡ true
    → (echo_back s ≡ s) × (echoed s ≡ [])
unfolding echo_back
echo_back-empty s h = rw h (refl, refl)

echo_back-refused :
    (s : Session)
    → (get_contiguious_bytes s.recv_buffer == 0) ≡ false
    → (post_send (to_echo s) s).0 ≡ false
    → (echo_back s ≡ (post_send (to_echo s) s).1) × (echoed s ≡ [])
unfolding echo_back
echo_back-refused s h k = rw (h, k) (refl, refl)

echo_back-accepted :
    (s : Session)
    → (get_contiguious_bytes s.recv_buffer == 0) ≡ false
    → (post_send (to_echo s) s).0 ≡ true
    → (echo_back s ≡ (
        let s' = (post_send (to_echo s) s).1 in
        record s' { recv_buffer = remove s'.recv_buffer (get_contiguious_bytes s.recv_buffer) }))
      × (echoed s ≡ to_echo s)
unfolding echo_back
echo_back-accepted s h k = rw (h, k) (refl, refl)

post_send-recv_buffer :
    (bytes : List ℕ) (s : Session) → (post_send bytes s).1.recv_buffer ≡ s.recv_buffer
unfolding post_send
post_send-recv_buffer bytes s = ground arith

-- What `EchoBack` asks to send is the front of what waits.
to_echo_lem :
    (s : Session)
    → IsValid s.recv_buffer
    → contents s.recv_buffer
      ≡ to_echo s ++ contents (remove s.recv_buffer (get_contiguious_bytes s.recv_buffer))
to_echo_lem s v =
    let k = get_contiguious_bytes s.recv_buffer in
    rw ((contiguious_prefix v).0, remove_refines k (get_contiguious_bytes-lt v) v)
      (sym (take-append-drop k (contents s.recv_buffer)))

with_echoed : Link → Session → List ℕ → Link
with_echoed l s bytes = record l { session = s; accepted = l.accepted ++ bytes }

echoes-refused :
    (all : List ℕ) (e : Link)
    → (post_send (to_echo e.session) e.session).0 ≡ false
    → IsEcho all e
    → IsEcho all (with_echoed e (post_send (to_echo e.session) e.session).1 [])
unfolding with_echoed
echoes-refused all e refused v =
    let s = e.session in
    let same = post_send-recv_buffer (to_echo s) s in
    let stream = Step-IsStream (Stream.writes (to_echo s)) v.stream in
    let accepted : (if (post_send (to_echo s) s).0 then e.accepted ++ to_echo s else e.accepted)
        ≡ e.accepted =
      rw refused refl in
    record {
      stream = record {
        valid = stream.valid;
        order = append-nil e.accepted ∙ sym accepted ∙ stream.order;
        flight = stream.flight;
      };
      valid = subst IsValid (sym same) v.valid;
      order =
          v.order
          ∙ ap (λ c. e.accepted ++ contents c) (sym same)
          ∙ ap (λ xs. xs ++ contents (post_send (to_echo s) s).1.recv_buffer)
              (sym (append-nil e.accepted));
    }

echoes-accepted :
    (all : List ℕ) (e : Link)
    → (post_send (to_echo e.session) e.session).0 ≡ true
    → IsEcho all e
    → let s' = (post_send (to_echo e.session) e.session).1 in
      IsEcho all (
        with_echoed e
          (record s' {
            recv_buffer = remove s'.recv_buffer (get_contiguious_bytes e.session.recv_buffer);
          })
          (to_echo e.session))
unfolding with_echoed
echoes-accepted all e taken v =
    let s = e.session in
    let k = get_contiguious_bytes s.recv_buffer in
    let small = get_contiguious_bytes-lt v.valid in
    let same = post_send-recv_buffer (to_echo s) s in
    let stream = Step-IsStream (Stream.writes (to_echo s)) v.stream in
    let accepted : (if (post_send (to_echo s) s).0 then e.accepted ++ to_echo s else e.accepted)
        ≡ e.accepted ++ to_echo s =
      rw taken refl in
    record {
      stream = record {
        valid = stream.valid;
        order = sym accepted ∙ stream.order;
        flight = stream.flight;
      };
      valid = subst (λ c. IsValid (remove c k)) (sym same) (remove-IsValid k small v.valid);
      order =
          v.order
          ∙ ap (λ xs. e.accepted ++ xs) (to_echo_lem s v.valid)
          ∙ sym (append_assoc e.accepted (to_echo s) (contents (remove s.recv_buffer k)))
          ∙ ap (λ c. (e.accepted ++ to_echo s) ++ contents (remove c k)) (sym same);
    }

echoes-IsEcho :
    (all : List ℕ) (e : Link)
    → IsEcho all e
    → IsEcho all (with_echoed e (echo_back e.session) (echoed e.session))
echoes-IsEcho all e v =
    let s = e.session in
    elim (Bool-cases (get_contiguious_bytes s.recv_buffer == 0)) [
      | inl empty ↦
          let (p, q) = echo_back-empty s empty in
          rw (p, q)
            (unfold with_echoed in
              record {
                stream = record {
                  valid = v.stream.valid;
                  order = append-nil e.accepted ∙ v.stream.order;
                  flight = v.stream.flight;
                };
                valid = v.valid;
                order =
                    v.order ∙ ap (λ xs. xs ++ contents s.recv_buffer) (sym (append-nil e.accepted));
              })
      | inr some_left ↦ elim (Bool-cases (post_send (to_echo s) s).0) [
        | inl taken ↦
            let (p, q) = echo_back-accepted s some_left taken in
            rw (p, q) (echoes-accepted all e taken v)
        | inr refused ↦
            let (p, q) = echo_back-refused s some_left refused in
            rw (p, q) (echoes-refused all e refused v)
      ]
    ]

flush_send-recv_buffer :
    (answer : WsaAnswer) (n : ℕ) (s : Session) {ok : Bool} {s' : Session}
    → flush_send answer n s ≡ done (ok, s')
    → s'.recv_buffer ≡ s.recv_buffer
unfolding flush_send
flush_send-recv_buffer answer n s e = ground arith

Step-IsEcho : (all : List ℕ) {l l' : Link} → Step l l' → IsEcho all l → IsEcho all l'
unfolding send_completion
Step-IsEcho all {l} echoes v = unfold with_echoed in echoes-IsEcho all l v
Step-IsEcho all {l} (flushes answer n {ok} {s} h) v =
    let same = flush_send-recv_buffer answer n l.session h in
    record {
      stream = Step-IsStream (Stream.flushes answer n h) v.stream;
      valid = subst IsValid (sym same) v.valid;
      order = v.order ∙ ap (λ c. l.accepted ++ contents c) (sym same);
    }
Step-IsEcho all {l} (completes before c after n p t h) v = record {
  stream = Step-IsStream (Stream.completes before c after n p t h) v.stream;
  valid = v.valid;
  order = v.order;
}

Reach-IsEcho : (all : List ℕ) {l l' : Link} → IsEcho all l → Reach l l' → IsEcho all l'
Reach-IsEcho all v here = v
Reach-IsEcho all v (next r st) = Step-IsEcho all st (Reach-IsEcho all v r)

-- All bytes of a session in their order: those that the kernel has sent, then those that wait to be
-- sent, then those that wait to be echoed.
abbrev pub bytes_of : Link → List ℕ
bytes_of l = l.wire ++ contents l.session.send_buffer ++ contents l.session.recv_buffer

IsEcho-bytes_of : (all : List ℕ) (l : Link) → IsEcho all l → all ≡ bytes_of l
IsEcho-bytes_of all l v = v.order ∙ ap (λ xs. xs ++ contents l.session.recv_buffer) v.stream.order

-- From a session whose send side is a stream in the sense of `IsStream`, and whose receive buffer
-- is well formed and holds any bytes, over any sequence of calls of `EchoBack`, flushes and
-- completions of sends: the bytes that have gone out, that wait in the send buffer and that wait in
-- the receive buffer are the same sequence as before, none lost, doubled or swapped.
pub echo_order :
    {l l' : Link}
    → IsStream l
    → IsValid l.session.recv_buffer
    → Reach l l'
    → IsStream l' × IsValid l'.session.recv_buffer × (bytes_of l' ≡ bytes_of l)
echo_order {l} {l'} v w r =
    let all = l.accepted ++ contents l.session.recv_buffer in
    let u : IsEcho all l = record { stream = v; valid = w; order = refl } in
    let u' = Reach-IsEcho all u r in
    (u'.stream, u'.valid, sym (IsEcho-bytes_of all l' u') ∙ IsEcho-bytes_of all l u)
