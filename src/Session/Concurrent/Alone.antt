-- ===== src/Session/Concurrent/Alone.antt =====
-- The accesses of one call of Session/Concurrent, alone, do what the method does in one step.
use windows_iocp_network.Base.{
  ℕ, ◌≡◌, refl, Bool, true, false, Option, none, some, List, ◌∷◌, ◌++◌, arith, ltb, ◌==◌,
  if◌then◌else◌, length, pos, ◌+ℤ◌, ◌-ℤ◌, Outcome, done, Safely, Safely-bind,
}
use windows_iocp_network.Memory.{write_at}
use windows_iocp_network.CircularBuffer.{
  remove, get_free_space_size, get_contiguious_bytes, get_buffer_start, get_buffer, commit, put,
}
use windows_iocp_network.Guard.Atomic.{Runs, Runs-rest, Atomic}
use windows_iocp_network.Session.{
  WsaAnswer, failed, is_one, is_zero, is_positive, post_send, flush_send, send_completion,
}
use windows_iocp_network.Session.Context.{IoContext}
use windows_iocp_network.Session.Concurrent.{
  Sender, Call, writes, flushes, completes, Local, gets_room, copies, commits, tests_bytes,
  tests_none, tests_pending, reads_len, reads_start, posts, counts, reads_count, hands, removes,
  uncounts, finished, start, take_out, hand, send_context, access, result, body, call,
}

-- What a call has still to do, alone, from each of its places.
abbrev counted : Sender → Outcome (Option Bool × Sender)
counted s =
    let count = s.send_pending_count +ℤ pos 1 in
    done (some (is_one count), record s { send_pending_count = count })

abbrev posted_with : WsaAnswer → IoContext → Sender → Outcome (Option Bool × Sender)
posted_with answer c s =
    if failed answer then done (some true, s) else counted (record s { posted = c ∷ s.posted })

abbrev sent_from : ℕ → WsaAnswer → ℕ → Sender → Outcome (Option Bool × Sender)
sent_from id answer len s =
    posted_with answer (send_context id len (get_buffer_start s.send_buffer)) s

abbrev tested : ℕ → WsaAnswer → Sender → Outcome (Option Bool × Sender)
tested id answer s =
    if is_positive s.send_pending_count
    then done (some false, s)
    else sent_from id answer (get_contiguious_bytes s.send_buffer) s

abbrev committed : List ℕ → Sender → Outcome (Option Bool × Sender)
committed bytes s = done (
  some true,
  record s { send_buffer = commit s.send_buffer (length bytes); accepted = s.accepted ++ bytes },
)

abbrev copied : List ℕ → Sender → Outcome (Option Bool × Sender)
copied bytes s =
    let c = s.send_buffer in
    committed bytes
      (record s { send_buffer = record c { buffer = write_at (get_buffer c) bytes c.buffer } })

abbrev uncounted : Sender → Outcome (Option Bool × Sender)
uncounted s = done (none, record s { send_pending_count = s.send_pending_count -ℤ pos 1 })

rest : Local → Sender → Outcome (Option Bool × Sender)
rest (gets_room bytes) s = call (writes bytes) s
rest (copies bytes) s = copied bytes s
rest (commits bytes) s = committed bytes s
rest (tests_bytes id answer) s = call (flushes id answer) s
rest tests_none s = done (some (is_zero s.send_pending_count), s)
rest (tests_pending id answer) s = tested id answer s
rest (reads_len id answer) s = sent_from id answer (get_contiguious_bytes s.send_buffer) s
rest (reads_start id answer len) s = sent_from id answer len s
rest (posts answer c) s = posted_with answer c s
rest counts s = counted s
rest reads_count s = done (some (is_one s.send_pending_count), s)
rest (hands i n) s = call (completes i n) s
rest (removes n) s = uncounted (record s { send_buffer = remove s.send_buffer n })
rest uncounts s = uncounted s
rest (finished r) s = done (r, s)

start-rest : (c : Call) (s : Sender) → rest (start c) s ≡ call c s
unfolding rest
start-rest (writes bytes) s = refl
start-rest (flushes id answer) s = refl
start-rest (completes i n) s = refl

writes-rest :
    (bytes : List ℕ) (s : Sender)
    → let (free, c) = get_free_space_size s.send_buffer in
      rest
        (if ltb free (length bytes) then finished (some false) else copies bytes)
        (record s { send_buffer = c })
      ≡ call (writes bytes) s
unfolding rest call post_send put
writes-rest bytes s = ground arith

flushes-rest :
    (id : ℕ) (answer : WsaAnswer) (s : Sender)
    → rest
        (if get_contiguious_bytes s.send_buffer == 0 then tests_none else tests_pending id answer)
        s
      ≡ call (flushes id answer) s
unfolding rest call flush_send
flushes-rest id answer s = ground arith

hands-rest :
    (i n : ℕ) (s t : Sender)
    → hand n s (take_out i s.posted) ≡ done t
    → rest (removes n) t ≡ call (completes i n) s
unfolding rest call send_completion
hands-rest i n s t e = rw e refl

access-rest :
    (l : Local) (s : Sender) → result l ≡ none → Safely (λ r. rest r.0 r.1 ≡ rest l s) (access l s)
unfolding rest access call
access-rest (gets_room bytes) s e = writes-rest bytes s
access-rest (copies bytes) s e = refl
access-rest (commits bytes) s e = refl
access-rest (tests_bytes id answer) s e = flushes-rest id answer s
access-rest tests_none s e = refl
access-rest (tests_pending id answer) s e = ground arith
access-rest (reads_len id answer) s e = refl
access-rest (reads_start id answer len) s e = refl
access-rest (posts answer c) s e = ground arith
access-rest counts s e = refl
access-rest reads_count s e = refl
access-rest (hands i n) s e =
    Safely-bind (λ r. rest r.0 r.1 ≡ rest (hands i n) s) (hand n s (take_out i s.posted)) _
      (λ t e'. hands-rest i n s t e')
access-rest (removes n) s e = refl
access-rest uncounts s e = refl
access-rest (finished r) s e = cc

finished-rest :
    (l : Local) (s : Sender) (r : Option Bool) → result l ≡ some r → rest l s ≡ done (r, s)
unfolding rest
finished-rest (finished x) s r e = ground (arith, e)
finished-rest (gets_room bytes) s r e = cc
finished-rest (copies bytes) s r e = cc
finished-rest (commits bytes) s r e = cc
finished-rest (tests_bytes id answer) s r e = cc
finished-rest tests_none s r e = cc
finished-rest (tests_pending id answer) s r e = cc
finished-rest (reads_len id answer) s r e = cc
finished-rest (reads_start id answer len) s r e = cc
finished-rest (posts answer c) s r e = cc
finished-rest counts s r e = cc
finished-rest reads_count s r e = cc
finished-rest (hands i n) s r e = cc
finished-rest (removes n) s r e = cc
finished-rest uncounts s r e = cc

pub Runs-call :
    (c : Call) (s t : Sender) (l : Local) (r : Option Bool)
    → Runs body c s l t
    → result l ≡ some r
    → call c s ≡ done (r, t)
Runs-call = Runs-rest body call rest start-rest access-rest finished-rest

unfoldable pub atomic : Atomic body
atomic = record { call = call; runs-call = Runs-call }
