-- ===== src/Session/Concurrent.antt =====
-- Session.hpp of win-iocp-mssql-usage under `mSendBufferLock`: what `PostSend`, `FlushSend` and
-- `SendCompletion` do between the constructor and the destructor of their guard, access by access,
-- on many threads.
pub mod Alone
pub mod Stream
mod Tests
use windows_iocp_network.Base.{
  ℕ, zero, suc, ◌+◌, ◌≡◌, refl, sym, ap, ◌∙◌, Bool, true, false, not, ◌||◌, Option, none, some,
  List, [], ◌∷◌, ◌++◌, arith, ltb, ◌==◌, if◌then◌else◌, length, ℤ, pos, ◌+ℤ◌, ◌-ℤ◌, Outcome, done,
  crash, null_access, ◌>>=◌, Safely, Safely-map, Safely-bind, Bool-cases, inl, inr,
}
use windows_iocp_network.Memory.{region, write_at}
use windows_iocp_network.CircularBuffer.{
  CircularBuffer, remove, get_free_space_size, get_contiguious_bytes, get_buffer_start, get_buffer,
  commit, put,
}
use windows_iocp_network.Guard.{Body}
use windows_iocp_network.Guard.Atomic.{Runs-Progress, Atomic}
use windows_iocp_network.Session.{
  Session, WsaAnswer, failed, is_one, is_zero, is_positive, post_send, flush_send, send_completion,
}
use windows_iocp_network.Session.Context.{IoContext, io_send, dr_none, is_send}

-- What the lock guards: the send buffer and `mSendPendingCount`. Beside them the sends that the
-- kernel holds, the bytes that it has sent, and those that `PostSend` has accepted.
pub record Sender : Type 0 where
  pub send_buffer : CircularBuffer
  pub send_pending_count : ℤ
  pub posted : List IoContext
  pub wire : List ℕ
  pub accepted : List ℕ

-- `PostSend` with its bytes; `FlushSend` with the name of the context that it allocates and
-- Winsock's answer; and `SendCompletion` for one of the sends that the kernel holds, with the bytes
-- it sent.
pub data Call : Type 0 where
  writes : List ℕ → Call
  flushes : ℕ → WsaAnswer → Call
  completes : ℕ → ℕ → Call

-- What is left to do.
pub data Local : Type 0 where
  gets_room : List ℕ → Local
  copies : List ℕ → Local
  commits : List ℕ → Local
  tests_bytes : ℕ → WsaAnswer → Local
  tests_none : Local
  tests_pending : ℕ → WsaAnswer → Local
  reads_len : ℕ → WsaAnswer → Local
  reads_start : ℕ → WsaAnswer → ℕ → Local
  posts : WsaAnswer → IoContext → Local
  counts : Local
  reads_count : Local
  hands : ℕ → ℕ → Local
  removes : ℕ → Local
  uncounts : Local
  finished : Option Bool → Local

abbrev pub start : Call → Local
start (writes bytes) = gets_room bytes
start (flushes id answer) = tests_bytes id answer
start (completes i n) = hands i n

-- The operation at a place of the list, and the others.
abbrev pub take_out : ℕ → List IoContext → Option (IoContext × List IoContext)
take_out i [] = none
take_out zero (c ∷ cs) = some (c, cs)
take_out (suc i) (c ∷ cs) = elim (take_out i cs) [ none ↦ none | some r ↦ some (r.0, c ∷ r.1) ]

-- A completion has been dequeued before the lock is taken. Its bytes are read here, under the lock:
-- what is there then is what went out. The kernel tells of at most as many bytes as were asked for,
-- of a send that it holds; no other completion comes to `SendCompletion`, and one goes no further.
abbrev pub hand : ℕ → Sender → Option (IoContext × List IoContext) → Outcome Sender
hand n s none = crash null_access
hand n s (some (c, others)) =
    if ltb c.wsa_len n || not (is_send c.io_type)
    then crash null_access
    else done
        (record s { posted = others; wire = s.wire ++ region c.wsa_buf n s.send_buffer.buffer })

abbrev pub send_context : ℕ → ℕ → Option ℕ → IoContext
send_context id len start = record {
  id = id;
  io_type = io_send;
  wsa_len = len;
  wsa_buf = start;
  disconnect_reason = dr_none;
}

unfoldable pub access : Local → Sender → Outcome (Local × Sender)
access (gets_room bytes) s =
    let (free, c) = get_free_space_size s.send_buffer in
    done (
      if ltb free (length bytes) then finished (some false) else copies bytes,
      record s { send_buffer = c },
    )
access (copies bytes) s =
    let c = s.send_buffer in
    done (
      commits bytes,
      record s { send_buffer = record c { buffer = write_at (get_buffer c) bytes c.buffer } },
    )
access (commits bytes) s = done (
  finished (some true),
  record s { send_buffer = commit s.send_buffer (length bytes); accepted = s.accepted ++ bytes },
)
access (tests_bytes id answer) s =
    done
      (if get_contiguious_bytes s.send_buffer == 0 then tests_none else tests_pending id answer, s)
access tests_none s = done (finished (some (is_zero s.send_pending_count)), s)
access (tests_pending id answer) s =
    done
      (if is_positive s.send_pending_count then finished (some false) else reads_len id answer, s)
access (reads_len id answer) s =
    done (reads_start id answer (get_contiguious_bytes s.send_buffer), s)
access (reads_start id answer len) s =
    done (posts answer (send_context id len (get_buffer_start s.send_buffer)), s)
access (posts answer c) s = done (
    if failed answer
    then (finished (some true), s)
    else (counts, record s { posted = c ∷ s.posted }))
access counts s =
    done (reads_count, record s { send_pending_count = s.send_pending_count +ℤ pos 1 })
access reads_count s = done (finished (some (is_one s.send_pending_count)), s)
access (hands i n) s = do t ← hand n s (take_out i s.posted); done (removes n, t)
access (removes n) s = done (uncounts, record s { send_buffer = remove s.send_buffer n })
access uncounts s =
    done (finished none, record s { send_pending_count = s.send_pending_count -ℤ pos 1 })
access (finished r) s = done (finished r, s)

abbrev pub result : Local → Option (Option Bool)
result (finished r) = some r
result _ = none

abbrev pub body : Body Call Local Sender (Option Bool)
body = record { start = start; access = access; result = result }

-- The three as one step each: the methods of Session.hpp, on a session that is connected. The other
-- fields, which the lock does not guard, stand here for what they may be.
abbrev pub session_of : ℕ → Sender → Session
session_of id s = record {
  recv_buffer = s.send_buffer;
  send_buffer = s.send_buffer;
  send_pending_count = s.send_pending_count;
  ref_count = 0;
  connected = true;
  contexts = [];
  posted = s.posted;
  next_context = id;
  on_disconnects = [];
  on_releases = 0;
}

abbrev pub with_session : Sender → Session → Sender
with_session s t = record s {
  send_buffer = t.send_buffer;
  send_pending_count = t.send_pending_count;
  posted = t.posted;
}

unfoldable pub call : Call → Sender → Outcome (Option Bool × Sender)
call (writes bytes) s =
    let (ok, t) = post_send bytes (session_of 0 s) in
    done (
      some ok,
      record (with_session s t) { accepted = if ok then s.accepted ++ bytes else s.accepted },
    )
call (flushes id answer) s = do
  (ok, t) ← flush_send answer 0 (session_of id s)
  done (some ok, with_session s t)
call (completes i n) s = do
  t ← hand n s (take_out i s.posted)
  done (none, with_session t (send_completion n (session_of 0 t)))
