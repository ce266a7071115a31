-- ===== src/Session/Concurrent/Tests.antt =====
-- Two threads in the methods of a connected session that has three bytes to send: the first sends a
-- fourth byte, flushes, and completes the send, while the second asks for the lock.
use windows_iocp_network.Base.{
  ℕ, ◌≡◌, refl, true, none, Option, some, Bool, List, [], ◌∷◌, ◌++◌, arith, pos, done,
}
use windows_iocp_network.Memory.{write_at, region}
use windows_iocp_network.CircularBuffer.{
  CircularBuffer, get_free_space_size, get_contiguious_bytes, get_buffer_start, remove, get_buffer,
  commit,
}
use windows_iocp_network.CircularBuffer.Refine.{contents}
use windows_iocp_network.SpinLock.{
  write_spin, enter_write, spin_free, add_alone, drain_done, leave_write, write_flag,
}
use windows_iocp_network.SpinLock.Exclusive.{spin_lock}
use windows_iocp_network.Guard.{
  Place, outside, entering, inside, constructs, waits, enters, accesses, destructs, System, step,
  Reach, here, next, fresh,
}
use windows_iocp_network.Session.{success}
use windows_iocp_network.Session.Stream.{IsStream}
use windows_iocp_network.Session.Concurrent.{
  Sender, Call, writes, flushes, completes, Local, start, send_context, access, result, body,
}
use windows_iocp_network.Session.Concurrent.Stream.{link_of, accepted_of, interleaved-IsStream}

abbrev buffer : CircularBuffer
buffer = record {
  buffer = 97 ∷ 98 ∷ 99 ∷ 0 ∷ 0 ∷ 0 ∷ 0 ∷ 0 ∷ [];
  buffer_end = 8;
  a_region_pointer = 0;
  a_region_size = 3;
  b_region_pointer = none;
  b_region_size = 0;
  capacity = 8;
}

abbrev sender : Sender
sender = record {
  send_buffer = buffer;
  send_pending_count = pos 0;
  posted = [];
  wire = [];
  accepted = 97 ∷ 98 ∷ 99 ∷ [];
}

-- A state that is reached, where the first thread is at `p` and the second asks for the lock.
abbrev Reached : ℕ → Sender → Place spin_lock body → List (Call × Option Bool) → Type 0
Reached flag s p log = Reach spin_lock body (fresh spin_lock body 2 sender) (record {
  flag = flag;
  shared = s;
  threads = p ∷ entering (flushes 9 success) write_spin ∷ [];
  log = log;
})

locks :
    {s : Sender} {log : List (Call × Option Bool)} (c : Call)
    → Reached 0 s outside log
    → Reached write_flag s (inside c (start c)) log
locks c r =
    let others = entering (flushes 9 success) write_spin ∷ [] in
    next
      (next
        (next (next r (step [] others (constructs c enter_write)))
          (step [] others (waits c (spin_free refl) refl)))
        (step [] others (waits c (add_alone refl) refl)))
      (step [] others (enters c (drain_done refl)))

moves :
    {s s' : Sender} {log : List (Call × Option Bool)} {c : Call} {l l' : Local}
    → result l ≡ none
    → access l s ≡ done (l', s')
    → Reached write_flag s (inside c l) log
    → Reached write_flag s' (inside c l') log
moves {c} e f r = next r (step [] (entering (flushes 9 success) write_spin ∷ []) (accesses c e f))

unlocks :
    {s : Sender} {log : List (Call × Option Bool)} {c : Call} {l : Local} {r : Option Bool}
    → result l ≡ some r
    → Reached write_flag s (inside c l) log
    → Reached 0 s outside ((c, r) ∷ log)
unlocks {c} e r =
    next r (step [] (entering (flushes 9 success) write_spin ∷ []) (destructs c e leave_write))

begins : Reached 0 sender outside []
begins = next here (step (outside ∷ []) [] (constructs (flushes 9 success) enter_write))

abbrev wrote : Sender
wrote = record sender {
  send_buffer = record buffer { buffer = write_at 3 (100 ∷ []) buffer.buffer; a_region_size = 4 };
  accepted = 97 ∷ 98 ∷ 99 ∷ 100 ∷ [];
}

writes_one : Reached 0 wrote outside ((writes (100 ∷ []), some true) ∷ [])
unfolding access get_free_space_size get_buffer commit
writes_one =
    unlocks refl
      (moves refl refl (moves refl refl (moves refl refl (locks (writes (100 ∷ [])) begins))))

abbrev flushed : Sender
flushed = record wrote { send_pending_count = pos 1; posted = send_context 5 4 (some 0) ∷ [] }

flushes_all :
    Reached 0 flushed outside ((flushes 5 success, some true) ∷ (writes (100 ∷ []), some true) ∷ [])
unfolding access get_contiguious_bytes get_buffer_start
flushes_all = unlocks refl (
    moves refl refl (
      moves refl refl (
        moves refl refl (
          moves refl refl (
            moves refl refl
              (moves refl refl (moves refl refl (locks (flushes 5 success) writes_one))))))))

-- All four bytes go out.
abbrev completed : Sender
completed = record flushed {
  send_buffer = remove flushed.send_buffer 4;
  send_pending_count = pos 0;
  posted = [];
  wire = region (some 0) 4 flushed.send_buffer.buffer;
}

abbrev all_done : System spin_lock body
all_done = record {
  flag = 0;
  shared = completed;
  threads = outside ∷ entering (flushes 9 success) write_spin ∷ [];
  log =
      (completes 0 4, none) ∷ (flushes 5 success, some true) ∷ (writes (100 ∷ []), some true) ∷ [];
}

completes_all : Reach spin_lock body (fresh spin_lock body 2 sender) all_done
unfolding access
completes_all =
    unlocks refl
      (moves refl refl (moves refl refl (moves refl refl (locks (completes 0 4) flushes_all))))

sender-IsStream : IsStream (link_of sender)
sender-IsStream = record { valid = omega arith; order = refl; flight = refl }

interleaved-IsStream_example :
    (completed.wire ++ contents completed.send_buffer
      ≡ (97 ∷ 98 ∷ 99 ∷ []) ++ accepted_of all_done.log)
    × IsStream (link_of completed)
interleaved-IsStream_example =
    interleaved-IsStream {n = 2} (omega arith) sender-IsStream completes_all refl
