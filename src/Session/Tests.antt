-- ===== src/Session/Tests.antt =====
-- Session.hpp on concrete sessions.
use windows_iocp_network.Base.{
  ◌≡◌, refl, Bool, true, false, none, [], ◌∷◌, arith, length, Returns, pos, if◌then◌else◌,
}
use windows_iocp_network.CircularBuffer.{CircularBuffer, get_contiguious_bytes}
use windows_iocp_network.CircularBuffer.Inv.{IsValid}
use windows_iocp_network.Session.{Session, success, socket_error, flush_send, post_send}
use windows_iocp_network.Session.Requests.{perform, flushes}
use windows_iocp_network.Session.Refs.{IsBalanced, perform-IsBalanced}
use windows_iocp_network.Session.Stream.{Link, here, next, writes, IsStream, Reach-IsStream}

-- A connected session with one owner's reference, buffers of four bytes, and `abc` stored.
abbrev buffer : CircularBuffer
buffer = record {
  buffer = 97 ∷ 98 ∷ 99 ∷ 0 ∷ [];
  buffer_end = 4;
  a_region_pointer = 0;
  a_region_size = 3;
  b_region_pointer = none;
  b_region_size = 0;
  capacity = 4;
}

abbrev session : Session
session = record {
  recv_buffer = buffer;
  send_buffer = buffer;
  send_pending_count = pos 0;
  ref_count = 1;
  connected = true;
  contexts = [];
  posted = [];
  next_context = 0;
  on_disconnects = [];
  on_releases = 0;
}

abbrev link : Link
link = record { session = session; wire = []; accepted = 97 ∷ 98 ∷ 99 ∷ [] }

buffer-IsValid : IsValid buffer
buffer-IsValid = omega arith

link-IsStream : IsStream link
link-IsStream = record { valid = buffer-IsValid; order = refl; flight = refl }

-- WSA_IO_PENDING is no failure; another error deletes the context and disconnects.
flush_pending :
    Returns
      (λ (r : Bool × Session). (r.0 ≡ true) × (length r.1.posted ≡ 1))
      (flush_send (socket_error 997) 0 session)
unfolding flush_send get_contiguious_bytes
flush_pending = (refl, refl)

flush_refused :
    Returns
      (λ (r : Bool × Session). (r.1.connected ≡ false) × (r.1.ref_count ≡ 1))
      (flush_send (socket_error 10054) 10054 session)
unfolding flush_send get_contiguious_bytes
flush_refused = (refl, refl)

perform-IsBalanced_example : Returns (IsBalanced 1) (perform (flushes success 0) session)
perform-IsBalanced_example =
    perform-IsBalanced 1 (flushes success 0) session (refl, refl) (omega arith)

one_write : Link
one_write = record link {
  session = (post_send (100 ∷ []) session).1;
  accepted =
      if (post_send (100 ∷ []) session).0 then 97 ∷ 98 ∷ 99 ∷ 100 ∷ [] else 97 ∷ 98 ∷ 99 ∷ [];
}

Reach-IsStream_example : IsStream one_write
unfolding one_write
Reach-IsStream_example = Reach-IsStream link-IsStream (next here (writes (100 ∷ [])))
