-- ===== src/Session/Drain/Tests.antt =====
-- Session.hpp: six bytes wait, the last two of them in region B.
use windows_iocp_network.Base.{◌≡◌, refl, true, some, [], ◌∷◌, arith, Returns, pos, ◌>>=◌}
use windows_iocp_network.CircularBuffer.{CircularBuffer}
use windows_iocp_network.CircularBuffer.Refine.{contents}
use windows_iocp_network.Session.{Session}
use windows_iocp_network.Session.Stream.{Link, IsStream, sends}
use windows_iocp_network.Session.Drain.{round, two_rounds_drain}

abbrev wrapped : CircularBuffer
wrapped = record {
  buffer = 101 ∷ 102 ∷ 0 ∷ 0 ∷ 97 ∷ 98 ∷ 99 ∷ 100 ∷ [];
  buffer_end = 8;
  a_region_pointer = 4;
  a_region_size = 4;
  b_region_pointer = some 0;
  b_region_size = 2;
  capacity = 8;
}

abbrev session : Session
session = record {
  recv_buffer = wrapped;
  send_buffer = wrapped;
  send_pending_count = pos 0;
  ref_count = 1;
  connected = true;
  contexts = [];
  posted = [];
  next_context = 0;
  on_disconnects = [];
  on_releases = 0;
}

-- A byte has gone out before.
abbrev link : Link
link = record {
  session = session;
  wire = 96 ∷ [];
  accepted = 96 ∷ 97 ∷ 98 ∷ 99 ∷ 100 ∷ 101 ∷ 102 ∷ [];
}

link-IsStream : IsStream link
link-IsStream = record { valid = omega arith; order = refl; flight = refl }

two_rounds_drain_example :
    Returns
      (λ l.
        (l.wire ≡ 96 ∷ 97 ∷ 98 ∷ 99 ∷ 100 ∷ 101 ∷ 102 ∷ [])
        × (contents l.session.send_buffer ≡ [])
        × (sends l.session.posted ≡ [])
        × IsStream l)
      (round link >>= round)
two_rounds_drain_example = two_rounds_drain link link-IsStream refl refl (omega arith)
