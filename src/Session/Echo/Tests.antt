-- ===== src/Session/Echo/Tests.antt =====
-- Session.hpp: three bytes that wait in the receive buffer are echoed.
use windows_iocp_network.Base.{◌≡◌, refl, true, none, [], ◌∷◌, ◌++◌, arith, pos}
use windows_iocp_network.CircularBuffer.{CircularBuffer}
use windows_iocp_network.Session.{Session, echo_back}
use windows_iocp_network.Session.Stream.{Link, IsStream}
use windows_iocp_network.CircularBuffer.Inv.{IsValid}
use windows_iocp_network.Session.Echo.{echoed, echoes, here, next, bytes_of, echo_order}

abbrev empty : CircularBuffer
empty = record {
  buffer = 0 ∷ 0 ∷ 0 ∷ 0 ∷ [];
  buffer_end = 4;
  a_region_pointer = 0;
  a_region_size = 0;
  b_region_pointer = none;
  b_region_size = 0;
  capacity = 4;
}

abbrev three : CircularBuffer
three = record empty { buffer = 97 ∷ 98 ∷ 99 ∷ 0 ∷ []; a_region_size = 3 }

abbrev session : Session
session = record {
  recv_buffer = three;
  send_buffer = empty;
  send_pending_count = pos 0;
  ref_count = 1;
  connected = true;
  contexts = [];
  posted = [];
  next_context = 0;
  on_disconnects = [];
  on_releases = 0;
}

abbrev start : Link
start = record { session = session; wire = []; accepted = [] }

start-IsStream : IsStream start
start-IsStream = record { valid = omega arith; order = refl; flight = refl }

abbrev end : Link
end = record { session = echo_back session; wire = []; accepted = [] ++ echoed session }

echo_order_example :
    IsStream end × IsValid end.session.recv_buffer × (bytes_of end ≡ bytes_of start)
echo_order_example = echo_order start-IsStream (omega arith) (next here echoes)
