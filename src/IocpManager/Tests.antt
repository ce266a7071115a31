-- ===== src/IocpManager/Tests.antt =====
-- IocpManager.hpp and ClientSession.hpp on concrete sessions.
use windows_iocp_network.Base.{
  ◌≡◌, refl, true, false, none, some, [], ◌∷◌, arith, crash, self_lock, Returns,
}
use windows_iocp_network.CircularBuffer.{CircularBuffer}
use windows_iocp_network.ClientSession.{ClientSession, success, on_connect}
use windows_iocp_network.ClientSession.Context.{io_recv, dr_none, IoContext}
use windows_iocp_network.ClientSession.Connect.{on_connect_lem}
use windows_iocp_network.IocpManager.{Answers, worker_turn}
use windows_iocp_network.IocpManager.Worker.{Turned, worker_turn-Turned}

abbrev eight : CircularBuffer
eight = record {
  buffer = 0 ∷ 0 ∷ 0 ∷ 0 ∷ 0 ∷ 0 ∷ 0 ∷ 0 ∷ [];
  buffer_end = 8;
  a_region_pointer = 0;
  a_region_size = 0;
  b_region_pointer = none;
  b_region_size = 0;
  capacity = 8;
}

abbrev receiving : IoContext
receiving = record {
  id = 0;
  io_type = io_recv;
  wsa_len = 0;
  wsa_buf = none;
  disconnect_reason = dr_none;
}

-- One context is allocated: the one that the accept left.
abbrev online : ClientSession
online = record {
  socket = 7;
  client_addr = 1;
  locked = false;
  buffer = eight;
  ref_count = 1;
  connected = true;
  contexts = receiving ∷ [];
  posted = [];
  next_context = 1;
  disconnects = [];
  handed_back = 0;
}

abbrev answers : Answers
answers = record {
  send = success;
  accept = record {
    accept_context_set = true;
    no_delay_set = true;
    rcvbuf_set = true;
    peer = some 1;
  };
}

worker_turn-Turned_example :
    Returns (Turned online) (
      worker_turn
        (record { ret = false; transferred = 0; context = some receiving })
        answers
        online)
worker_turn-Turned_example =
    worker_turn-Turned receiving false 0 answers online refl refl tt (omega arith)

on_connect_lem_example : on_connect true 0 9 success online ≡ crash self_lock
on_connect_lem_example = on_connect_lem true 0 9 success online refl
