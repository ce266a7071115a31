-- ===== src/IocpManager/Phases/Tests.antt =====
-- IocpManager.hpp: the accept of a client completes, and then its first receive, with no bytes.
use windows_iocp_network.Base.{
  ◌≤◌, ◌+◌, ◌≡◌, refl, true, none, some, [], ◌++◌, ◌∷◌, Outcome, done, crash, arith,
}
use windows_iocp_network.ClientSession
use windows_iocp_network.ClientSession.{ClientSession, post_accept, success}
use windows_iocp_network.ClientSession.Context.{IoContext, io_accept, io_recv, dr_none, thread_main}
use windows_iocp_network.IocpManager.{Answers, worker_turn}
use windows_iocp_network.IocpManager.Lifetime.{Port, added}
use windows_iocp_network.IocpManager.Phases.{
  Phase, Stands, AllTurn, turns_left, completes, Reach, here, next, Reach-Stands,
}

abbrev or_new : Outcome ClientSession → ClientSession
or_new (done s) = s
or_new (crash e) = ClientSession.construct 7 []

abbrev answers : Answers
answers = record {
  send = success;
  accept = record {
    accept_context_set = true;
    no_delay_set = true;
    rcvbuf_set = true;
    peer = some 9;
  };
}

abbrev accepting : IoContext
accepting = record {
  id = 0;
  io_type = io_accept;
  wsa_len = 0;
  wsa_buf = none;
  disconnect_reason = dr_none;
}

abbrev receiving : IoContext
receiving = record accepting { id = 1; io_type = io_recv }

abbrev posted : ClientSession
unfolding ClientSession.construct
posted = record (ClientSession.construct 7 []) {
  ref_count = 1;
  contexts = accepting ∷ [];
  next_context = 1;
}

accepts : post_accept thread_main (ClientSession.construct 7 []) ≡ done (true, posted)
unfolding post_accept ClientSession.construct
accepts = refl

abbrev online : ClientSession
unfolding worker_turn
online =
    or_new (
      worker_turn (record { ret = true; transferred = 0; context = some accepting }) answers posted)

goes_online :
    worker_turn (record { ret = true; transferred = 0; context = some accepting }) answers posted
    ≡ done online
unfolding worker_turn ClientSession.construct
goes_online = refl

abbrev broken : ClientSession
unfolding worker_turn
broken =
    or_new (
      worker_turn (record { ret = true; transferred = 0; context = some receiving }) answers online)

breaks :
    worker_turn (record { ret = true; transferred = 0; context = some receiving }) answers online
    ≡ done broken
unfolding worker_turn ClientSession.construct
breaks = refl

-- The context of the disconnect is pending.
abbrev disconnecting : Port
disconnecting = record { client = broken; pending = added online broken ++ ([] ++ []) }

two_turns : Reach (record { client = posted; pending = posted.contexts }) 2 disconnecting
unfolding posted worker_turn
two_turns =
    next (next here (completes [] [] accepting true 0 answers (omega arith) goes_online))
      (completes [] [] receiving true 0 answers (omega arith) breaks)

Reach-Stands_example :
    (phase : Phase) × Stands [] phase disconnecting
    × AllTurn [] phase disconnecting.client disconnecting.pending
    × (2 + turns_left phase ≤ 3)
Reach-Stands_example = Reach-Stands 7 [] accepts two_turns
