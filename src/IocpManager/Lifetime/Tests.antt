-- ===== src/IocpManager/Lifetime/Tests.antt =====
-- IocpManager.hpp: a client is accepted, and what it asks for next completes.
use windows_iocp_network.Base.{
  ◌<◌, ◌≡◌, refl, true, none, some, [], ◌++◌, ◌∷◌, Outcome, done, crash,
}
use windows_iocp_network.ClientSession
use windows_iocp_network.ClientSession.{ClientSession, post_accept, success}
use windows_iocp_network.ClientSession.Context.{IoContext, io_accept, dr_none, thread_main}
use windows_iocp_network.IocpManager.{Answers, worker_turn}
use windows_iocp_network.IocpManager.Lifetime.{
  Port, here, next, completes, added, never_handed_back,
}

abbrev or_new : Outcome ClientSession → ClientSession
or_new (done s) = s
or_new (crash e) = ClientSession.construct 7 []

abbrev answers : Answers
answers = record {
  send = success;
  accept = record {
    accept_context_set = true;
    no_delay_set = true;
    rcvbuf_set = true;
    peer = some 9;
  };
}

abbrev accepting : IoContext
accepting = record {
  id = 0;
  io_type = io_accept;
  wsa_len = 0;
  wsa_buf = none;
  disconnect_reason = dr_none;
}

abbrev posted : ClientSession
unfolding ClientSession.construct
posted = record (ClientSession.construct 7 []) {
  ref_count = 1;
  contexts = accepting ∷ [];
  next_context = 1;
}

accepts : post_accept thread_main (ClientSession.construct 7 []) ≡ done (true, posted)
unfolding post_accept ClientSession.construct
accepts = refl

abbrev online : ClientSession
unfolding worker_turn
online =
    or_new (
      worker_turn (record { ret = true; transferred = 1; context = some accepting }) answers posted)

goes_online :
    worker_turn (record { ret = true; transferred = 1; context = some accepting }) answers posted
    ≡ done online
unfolding worker_turn ClientSession.construct
goes_online = refl

-- The context of the client's first receive is pending.
abbrev receiving : Port
receiving = record { client = online; pending = added posted online ++ ([] ++ []) }

never_handed_back_example : (0 < receiving.client.ref_count) × (receiving.client.handed_back ≡ 0)
unfolding posted
never_handed_back_example =
    never_handed_back 7 [] accepts
      (next here (completes [] [] accepting true 1 answers goes_online))
