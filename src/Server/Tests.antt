-- ===== src/Server/Tests.antt =====
-- The server with two processors on which everything succeeds, and a wait times out in the accept
-- loop.
use windows_iocp_network.Base.{◌≡◌, ◌==◌, true, some, replicate}
use windows_iocp_network.Server.{Answers, main}
use windows_iocp_network.Server.Main.{seen_of, expected_of, main_lem}

abbrev all_succeed : Answers
all_succeed = record {
  system_info = some 2;
  wsa_startup = true;
  completion_port = 40;
  listen_socket = some 44;
  registered_port = 40;
  binds = true;
  begins = λ i. true;
  listens = true;
  block = λ i. (0, replicate 4 0);
  times_out = λ i. i == 1;
}

main_lem_example : seen_of (main 20 1000 all_succeed) ≡ expected_of 20 all_succeed (some 2)
main_lem_example = main_lem 20 1000 all_succeed
