-- ===== src/PlayerManager/Tests.antt =====
-- PlayerManager.hpp: one player is constructed, started and reset.
use windows_iocp_network.Base.{refl, false, [], pos, negsuc}
use windows_iocp_network.Player.{Player, on_tick}
use windows_iocp_network.PlayerManager.{World, construct_player, register_player, start}
use windows_iocp_network.PlayerManager.Registry.{
  IsRegistry, Reach, here, next, constructs, starts, started, Reach-IsRegistry,
}

abbrev nobody : Player
nobody = record { player_id = negsuc 0; heart_beat = negsuc 0; is_alive = false; buff_list = [] }

abbrev no_players : World
no_players = record {
  manager = record { current_issue_id = pos 0; player_map = [] };
  players = λ i. nobody;
}

no_players-IsRegistry : IsRegistry no_players
no_players-IsRegistry = record {
  sorted = tt;
  natural = refl;
  listed = λ k i e. cc;
  known = λ i e. cc;
  parked = λ i e. refl;
}

abbrev constructed : World
constructed = construct_player 6 (record nobody { player_id = pos 9 }) no_players

Reach-started : Reach no_players (started 6 (pos 500) constructed)
unfolding construct_player start register_player on_tick
Reach-started =
    next (next here (constructs 6 (record nobody { player_id = pos 9 }) refl refl))
      (starts 6 (pos 500) 1 0 refl refl)

Reach-IsRegistry_example : IsRegistry (started 6 (pos 500) constructed)
Reach-IsRegistry_example = Reach-IsRegistry no_players-IsRegistry Reach-started
