-- ===== src/PlayerManager.antt =====
-- win-iocp/win-iocp/PlayerManager.hpp and PlayerWideEvent.hpp, and what the constructor, `Start`
-- and `PlayerReset` of Player.hpp do to the manager. A number names a player in place of its
-- address. What runs under `mLock` in exclusive mode is one step.
pub mod Registry
pub mod Events
pub mod Concurrent
mod Tests
use windows_iocp_network.Base.{
  ℕ, suc, ◌+◌, Bool, true, false, Option, none, some, List, [], ◌∷◌, ltb, ◌==◌, if◌then◌else◌,
  length, ℤ, pos, negsuc, ◌-ℤ◌, to_int, Outcome, done, ◌>>=◌,
}
use windows_iocp_network.IntMap.{IntMap, assign, erase}
use windows_iocp_network.SpinLock.Stuck.{enter_read_lock}
use windows_iocp_network.Player.{Player, Tick, on_tick, add_buff, decay_tick_buff}

pub record PlayerManager : Type 0 where
  pub current_issue_id : ℤ
  pub player_map : IntMap ℕ

unfoldable pub construct : PlayerManager
construct = record { current_issue_id = pos 0; player_map = [] }

abbrev pub next_id : ℤ → ℤ
next_id (pos n) = pos (suc n)
next_id (negsuc n) = pos 0 -ℤ pos n

unfoldable pub register_player : ℕ → PlayerManager → Outcome (ℤ × PlayerManager)
register_player player m = do
  id ← to_int (next_id m.current_issue_id)
  done (id, record { current_issue_id = id; player_map = assign id player m.player_map })

unfoldable pub unregister_player : ℤ → PlayerManager → PlayerManager
unregister_player id m = record m { player_map = erase id m.player_map }

-- The loop of `GetCurrentPlayers`: the values of the map, in its order.
abbrev pub players_of : IntMap ℕ → List ℕ
players_of [] = []
players_of ((id, player) ∷ m) = player ∷ players_of m

-- `mLock.EnterReadLock()` for a number of accesses of the flag, which finds the values `seen`; then
-- the loop. `none`: it has not returned yet. There is no `LeaveReadLock`.
unfoldable pub get_current_players : ℕ → (ℕ → ℕ) → PlayerManager → Option (ℕ × List ℕ)
get_current_players fuel seen m = elim (enter_read_lock fuel seen 0) [
  | none ↦ none
  | some accesses ↦ some (length (players_of m.player_map), players_of m.player_map)
]

-- The manager, and the players in memory.
pub record World : Type 0 where
  pub manager : PlayerManager
  pub players : ℕ → Player

abbrev pub set_player : (ℕ → Player) → ℕ → Player → ℕ → Player
set_player players i p j = if j == i then p else players j

unfoldable pub player_reset : ℕ → World → World
unfolding unregister_player
player_reset i w = record {
  manager = unregister_player (w.players i).player_id w.manager;
  players =
      set_player w.players i
        (record (w.players i) { player_id = negsuc 0; heart_beat = negsuc 0; is_alive = false });
}

-- The constructor: the fields hold what was in the memory, `garbage`, but for the empty buff list;
-- then `PlayerReset()`.
unfoldable pub construct_player : ℕ → Player → World → World
unfolding player_reset
construct_player i garbage w =
    player_reset i
      (record w { players = set_player w.players i (record garbage { buff_list = [] }) })

unfoldable pub start : ℕ → ℤ → ℕ → ℕ → World → Outcome (Tick × World)
unfolding register_player on_tick
start i heartbeat chance roll w = do
  (id, m) ← register_player i w.manager
  let p = record (w.players i) { is_alive = true; heart_beat = heartbeat; player_id = id }
  tick ← on_tick chance roll p
  done (tick, record { manager = m; players = set_player w.players i p })

-- The loops of PlayerWideEvent.hpp, over the list that `GetCurrentPlayers` filled.
unfoldable pub buff_all : List ℕ → ℤ → ℤ → (ℕ → Player) → ℕ → Player
unfolding add_buff
buff_all [] buff_id duration players = players
buff_all (i ∷ is) buff_id duration players =
    buff_all is buff_id duration (set_player players i (add_buff buff_id duration (players i)))

unfoldable pub decay_all : List ℕ → (ℕ → Player) → Outcome (ℕ → Player)
unfolding decay_tick_buff
decay_all [] players = done players
decay_all (i ∷ is) players = do
  p ← decay_tick_buff (players i)
  decay_all is (set_player players i p)

unfoldable pub do_buff_all_players : ℕ → (ℕ → ℕ) → ℤ → ℤ → World → Option World
unfolding get_current_players buff_all
do_buff_all_players fuel seen buff_id duration w = elim (get_current_players fuel seen w.manager) [
  | none ↦ none
  | some (total, list) ↦
      some
        (if ltb 0 total then record w { players = buff_all list buff_id duration w.players } else w)
]

abbrev pub after_decay : World → Outcome (ℕ → Player) → Outcome World
after_decay w m = do players ← m; done (record w { players = players })

unfoldable pub check_buff_timeout : ℕ → (ℕ → ℕ) → World → Option (Outcome World)
unfolding get_current_players decay_all
check_buff_timeout fuel seen w = elim (get_current_players fuel seen w.manager) [
  | none ↦ none
  | some (total, list) ↦
      some (if ltb 0 total then after_decay w (decay_all list w.players) else done w)
]
