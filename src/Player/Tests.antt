-- ===== src/Player/Tests.antt =====
-- Player.hpp: buffs of one and of three heartbeats.
use windows_iocp_network.Base.{◌*◌, ◌≡◌, refl, true, some, [], ◌∷◌, arith, pos, Returns, done, leb}
use windows_iocp_network.Player.{Player, on_tick}
use windows_iocp_network.Player.Buffs.{ticks, left_after, is_empty, longest, ticks_lem}

abbrev buffed : Player
buffed = record {
  player_id = pos 3;
  heart_beat = pos 1000;
  is_alive = true;
  buff_list = (pos 100, pos 1000) ∷ (pos 300, pos 3000) ∷ [];
}

ticks_lem_example :
    (ticks 3 buffed ≡ done (record buffed { buff_list = left_after (3 * 1000) buffed.buff_list }))
    × (is_empty (left_after (3 * 1000) buffed.buff_list)
        ≡ leb (longest buffed.buff_list) (3 * 1000))
ticks_lem_example =
    ticks_lem 1000 3 buffed refl (omega arith)
      (omega arith, omega arith, (omega arith, omega arith, tt))

-- One tick ends the first buff.
ticks_once : Returns (λ p'. p'.buff_list ≡ (pos 300, pos 2000) ∷ []) (ticks 1 buffed)
unfolding ticks
ticks_once = refl

-- `rand()` gives 200 and 7: an event for key 300 of three seconds, and again after the heartbeat.
on_tick-buffed :
    Returns
      (λ t. (t.event ≡ some (pos 300, pos 3000)) × (t.again ≡ some (pos 1000)))
      (on_tick 200 7 buffed)
unfolding on_tick
on_tick-buffed = (refl, refl)
