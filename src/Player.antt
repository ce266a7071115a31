-- ===== src/Player.antt =====
-- win-iocp/win-iocp/Player.hpp: a player, but for what the constructor, `Start` and `PlayerReset`
-- do to the player manager (PlayerManager). A buff is a number of milliseconds under its key.
pub mod Buffs
mod Tests
use windows_iocp_network.Base.{
  ℕ, ◌+◌, ◌-◌, ◌*◌, ◌%◌, Bool, true, false, Option, none, some, List, [], ◌∷◌, ◌==◌, if◌then◌else◌,
  ℤ, pos, negsuc, ◌-ℤ◌, ltb_ℤ, leb_ℤ, to_int, Outcome, done, ◌>>=◌,
}
use windows_iocp_network.IntMap.{IntMap, insert}

pub record Player : Type 0 where
  pub player_id : ℤ
  pub heart_beat : ℤ
  pub is_alive : Bool
  pub buff_list : IntMap ℤ

unfoldable pub add_buff : ℤ → ℤ → Player → Player
add_buff buff_id duration p = record p { buff_list = insert buff_id duration p.buff_list }

-- The loop of `DecayTickBuff`.
unfoldable pub decay_buffs : ℤ → IntMap ℤ → Outcome (IntMap ℤ)
decay_buffs heart_beat [] = done []
decay_buffs heart_beat ((buff, duration) ∷ m) = do
  left ← to_int (duration -ℤ heart_beat)
  rest ← decay_buffs heart_beat m
  done (if leb_ℤ left (pos 0) then rest else (buff, left) ∷ rest)

unfoldable pub decay_tick_buff : Player → Outcome Player
unfolding decay_buffs
decay_tick_buff p = do m ← decay_buffs p.heart_beat p.buff_list; done (record p { buff_list = m })

abbrev pub times_100 : ℤ → ℤ
times_100 (pos n) = pos (n * 100)
times_100 (negsuc n) = negsuc (n * 100 + 99)

-- What `OnTick` asks for: the key and the duration of an `AllPlayerBuffEvent` that it hands to
-- `GCEDispatch`, and the time after which it wants `DoSyncAfter` to call it again. The bodies of
-- those two functions are comments.
pub record Tick : Type 0 where
  pub event : Option (ℤ × ℤ)
  pub again : Option ℤ

-- `chance` and `roll` are what the two calls of `rand()` return.
abbrev pub buff_event : ℕ → ℕ → Player → Outcome (Option (ℤ × ℤ))
buff_event chance roll p =
    if chance % 100 == 0
    then (do
      buff_id ← to_int (times_100 p.player_id)
      done (some (buff_id, pos ((roll % 3 + 2) * 1000))))
    else done none

unfoldable pub on_tick : ℕ → ℕ → Player → Outcome Tick
on_tick chance roll p =
    if p.is_alive
    then (do
      event ← buff_event chance roll p
      done (record {
        event = event;
        again = if ltb_ℤ (pos 0) p.heart_beat then some p.heart_beat else none;
      }))
    else done (record { event = none; again = none })
