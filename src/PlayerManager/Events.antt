-- ===== src/PlayerManager/Events.antt =====
-- PlayerWideEvent.hpp: neither event gets past `EnterReadLock`; and what its loop would do.
use windows_iocp_network.Base.{
  ℕ, ◌≡◌, refl, Option, none, some, List, [], ◌∷◌, arith, if◌then◌else◌, ℤ, eqb_ℤ, eqb_ℤ→eq, mem,
}
use windows_iocp_network.IntMap.{find, IsSorted, insert-IsSorted, find-insert}
use windows_iocp_network.SpinLock.Stuck.{enter_read_lock-eq-none}
use windows_iocp_network.Player.{Player, add_buff}
use windows_iocp_network.PlayerManager.{
  World, set_player, get_current_players, do_buff_all_players, check_buff_timeout, buff_all,
}

-- Whatever the lock's flag shows, neither event ever reaches a player.
pub events-eq-none :
    (fuel : ℕ) (seen : ℕ → ℕ) (buff_id duration : ℤ) (w : World)
    → (do_buff_all_players fuel seen buff_id duration w ≡ none)
      × (check_buff_timeout fuel seen w ≡ none)
unfolding do_buff_all_players check_buff_timeout get_current_players
events-eq-none fuel seen buff_id duration w =
    let spins = enter_read_lock-eq-none fuel seen 0 in
    (ground (arith, spins), ground (arith, spins))

-- A duration, where there is none yet.
abbrev pub or_new : Option ℤ → ℤ → Option ℤ
or_new none duration = some duration
or_new (some d) duration = some d

add_buff_lem :
    (buff_id duration : ℤ) (p : Player) (b : ℤ)
    → IsSorted p.buff_list
    → IsSorted (add_buff buff_id duration p).buff_list
      × (find b (add_buff buff_id duration p).buff_list
          ≡ (if eqb_ℤ b buff_id then or_new (find b p.buff_list) duration else find b p.buff_list))
unfolding add_buff
add_buff_lem buff_id duration p b s = (
  insert-IsSorted buff_id duration p.buff_list s,
  ground (arith, find-insert b buff_id duration p.buff_list s, eqb_ℤ→eq b buff_id),
)

-- The loop of `DoBuffAllPlayers` gives every player of the list the buff, if he has none of that
-- key, and touches no other buff.
pub buff_all_lem :
    (is : List ℕ) (buff_id duration : ℤ) (players : ℕ → Player) (i : ℕ) (b : ℤ)
    → ((j : ℕ) → IsSorted (players j).buff_list)
    → find b (buff_all is buff_id duration players i).buff_list ≡ (
        if mem i is
        then (if eqb_ℤ b buff_id
            then or_new (find b (players i).buff_list) duration
            else find b (players i).buff_list)
        else find b (players i).buff_list)
unfolding buff_all
buff_all_lem [] buff_id duration players i b s = refl
buff_all_lem (j ∷ js) buff_id duration players i b s =
    let players' = set_player players j (add_buff buff_id duration (players j)) in
    let sorted : (k : ℕ) → IsSorted (players' k).buff_list =
      λ k. ground (arith, s k, (add_buff_lem buff_id duration (players j) b (s j)).0) in
    ground (
      arith,
      buff_all_lem js buff_id duration players' i b sorted,
      (add_buff_lem buff_id duration (players j) b (s j)).1,
    )
