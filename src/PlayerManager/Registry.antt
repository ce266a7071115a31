-- ===== src/PlayerManager/Registry.antt =====
-- Which players the manager knows, over any history of constructions, starts and resets.
use windows_iocp_network.Base.{
  ℕ, ◌≡◌, ◌≢◌, refl, sym, subst, true, false, none, some, [], ◌∷◌, arith, ℤ, pos, negsuc, ltb_ℤ,
  leb_ℤ, eqb_ℤ→eq, done, Option-cases, inl, inr,
}
use windows_iocp_network.IntMap.{
  IntMap, find, assign, erase, IsSorted, find-assign, find-erase, assign-IsSorted, erase-IsSorted,
}
use windows_iocp_network.Player.{Player, Tick}
use windows_iocp_network.PlayerManager.{
  World, next_id, set_player, register_player, player_reset, construct_player, start,
}

-- The map and the players agree: a key of the map is the id of its player, who is alive, and was
-- issued; who is alive is in the map under the own id; who is not has the id -1.
pub record IsRegistry (w : World) : Type 0 where
  pub sorted : IsSorted w.manager.player_map
  pub natural : ltb_ℤ w.manager.current_issue_id (pos 0) ≡ false
  pub listed :
      (k : ℤ) (i : ℕ)
      → find k w.manager.player_map ≡ some i
      → ((w.players i).is_alive ≡ true)
        × ((w.players i).player_id ≡ k)
        × (ltb_ℤ (pos 0) k ≡ true)
        × (leb_ℤ k w.manager.current_issue_id ≡ true)
  pub known :
      (i : ℕ)
      → (w.players i).is_alive ≡ true
      → find (w.players i).player_id w.manager.player_map ≡ some i
  pub parked : (i : ℕ) → (w.players i).is_alive ≡ false → (w.players i).player_id ≡ negsuc 0

-- What the program may do to players: construct one where none is alive, if the garbage in its id
-- field is no id of the map; start one that is not alive; reset any; and change the buffs.
pub data Step (w : World) : World → Type 0 where
  constructs :
      (i : ℕ) (garbage : Player)
      → (w.players i).is_alive ≡ false
      → find garbage.player_id w.manager.player_map ≡ none
      → Step w (construct_player i garbage w)
  starts :
      (i : ℕ) (heartbeat : ℤ) (chance roll : ℕ) {tick : Tick} {w' : World}
      → (w.players i).is_alive ≡ false
      → start i heartbeat chance roll w ≡ done (tick, w')
      → Step w w'
  resets : (i : ℕ) → Step w (player_reset i w)
  buffs :
      (i : ℕ) (m : IntMap ℤ)
      → Step w
          (record w { players = set_player w.players i (record (w.players i) { buff_list = m }) })

pub data Reach (w : World) : World → Type 0 where
  here : Reach w w
  next : {u v : World} → Reach w u → Step u v → Reach w v

erase-find-none : (k : ℤ) (m : IntMap ℕ) → find k m ≡ none → erase k m ≡ m
erase-find-none k [] h = refl
erase-find-none k ((j, i) ∷ m) h = ground (arith, erase-find-none k m)

player_reset-IsRegistry : (i : ℕ) (w : World) → IsRegistry w → IsRegistry (player_reset i w)
unfolding player_reset
player_reset-IsRegistry i w v =
    let id = (w.players i).player_id in
    record {
      sorted = erase-IsSorted id w.manager.player_map v.sorted;
      natural = v.natural;
      listed = λ k j e. ground (arith, find-erase k id w.manager.player_map v.sorted, v.listed k j);
      known = λ j e.
          let other = (w.players j).player_id in
          ground (
            arith,
            find-erase other id w.manager.player_map v.sorted,
            v.known j,
            v.known i,
            v.parked i,
            v.listed other j,
            eqb_ℤ→eq other id,
          );
      parked = λ j e. ground (arith, v.parked j);
    }

construct_player-IsRegistry :
    (i : ℕ) (garbage : Player) (w : World)
    → (w.players i).is_alive ≡ false
    → find garbage.player_id w.manager.player_map ≡ none
    → IsRegistry w
    → IsRegistry (construct_player i garbage w)
unfolding construct_player
construct_player-IsRegistry i garbage w dead free v =
    let kept : erase garbage.player_id w.manager.player_map ≡ w.manager.player_map =
      erase-find-none garbage.player_id w.manager.player_map free in
    record {
      sorted = ground (arith, kept, v.sorted);
      natural = v.natural;
      listed = λ k j e. ground (arith, kept, v.listed k j);
      known = λ j e. ground (arith, kept, v.known j);
      parked = λ j e. ground (arith, v.parked j);
    }

-- The next id is new, and above all others.
next_id-free :
    (w : World) (id : ℤ)
    → IsRegistry w
    → ltb_ℤ w.manager.current_issue_id id ≡ true
    → find id w.manager.player_map ≡ none
next_id-free w id v above = elim (Option-cases (find id w.manager.player_map)) [
  | inl e ↦ e
  | inr (i, e) ↦ ground (arith, v.listed id i e)
]

-- What a `Start` that returns has done.
abbrev pub started : ℕ → ℤ → World → World
started i heartbeat w =
    let id = next_id w.manager.current_issue_id in
    record {
      manager = record { current_issue_id = id; player_map = assign id i w.manager.player_map };
      players =
          set_player w.players i
            (record (w.players i) { is_alive = true; heart_beat = heartbeat; player_id = id });
    }

start-eq-started :
    (i : ℕ) (heartbeat : ℤ) (chance roll : ℕ) (tick : Tick) (w w' : World)
    → start i heartbeat chance roll w ≡ done (tick, w')
    → w' ≡ started i heartbeat w
unfolding start register_player
start-eq-started i heartbeat chance roll tick w w' e =
    let id = next_id w.manager.current_issue_id in
    let p = record (w.players i) { is_alive = true; heart_beat = heartbeat; player_id = id } in
    ground (arith, e)

next_id-above : (k : ℤ) → ltb_ℤ k (pos 0) ≡ false → ltb_ℤ k (next_id k) ≡ true
next_id-above (pos n) h = ground arith
next_id-above (negsuc n) h = ground arith

started-IsRegistry :
    (i : ℕ) (heartbeat : ℤ) (w : World)
    → (w.players i).is_alive ≡ false
    → IsRegistry w
    → IsRegistry (started i heartbeat w)
started-IsRegistry i heartbeat w dead v =
    let id : ℤ = next_id w.manager.current_issue_id in
    let above : ltb_ℤ w.manager.current_issue_id id ≡ true =
      next_id-above w.manager.current_issue_id v.natural in
    let free = next_id-free w id v above in
    let m = w.manager.player_map in
    record {
      sorted = assign-IsSorted id i m v.sorted;
      natural = ground (arith, v.natural);
      listed =
          λ k j e. ground (arith, find-assign k id i m, v.listed k j, eqb_ℤ→eq k id, v.natural);
      known = λ j e.
          let other = (w.players j).player_id in
          ground (
            arith,
            find-assign other id i m,
            find-assign id id i m,
            v.known j,
            eqb_ℤ→eq other id,
            free,
          );
      parked = λ j e. ground (arith, v.parked j);
    }

Step-IsRegistry : {w w' : World} → Step w w' → IsRegistry w → IsRegistry w'
Step-IsRegistry {w} (constructs i garbage dead free) v =
    construct_player-IsRegistry i garbage w dead free v
Step-IsRegistry {w} {w'} (starts i heartbeat chance roll {tick} dead e) v =
    subst IsRegistry (sym (start-eq-started i heartbeat chance roll tick w w' e))
      (started-IsRegistry i heartbeat w dead v)
Step-IsRegistry {w} (resets i) v = player_reset-IsRegistry i w v
Step-IsRegistry {w} (buffs i m) v = record {
  sorted = v.sorted;
  natural = v.natural;
  listed = λ k j e. ground (arith, v.listed k j);
  known = λ j e. ground (arith, v.known j);
  parked = λ j e. ground (arith, v.parked j);
}

-- From a state where they agree, however players are constructed, started, reset and buffed, in any
-- order, the manager's map and the players still agree: the keys are the ids of the living players,
-- each with its own player and none above the last id issued; every living player is found under
-- the own id; and all others have the id -1. (A player is constructed or started only where none is
-- alive, the garbage in the id field of a new one is no id of the map, and a start returns, so that
-- no id overflows.)
pub Reach-IsRegistry : {w w' : World} → IsRegistry w → Reach w w' → IsRegistry w'
Reach-IsRegistry v here = v
Reach-IsRegistry v (next r st) = Step-IsRegistry st (Reach-IsRegistry v r)

-- The constructor resets a player before it has an id: if the garbage in the field is the id of a
-- living player, that one is taken out of the map and stays alive.
pub construct_player_unregisters :
    (i j : ℕ) (garbage : Player) (w : World)
    → IsRegistry w
    → i ≢ j
    → (w.players j).is_alive ≡ true
    → garbage.player_id ≡ (w.players j).player_id
    → let w' = construct_player i garbage w in
      ((w'.players j).is_alive ≡ true)
      × (find (w'.players j).player_id w'.manager.player_map ≡ none)
unfolding construct_player
construct_player_unregisters i j garbage w v ne alive same =
    let id = (w.players j).player_id in
    ground (arith, find-erase id garbage.player_id w.manager.player_map v.sorted)
