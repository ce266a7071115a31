-- ===== src/PlayerManager/Concurrent.antt =====
-- PlayerManager.hpp under its lock: `RegisterPlayer` and `UnregisterPlayer`, access by access, on
-- many threads.
mod Tests
use windows_iocp_network.Base.{
  ℕ, zero, suc, ◌+◌, ◌≤◌, ◌≡◌, refl, sym, ap, ◌∙◌, subst, Bool, true, false, Option, none, some,
  ◌⊎◌, inl, inr, List, [], ◌∷◌, arith, length, total, ℤ, pos, negsuc, to_int, Outcome, done, crash,
  ◌>>=◌, Safely, Safely-bind,
}
use windows_iocp_network.IntMap.{assign, erase}
use windows_iocp_network.SpinLock.Exclusion.{max_writers}
use windows_iocp_network.SpinLock.Exclusive.{spin_lock, spin_lock-IsExclusive}
use windows_iocp_network.Guard.{Body, System, Reach, fresh}
use windows_iocp_network.Guard.Atomic.{Runs-rest, Atomic, IsReplay}
use windows_iocp_network.Guard.Inside.{is_inside}
use windows_iocp_network.Guard.Committed.{quiet-eq}
use windows_iocp_network.Guard.Refine.{Reach-IsAtomic}
use windows_iocp_network.PlayerManager
use windows_iocp_network.PlayerManager.{PlayerManager, next_id, register_player, unregister_player}

pub data Call : Type 0 where
  registers : ℕ → Call
  unregisters : ℤ → Call

-- Before the reading and the writing of `++mCurrentIssueId`, before the assignment to the map,
-- before `return mCurrentIssueId`; before the `erase`; and with the value to return.
pub data Local : Type 0 where
  reads_id : ℕ → Local
  writes_id : ℕ → ℤ → Local
  assigns : ℕ → Local
  returns : Local
  erases : ℤ → Local
  finished : Option ℤ → Local

abbrev pub start : Call → Local
start (registers player) = reads_id player
start (unregisters id) = erases id

unfoldable pub access : Local → PlayerManager → Outcome (Local × PlayerManager)
unfolding unregister_player
access (reads_id player) m = do
  id ← to_int (next_id m.current_issue_id)
  done (writes_id player id, m)
access (writes_id player id) m = done (assigns player, record m { current_issue_id = id })
access (assigns player) m =
    done (returns, record m { player_map = assign m.current_issue_id player m.player_map })
access returns m = done (finished (some m.current_issue_id), m)
access (erases id) m = done (finished none, unregister_player id m)
access (finished r) m = done (finished r, m)

abbrev pub result : Local → Option (Option ℤ)
result (finished r) = some r
result _ = none

abbrev pub body : Body Call Local PlayerManager (Option ℤ)
body = record { start = start; access = access; result = result }

-- The calls as one step each.
abbrev pub with_id : Outcome (ℤ × PlayerManager) → Outcome (Option ℤ × PlayerManager)
with_id r = do (id, m) ← r; done (some id, m)

unfoldable pub call : Call → PlayerManager → Outcome (Option ℤ × PlayerManager)
unfolding register_player unregister_player
call (registers player) m = with_id (register_player player m)
call (unregisters id) m = done (none, unregister_player id m)

-- What a call has still to do, alone, from each of its places.
abbrev assigned : ℕ → PlayerManager → Outcome (Option ℤ × PlayerManager)
assigned player m = done (
  some m.current_issue_id,
  record m { player_map = assign m.current_issue_id player m.player_map },
)

rest : Local → PlayerManager → Outcome (Option ℤ × PlayerManager)
rest (reads_id player) m = call (registers player) m
rest (writes_id player id) m = assigned player (record m { current_issue_id = id })
rest (assigns player) m = assigned player m
rest returns m = done (some m.current_issue_id, m)
rest (erases id) m = call (unregisters id) m
rest (finished r) m = done (r, m)

access-rest :
    (l : Local) (m : PlayerManager)
    → result l ≡ none
    → Safely (λ r. rest r.0 r.1 ≡ rest l m) (access l m)
unfolding rest access call register_player unregister_player
access-rest (reads_id player) m e = ground arith
access-rest (writes_id player id) m e = refl
access-rest (assigns player) m e = refl
access-rest returns m e = refl
access-rest (erases id) m e = refl
access-rest (finished r) m e = cc

start-rest : (c : Call) (m : PlayerManager) → rest (start c) m ≡ call c m
unfolding rest
start-rest (registers player) m = refl
start-rest (unregisters id) m = refl

finished-rest :
    (l : Local) (m : PlayerManager) (r : Option ℤ) → result l ≡ some r → rest l m ≡ done (r, m)
unfolding rest
finished-rest (reads_id player) m r e = cc
finished-rest (writes_id player id) m r e = cc
finished-rest (assigns player) m r e = cc
finished-rest returns m r e = cc
finished-rest (erases id) m r e = cc
finished-rest (finished x) m r e = ground (arith, e)

pub atomic : Atomic body
atomic = record {
  call = call;
  runs-call = Runs-rest body call rest start-rest access-rest finished-rest;
}

-- The ids that were returned, the last first.
abbrev pub ids_of : List (Call × Option ℤ) → List ℤ
ids_of [] = []
ids_of ((c, none) ∷ log) = ids_of log
ids_of ((c, some id) ∷ log) = id ∷ ids_of log

-- The numbers from `n` down to 1.
abbrev pub down_from : ℕ → List ℤ
down_from zero = []
down_from (suc n) = pos (suc n) ∷ down_from n

call-ids :
    (c : Call) (m m' : PlayerManager) (r : Option ℤ) (k : ℕ)
    → call c m ≡ done (r, m')
    → m.current_issue_id ≡ pos k
    → ((r ≡ none) × (m'.current_issue_id ≡ pos k))
      ⊎ ((r ≡ some (pos (suc k))) × (m'.current_issue_id ≡ pos (suc k)))
unfolding call register_player unregister_player
call-ids (registers player) m m' r k e h = ground (arith, e, h)
call-ids (unregisters id) m m' r k e h = ground (arith, e, h)

IsReplay-ids :
    (log : List (Call × Option ℤ)) (m : PlayerManager)
    → IsReplay body atomic PlayerManager.construct log m
    → (m.current_issue_id ≡ pos (length (ids_of log)))
      × (ids_of log ≡ down_from (length (ids_of log)))
unfolding PlayerManager.construct
IsReplay-ids [] m e = (ap (λ (x : PlayerManager). x.current_issue_id) e, refl)
IsReplay-ids ((c, r) ∷ log) m (m₁, run, e) =
    let (count, ids) = IsReplay-ids log m₁ run in
    elim (call-ids c m₁ m r (length (ids_of log)) (unfold atomic in e) count) [
      | inl (none_issued, same) ↦ rw none_issued (same, ids)
      | inr (issued, counted) ↦ rw issued (counted, ap (◌∷◌ (pos (suc (length (ids_of log))))) ids)
    ]

-- With at most 2048 threads that register and unregister players on a new manager, at any moment of
-- any interleaving of their accesses: the ids that have been returned are 1, 2, 3 and so on, each
-- returned once, in the order of the returns.
pub Reach-ids :
    {n : ℕ} {s : System spin_lock body}
    → n ≤ max_writers
    → Reach spin_lock body (fresh spin_lock body n PlayerManager.construct) s
    → ids_of s.log ≡ down_from (length (ids_of s.log))
Reach-ids few r =
    let v = Reach-IsAtomic spin_lock body spin_lock-IsExclusive atomic few r in
    (IsReplay-ids _ v.committed v.replay).1

-- While no call is inside, the manager is what the calls make one after another.
pub Reach-IsReplay :
    {n : ℕ} {s : System spin_lock body}
    → n ≤ max_writers
    → Reach spin_lock body (fresh spin_lock body n PlayerManager.construct) s
    → total (is_inside spin_lock body) s.threads ≡ 0
    → IsReplay body atomic PlayerManager.construct s.log s.shared
Reach-IsReplay {s} few r quiet =
    let v = Reach-IsAtomic spin_lock body spin_lock-IsExclusive atomic few r in
    subst (IsReplay body atomic PlayerManager.construct s.log)
      (sym (quiet-eq spin_lock body spin_lock-IsExclusive v quiet)) v.replay
