-- ===== src/SessionManager/Concurrent/Returned.antt =====
-- The sessions that threads return, over any interleaving.
use windows_iocp_network.Base.{
  ℕ, ◌+◌, ◌%◌, ◌<◌, ◌≡◌, sym, ap, ◌∙◌, Bool, true, Option, List, [], ◌∷◌, ◌++◌, arith, length,
  length-append, total, done,
}
use mathlib.Core.List.{append_assoc, append-nil}
use windows_iocp_network.ClientSession.{ClientSession, session_reset}
use windows_iocp_network.Mutex.{mutex, mutex-IsExclusive}
use windows_iocp_network.Guard.{System, Reach, fresh}
use windows_iocp_network.Guard.Atomic.{IsReplay}
use windows_iocp_network.Guard.Inside.{is_inside}
use windows_iocp_network.Guard.Committed.{quiet-eq}
use windows_iocp_network.Guard.Refine.{Reach-IsAtomic}
use windows_iocp_network.SessionManager.{uint64_mod, return_client_session, accept_loop}
use windows_iocp_network.SessionManager.Concurrent.{
  Sessions, Call, returns, accepts, is_unused, body, call,
}
use windows_iocp_network.SessionManager.Concurrent.Alone.{atomic}

-- The sessions that have been returned, in order, from a log with its last call first.
abbrev pub returned_of : List (Call × Option Bool) → List ClientSession
returned_of [] = []
returned_of ((returns socket client, r) ∷ log) = returned_of log ++ session_reset socket client ∷ []
returned_of ((accepts, r) ∷ log) = returned_of log

-- Every session that was returned was disconnected and had no references.
abbrev pub AllUnused : List (Call × Option Bool) → Type 0
AllUnused [] = Unit {0}
AllUnused ((returns socket client, r) ∷ log) = (is_unused client ≡ true) × AllUnused log
AllUnused ((accepts, r) ∷ log) = AllUnused log

returns-eq :
    (socket : ℕ) (client : ClientSession) (s t : Sessions) (r : Option Bool)
    → call (returns socket client) s ≡ done (r, t)
    → (is_unused client ≡ true)
      × (t ≡ record s {
        free_client_list = s.free_client_list ++ session_reset socket client ∷ [];
        current_return_count = (s.current_return_count + 1) % uint64_mod;
      })
unfolding call return_client_session
returns-eq socket client s t r e = ground (arith, e)

accepts-eq : (s t : Sessions) (r : Option Bool) → call accepts s ≡ done (r, t) → t ≡ s
unfolding call accept_loop
accepts-eq s t r e = ground (arith, e)

-- What the calls of a log have made of the sessions.
Gathered : Sessions → List (Call × Option Bool) → Sessions → Type 0
Gathered d₀ log d =
    (d.free_client_list ≡ d₀.free_client_list ++ returned_of log)
    × (d.current_return_count ≡ (d₀.current_return_count + length (returned_of log)) % uint64_mod)
    × AllUnused log

IsReplay-Gathered :
    (d₀ : Sessions) (log : List (Call × Option Bool)) (d : Sessions)
    → d₀.current_return_count < uint64_mod
    → IsReplay body atomic d₀ log d
    → Gathered d₀ log d
unfolding Gathered
IsReplay-Gathered d₀ [] d small e =
    rw e (sym (append-nil d₀.free_client_list), omega (arith, small), tt)
IsReplay-Gathered d₀ ((returns socket client, r) ∷ log) d small (d₁, run, e) =
    let (free, count, unused) = IsReplay-Gathered d₀ log d₁ small run in
    let (ok, same) = returns-eq socket client d₁ d r (unfold atomic in e) in
    rw same (
      ap (λ xs. xs ++ session_reset socket client ∷ []) free
          ∙ append_assoc d₀.free_client_list (returned_of log) (session_reset socket client ∷ []),
      omega (arith, count, length-append (returned_of log) (session_reset socket client ∷ [])),
      (ok, unused),
    )
IsReplay-Gathered d₀ ((accepts, r) ∷ log) d small (d₁, run, e) =
    rw (accepts-eq d₁ d r (unfold atomic in e)) (IsReplay-Gathered d₀ log d₁ small run)

-- On any number of threads that return sessions and accept them, at any moment of any interleaving
-- in which nobody is between a guard's constructor and destructor: the list of free sessions is
-- that of the start and then the sessions that were returned, reset, in the order of the returns,
-- each of which was disconnected and without references; and the count of returns has grown by
-- their number, in 64 bits.
pub returns_gathered :
    (n : ℕ) {d₀ : Sessions} {t : System mutex body}
    → d₀.current_return_count < uint64_mod
    → Reach mutex body (fresh mutex body n d₀) t
    → total (is_inside mutex body) t.threads ≡ 0
    → (t.shared.free_client_list ≡ d₀.free_client_list ++ returned_of t.log)
      × (t.shared.current_return_count
          ≡ (d₀.current_return_count + length (returned_of t.log)) % uint64_mod)
      × AllUnused t.log
unfolding Gathered
returns_gathered n {d₀} {t} small r quiet =
    let v = Reach-IsAtomic mutex body (mutex-IsExclusive n) atomic (omega arith) r in
    rw (quiet-eq mutex body (mutex-IsExclusive n) v quiet)
      (IsReplay-Gathered d₀ t.log v.committed small v.replay)
