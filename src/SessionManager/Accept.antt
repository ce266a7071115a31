-- ===== src/SessionManager/Accept.antt =====
-- `AcceptSessions` and what returned sessions do to it.
use windows_iocp_network.Base.{
  ℕ, zero, suc, ◌+◌, ◌%◌, ◌≤◌, ◌<◌, ◌≡◌, refl, ap, ◌∙◌, true, false, none, some, List, [], ◌∷◌,
  ◌++◌, arith, ltb, ◌==◌, length, Outcome, done, ◌>>=◌, Returns, Returns-map, Returns-bind,
  if◌then◌else◌,
}
use windows_iocp_network.ClientSession
use windows_iocp_network.ClientSession.{ClientSession, session_reset}
use windows_iocp_network.SessionManager
use windows_iocp_network.SessionManager.{
  SessionManager, prepare_sessions, return_client_session, accept_loop, accept_sessions,
  max_connection, uint64_mod, push_new, in_use,
}
use windows_iocp_network.ClientSession.Context.{thread_main}

-- Some sessions are returned, in order, each with the socket that it gets.
pub returns : List (ℕ × ClientSession) → SessionManager → Outcome SessionManager
unfolding return_client_session
returns [] m = done m
returns ((socket, client) ∷ rest) m = return_client_session socket client m >>= returns rest

-- No client has the session.
abbrev pub IsUnused : ClientSession → Type 0
IsUnused s = (s.connected ≡ false) × (s.ref_count ≡ 0)

abbrev pub AllUnused : List ClientSession → Type 0
AllUnused [] = Unit {0}
AllUnused (s ∷ ss) = IsUnused s × AllUnused ss

-- The clients of `returns`.
abbrev pub AllReturnable : List (ℕ × ClientSession) → Type 0
AllReturnable [] = Unit {0}
AllReturnable ((socket, client) ∷ rest) = IsUnused client × AllReturnable rest

-- The manager with `n` sessions in the list after `k` returns: none is in use by a client, the
-- return counter holds `k` in 64 bits, none was issued.
pub record IsPool (n k : ℕ) (m : SessionManager) : Type 0 where
  pub unlocked : m.locked ≡ false
  pub size : length m.free_client_list ≡ n
  pub unused : AllUnused m.free_client_list
  pub returned : m.current_return_count ≡ k % uint64_mod
  pub issued : m.current_issue_count ≡ 0

AllUnused-snoc :
    (ss : List ClientSession) (s : ClientSession)
    → AllUnused ss
    → IsUnused s
    → AllUnused (ss ++ s ∷ []) × (length (ss ++ s ∷ []) ≡ suc (length ss))
AllUnused-snoc [] s h k = ((k, tt), refl)
AllUnused-snoc (x ∷ ss) s h k = let ih = AllUnused-snoc ss s h.1 k in ((h.0, ih.0), ap suc ih.1)

construct-IsUnused : (socket : ℕ) (block : List ℕ) → IsUnused (ClientSession.construct socket block)
unfolding ClientSession.construct
construct-IsUnused socket block = (refl, refl)

push_new-AllUnused :
    (rounds : ℕ) (block : ℕ → ℕ × List ℕ) (ss : List ClientSession)
    → AllUnused ss
    → AllUnused (push_new rounds block ss)
      × (length (push_new rounds block ss) ≡ length ss + rounds)
unfolding push_new
push_new-AllUnused zero block ss h = (h, omega arith)
push_new-AllUnused (suc rounds) block ss h =
    let new = ClientSession.construct (block rounds).0 (block rounds).1 in
    let snoc : AllUnused (ss ++ new ∷ []) × (length (ss ++ new ∷ []) ≡ suc (length ss)) =
      AllUnused-snoc ss new h (construct-IsUnused (block rounds).0 (block rounds).1) in
    let (unused, size) = push_new-AllUnused rounds block (ss ++ new ∷ []) snoc.0 in
    (unused, size ∙ ap (λ n. n + rounds) snoc.1 ∙ omega arith)

session_reset-IsUnused :
    (socket : ℕ) (client : ClientSession) → IsUnused (session_reset socket client)
unfolding session_reset
session_reset-IsUnused socket client = (refl, refl)

-- The session of a client that is gone.
return_client_session_lem :
    (socket : ℕ) (client : ClientSession) (m : SessionManager)
    → m.locked ≡ false
    → IsUnused client
    → return_client_session socket client m
      ≡ done (record m {
        free_client_list = m.free_client_list ++ session_reset socket client ∷ [];
        current_return_count = (m.current_return_count + 1) % uint64_mod;
      })
unfolding return_client_session
return_client_session_lem socket client m free h = ground (arith, h.0, h.1)

return_client_session-IsPool :
    (socket n k : ℕ) (client : ClientSession) (m : SessionManager)
    → IsUnused client
    → IsPool n k m
    → Returns (IsPool (suc n) (suc k)) (return_client_session socket client m)
return_client_session-IsPool socket n k client m h p =
    let snoc =
      AllUnused-snoc m.free_client_list (session_reset socket client) p.unused
        (session_reset-IsUnused socket client) in
    let count : (m.current_return_count + 1) % uint64_mod ≡ suc k % uint64_mod =
      omega (arith, p.returned) in
    rw (return_client_session_lem socket client m p.unlocked h) (record {
      unlocked = p.unlocked;
      size = snoc.1 ∙ ap suc p.size;
      unused = snoc.0;
      returned = count;
      issued = p.issued;
    })

returns-IsPool :
    (rs : List (ℕ × ClientSession)) (n k n' k' : ℕ) (m : SessionManager)
    → n' ≡ n + length rs
    → k' ≡ k + length rs
    → AllReturnable rs
    → IsPool n k m
    → Returns (IsPool n' k') (returns rs m)
unfolding returns
returns-IsPool [] n k n' k' m e f h p =
    let e' : n' ≡ n = omega (arith, e) in let f' : k' ≡ k = omega (arith, f) in rw (e', f') p
returns-IsPool ((socket, client) ∷ rs) n k n' k' m e f h p =
    Returns-bind (IsPool (suc n) (suc k)) (IsPool n' k') (return_client_session socket client m)
      (returns rs)
      (λ m' p'.
        returns-IsPool rs (suc n) (suc k) n' k' m' (omega (arith, e)) (omega (arith, f)) h.1 p')
      (return_client_session-IsPool socket n k client m h.0 p)

pub prepare_sessions-IsPool :
    (block : ℕ → ℕ × List ℕ)
    → Returns
        (IsPool max_connection 0)
        (prepare_sessions thread_main block SessionManager.construct)
unfolding prepare_sessions SessionManager.construct push_new
prepare_sessions-IsPool block =
    let p = push_new-AllUnused max_connection block [] tt in
    record { unlocked = refl; size = p.1; unused = p.0; returned = omega arith; issued = refl }

accept_loop-busy :
    (fuel : ℕ) (m : SessionManager) → in_use m < max_connection → accept_loop fuel m ≡ none
unfolding accept_loop
accept_loop-busy zero m h = refl
accept_loop-busy (suc fuel) m h =
    let t : ltb (in_use m) max_connection ≡ true = ground arith in
    rw (accept_loop, t) (accept_loop-busy fuel m h)

accept_loop-through :
    (fuel : ℕ) (m : SessionManager)
    → max_connection ≤ in_use m
    → accept_loop (suc fuel) m ≡ some (true, m)
unfolding accept_loop
accept_loop-through fuel m h =
    let t : ltb (in_use m) max_connection ≡ false = ground arith in rw (accept_loop, t) refl

accept_sessions-IsPool :
    (n k fuel : ℕ) (m : SessionManager)
    → k + max_connection ≤ uint64_mod
    → IsPool n k m
    → accept_sessions (suc fuel) m ≡ done (if k == 0 then none else some (true, m))
unfolding accept_sessions
accept_sessions-IsPool n zero fuel m small p =
    let t : in_use m < max_connection = omega (arith, p.returned, p.issued) in
    ground (arith, p.unlocked, accept_loop-busy (suc fuel) m t)
accept_sessions-IsPool n (suc k) fuel m small p =
    let t : max_connection ≤ in_use m = omega (arith, p.returned, p.issued) in
    ground (arith, p.unlocked, accept_loop-through fuel m t)

-- After `PrepareSessions` on the main thread, and the returns of any sessions that no client uses,
-- the list holds the ten new sessions and the returned ones, all of them unused; the counter holds
-- the number of returns in 64 bits, none was issued, and the mutex is free.
pub returned-IsPool :
    (block : ℕ → ℕ × List ℕ) (rs : List (ℕ × ClientSession))
    → AllReturnable rs
    → Returns
        (IsPool (max_connection + length rs) (length rs))
        (prepare_sessions thread_main block SessionManager.construct >>= returns rs)
returned-IsPool block rs h =
    Returns-bind (IsPool max_connection 0) _
      (prepare_sessions thread_main block SessionManager.construct) (returns rs)
      (λ m p. returns-IsPool rs max_connection 0 _ _ m refl (omega arith) h p)
      (prepare_sessions-IsPool block)

-- After `PrepareSessions` on the main thread and the returns of at most 2^64 - 10 sessions that no
-- client uses, `AcceptSessions` has not ended after any number of rounds if none was returned, and
-- otherwise returns true in the first and changes nothing.
pub accept_sessions_of_returned :
    (block : ℕ → ℕ × List ℕ) (rs : List (ℕ × ClientSession)) (fuel : ℕ)
    → AllReturnable rs
    → length rs + max_connection ≤ uint64_mod
    → Returns
        (λ m. accept_sessions (suc fuel) m ≡ done (if length rs == 0 then none else some (true, m)))
        (prepare_sessions thread_main block SessionManager.construct >>= returns rs)
accept_sessions_of_returned block rs fuel h small =
    Returns-map (IsPool (max_connection + length rs) (length rs)) _
      (prepare_sessions thread_main block SessionManager.construct >>= returns rs)
      (λ m p. accept_sessions-IsPool (max_connection + length rs) (length rs) fuel m small p)
      (returned-IsPool block rs h)
