-- ===== src/ObjectPool/Concurrent.antt =====
-- win-iocp/win-iocp/ObjectPool.hpp on many threads: the two operators access by access.
pub mod Held
pub mod Race
mod Tests
use windows_iocp_network.Base.{
  ℕ, ◌+◌, ◌-◌, ◌≡◌, refl, sym, ap, ◌∙◌, Bool, true, false, Option, none, some, List, [], ◌∷◌, arith,
  ltb, Outcome, done, crash, crash_assert, ◌>>=◌, ◌>>◌, Safely,
}
use windows_iocp_network.Guard.{Body}
use windows_iocp_network.Guard.Atomic.{Runs-rest, Atomic}
use windows_iocp_network.ObjectPool.{ObjectPool, write, refill, operator_new, operator_delete}

pub data Call : Type 0 where
  news : Call
  deletes : ℕ → Call

-- What is left to do. `operator new`: the test of `mFreeList` and the new chunk, which is one
-- access here; the reading of `mFreeList`, of the slot, the writing of `mFreeList`, and the count.
-- `operator delete`: the assertion, the count, the reading of `mFreeList`, and the two writes.
pub data Local : Type 0 where
  checks : Local
  reads_free : Local
  reads_slot : ℕ → Local
  writes_free : ℕ → ℕ → Local
  counts : ℕ → Local
  asserts : ℕ → Local
  uncounts : ℕ → Local
  reads_head : ℕ → Local
  writes_slot : ℕ → ℕ → Local
  writes_head : ℕ → Local
  finished : Option ℕ → Local

abbrev pub start : Call → Local
start news = checks
start (deletes obj) = asserts obj

abbrev pub result : Local → Option (Option ℕ)
result (finished r) = some r
result _ = none

-- `sizeof(Container)`, ALLOC_COUNT, and what `new uint8_t[]` returns.
module _ (size count chunk : ℕ) where
  unfoldable pub access : Local → ObjectPool → Outcome (Local × ObjectPool)
  access checks s = done (reads_free, refill size count chunk s)
  access reads_free s = done (reads_slot s.free_list, s)
  access (reads_slot p) s = done (writes_free p (s.memory p), s)
  access (writes_free p q) s = done (counts p, record s { free_list = q })
  access (counts p) s =
      done (finished (some p), record s { current_use_count = s.current_use_count + 1 })
  access (asserts obj) s = do crash_assert (ltb 0 s.current_use_count); done (uncounts obj, s)
  access (uncounts obj) s =
      done (reads_head obj, record s { current_use_count = s.current_use_count - 1 })
  access (reads_head obj) s = done (writes_slot obj s.free_list, s)
  access (writes_slot obj q) s = done (writes_head obj, record s { memory = write s.memory obj q })
  access (writes_head obj) s = done (finished none, record s { free_list = obj })
  access (finished r) s = done (finished r, s)

  abbrev pub body : Body Call Local ObjectPool (Option ℕ)
  body = record { start = start; access = access; result = result }

  -- The operators as one step each.
  unfoldable pub call : Call → ObjectPool → Outcome (Option ℕ × ObjectPool)
  call news s = let (p, s') = operator_new size count chunk s in done (some p, s')
  call (deletes obj) s = do s' ← operator_delete obj s; done (none, s')

  -- What a call has still to do, alone, from each of its places.
  abbrev counted : ℕ → ObjectPool → Outcome (Option ℕ × ObjectPool)
  counted p s = done (some p, record s { current_use_count = s.current_use_count + 1 })

  abbrev taken : ℕ → ℕ → ObjectPool → Outcome (Option ℕ × ObjectPool)
  taken p q s = counted p (record s { free_list = q })

  abbrev linked : ℕ → ℕ → ObjectPool → Outcome (Option ℕ × ObjectPool)
  linked obj q s = done (none, record s { memory = write s.memory obj q; free_list = obj })

  rest : Local → ObjectPool → Outcome (Option ℕ × ObjectPool)
  rest checks s = call news s
  rest reads_free s = taken s.free_list (s.memory s.free_list) s
  rest (reads_slot p) s = taken p (s.memory p) s
  rest (writes_free p q) s = taken p q s
  rest (counts p) s = counted p s
  rest (asserts obj) s = call (deletes obj) s
  rest (uncounts obj) s =
      linked obj s.free_list (record s { current_use_count = s.current_use_count - 1 })
  rest (reads_head obj) s = linked obj s.free_list s
  rest (writes_slot obj q) s = linked obj q s
  rest (writes_head obj) s = done (none, record s { free_list = obj })
  rest (finished r) s = done (r, s)

  access-rest :
      (l : Local) (s : ObjectPool)
      → result l ≡ none
      → Safely (λ r. rest r.0 r.1 ≡ rest l s) (access l s)
  unfolding rest access call operator_new operator_delete
  access-rest checks s e = refl
  access-rest reads_free s e = refl
  access-rest (reads_slot p) s e = refl
  access-rest (writes_free p q) s e = refl
  access-rest (counts p) s e = refl
  access-rest (asserts obj) s e = ground arith
  access-rest (uncounts obj) s e = refl
  access-rest (reads_head obj) s e = refl
  access-rest (writes_slot obj q) s e = refl
  access-rest (writes_head obj) s e = refl
  access-rest (finished r) s e = cc

  start-rest : (c : Call) (s : ObjectPool) → rest (start c) s ≡ call c s
  unfolding rest
  start-rest news s = refl
  start-rest (deletes obj) s = refl

  finished-rest :
      (l : Local) (s : ObjectPool) (r : Option ℕ) → result l ≡ some r → rest l s ≡ done (r, s)
  unfolding rest
  finished-rest checks s r e = cc
  finished-rest reads_free s r e = cc
  finished-rest (reads_slot p) s r e = cc
  finished-rest (writes_free p q) s r e = cc
  finished-rest (counts p) s r e = cc
  finished-rest (asserts obj) s r e = cc
  finished-rest (uncounts obj) s r e = cc
  finished-rest (reads_head obj) s r e = cc
  finished-rest (writes_slot obj q) s r e = cc
  finished-rest (writes_head obj) s r e = cc
  finished-rest (finished x) s r e = ground (arith, e)

  pub atomic : Atomic body
  atomic = record {
    call = call;
    runs-call = Runs-rest body call rest start-rest access-rest finished-rest;
  }
