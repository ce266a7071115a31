-- ===== src/ObjectPool/Concurrent/Tests.antt =====
-- Two threads on a new pool of 24-byte containers, three to a chunk at 1000: the second waits for
-- the first, which allocates, deletes its object and allocates again. Then the race of two mutexes.
use windows_iocp_network.Base.{
  ◌+◌, ◌-◌, ltb, ◌≡◌, refl, true, false, none, some, List, [], ◌∷◌, arith, Option, ℕ, Distinct,
}
use windows_iocp_network.Mutex.{asking, mutex, asks, blocks, locks, unlocks}
use windows_iocp_network.Guard.{
  outside, entering, inside, constructs, waits, enters, accesses, destructs, System, step, Reach,
  here, next, fresh,
}
use windows_iocp_network.ObjectPool.{ObjectPool, write, link, refill, operator_new}
use windows_iocp_network.ObjectPool.Slots.{slots}
use windows_iocp_network.ObjectPool.Used.{AllSlots}
use windows_iocp_network.ObjectPool.Concurrent.{
  Call, news, deletes, checks, reads_free, uncounts, access, body,
}
use windows_iocp_network.ObjectPool.Concurrent.Held.{held, held-Distinct}
use windows_iocp_network.ObjectPool.Concurrent.Race
use windows_iocp_network.ObjectPool.Concurrent.Race.{double_handout}

abbrev bytes : ℕ → ℕ
bytes _ = 0

abbrev empty : ObjectPool
empty = record { memory = bytes; free_list = 0; total_alloc_count = 0; current_use_count = 0 }

abbrev popped : ObjectPool → ObjectPool
popped d = record d {
  free_list = d.memory d.free_list;
  current_use_count = d.current_use_count + 1;
}

abbrev pushed : ℕ → ObjectPool → ObjectPool
pushed obj d = record d {
  memory = write d.memory obj d.free_list;
  free_list = obj;
  current_use_count = d.current_use_count - 1;
}

-- Between two calls of the first thread, while the second asks for the mutex.
abbrev waiting : ObjectPool → List (Call × Option ℕ) → System mutex (body 24 3 1000)
waiting d log = record {
  flag = false;
  shared = d;
  threads = outside ∷ entering news asking ∷ [];
  log = log;
}

news_alone :
    (d d' : ObjectPool) (log : List (Call × Option ℕ))
    → refill 24 3 1000 d ≡ d'
    → Reach mutex (body 24 3 1000) (fresh mutex (body 24 3 1000) 2 empty) (waiting d log)
    → Reach mutex
        (body 24 3 1000)
        (fresh mutex (body 24 3 1000) 2 empty)
        (waiting (popped d') ((news, some d'.free_list) ∷ log))
unfolding access
news_alone d d' log e r =
    let others = entering news asking ∷ [] in
    next
      (next
        (next
          (next
            (next
              (next
                (next
                  (next (next r (step [] others (constructs news asks)))
                    (step [] others (enters news (locks refl))))
                  (step (inside news checks ∷ []) [] (waits news (blocks refl) refl)))
                (step [] others (accesses news {l' = reads_free} {d' = d'} refl (rw e refl))))
              (step [] others (accesses news refl refl)))
            (step [] others (accesses news refl refl)))
          (step [] others (accesses news refl refl)))
        (step [] others (accesses news refl refl)))
      (step [] others (destructs news refl unlocks))

deletes_alone :
    (obj : ℕ) (d : ObjectPool) (log : List (Call × Option ℕ))
    → ltb 0 d.current_use_count ≡ true
    → Reach mutex (body 24 3 1000) (fresh mutex (body 24 3 1000) 2 empty) (waiting d log)
    → Reach mutex
        (body 24 3 1000)
        (fresh mutex (body 24 3 1000) 2 empty)
        (waiting (pushed obj d) ((deletes obj, none) ∷ log))
unfolding access
deletes_alone obj d log used r =
    let others = entering news asking ∷ [] in
    let c = deletes obj in
    next
      (next
        (next
          (next
            (next
              (next
                (next (next r (step [] others (constructs c asks)))
                  (step [] others (enters c (locks refl))))
                (step [] others (accesses c {l' = uncounts obj} {d' = d} refl (rw used refl))))
              (step [] others (accesses c refl refl)))
            (step [] others (accesses c refl refl)))
          (step [] others (accesses c refl refl)))
        (step [] others (accesses c refl refl)))
      (step [] others (destructs c refl unlocks))

-- What the second thread does before the first call.
second_asks : Reach mutex (body 24 3 1000) (fresh mutex (body 24 3 1000) 2 empty) (waiting empty [])
second_asks = next here (step (outside ∷ []) [] (constructs news asks))

abbrev filled : ObjectPool
filled = record {
  memory = link 24 2 1000 bytes;
  free_list = 1000;
  total_alloc_count = 3;
  current_use_count = 0;
}

-- The first thread allocates two objects and deletes the first of them.
abbrev two_of_three : System mutex (body 24 3 1000)
two_of_three =
    waiting (pushed 1000 (popped (popped filled)))
      ((deletes 1000, none) ∷ (news, some 1024) ∷ (news, some 1000) ∷ [])

uses : Reach mutex (body 24 3 1000) (fresh mutex (body 24 3 1000) 2 empty) two_of_three
unfolding refill link
uses = deletes_alone 1000 (popped (popped filled)) _ refl (
    news_alone (popped filled) (popped filled) _ refl (news_alone empty filled [] refl second_asks))

held-Distinct_example :
    Distinct (held two_of_three.log) × AllSlots (slots 24 2 1000) (held two_of_three.log)
held-Distinct_example =
    held-Distinct 24 2 1000 2 (omega arith) (omega arith) refl refl uses
      (refl, (omega arith, (omega arith, tt)))

-- The object at 1000 is in use, that at 1024 is free.
abbrev half_used : ObjectPool
half_used = record {
  memory = bytes;
  free_list = 1024;
  total_alloc_count = 3;
  current_use_count = 1;
}

double_handout_example :
    (d : ObjectPool) × Race.Reach 24 3 1000 (Race.fresh 24 3 1000 half_used) (record {
      mutexes = record { of_new = false; of_delete = false };
      shared = d;
      threads = Race.outside ∷ Race.outside ∷ [];
      log = (deletes 1000, none) ∷ (news, some 1024) ∷ [];
    })
    × (let (p, d₁) = operator_new 24 3 1000 d in
        let (q, d₂) = operator_new 24 3 1000 d₁ in (p ≡ 1000) × (q ≡ 1024))
double_handout_example =
    double_handout 24 3 1000 0 1024 1000 [] half_used (refl, omega arith, refl) (omega arith)
      (λ e. absurd (omega (arith, e))) (omega arith)
