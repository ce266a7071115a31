-- ===== src/ObjectPool/Concurrent/Race.antt =====
-- The two operators of WindowsIocpNetwork-WIN-study/WindowsIocpNetwork-WIN-study/
-- 211110_ObjectPool_test.cpp on many threads: each operator has a static mutex of its own.
use windows_iocp_network.Base.{
  ℕ, ◌+◌, ◌-◌, ◌<◌, ◌≡◌, ◌≢◌, refl, sym, Bool, true, false, Option, none, some, List, [], ◌∷◌, ◌++◌,
  arith, ltb, ◌==◌, done,
}
use windows_iocp_network.ObjectPool.{ObjectPool, write, refill, operator_new}
use windows_iocp_network.ObjectPool.Chain.{Free, operator_new-Free, refill_of_ne}
use windows_iocp_network.ObjectPool.Concurrent.{
  Call, news, deletes, Local, reads_free, uncounts, writes_slot, start, access, result,
}

-- Which of the two mutexes are locked.
pub record Mutexes : Type 0 where
  pub of_new : Bool
  pub of_delete : Bool

abbrev pub is_locked : Call → Mutexes → Bool
is_locked news m = m.of_new
is_locked (deletes obj) m = m.of_delete

abbrev pub set_locked : Call → Bool → Mutexes → Mutexes
set_locked news b m = record m { of_new = b }
set_locked (deletes obj) b m = record m { of_delete = b }

pub data Place : Type 0 where
  outside : Place
  asking : Call → Place
  inside : Call → Local → Place

module _ (size count chunk : ℕ) where
  -- One access of one thread; a call locks the mutex of its own operator.
  pub data Act (m : Mutexes) (d : ObjectPool)
      : Place → Mutexes → ObjectPool → Place → List (Call × Option ℕ) → Type 0 where
    asks : (c : Call) → Act m d outside m d (asking c) []
    locks :
        (c : Call)
        → is_locked c m ≡ false
        → Act m d (asking c) (set_locked c true m) d (inside c (start c)) []
    accesses :
        (c : Call) {l l' : Local} {d' : ObjectPool}
        → access size count chunk l d ≡ done (l', d')
        → Act m d (inside c l) m d' (inside c l') []
    unlocks :
        (c : Call) {l : Local} {r : Option ℕ}
        → result l ≡ some r
        → Act m d (inside c l) (set_locked c false m) d outside ((c, r) ∷ [])

  -- The `log` has the calls that have returned, the last first.
  pub record System : Type 0 where
    pub mutexes : Mutexes
    pub shared : ObjectPool
    pub threads : List Place
    pub log : List (Call × Option ℕ)

  pub data Step : System → System → Type 0 where
    step :
        (before after : List Place) {m m' : Mutexes} {d d' : ObjectPool} {p p' : Place}
        {ended log : List (Call × Option ℕ)}
        → Act m d p m' d' p' ended
        → Step
            (record { mutexes = m; shared = d; threads = before ++ p ∷ after; log = log })
            (record {
              mutexes = m';
              shared = d';
              threads = before ++ p' ∷ after;
              log = ended ++ log;
            })

  pub data Reach (s : System) : System → Type 0 where
    here : Reach s s
    next : {t u : System} → Reach s t → Step t u → Reach s u

  -- Both mutexes unlocked, and two threads.
  abbrev pub fresh : ObjectPool → System
  fresh d = record {
    mutexes = record { of_new = false; of_delete = false };
    shared = d;
    threads = outside ∷ outside ∷ [];
    log = [];
  }

  abbrev both : Mutexes
  both = record { of_new = true; of_delete = true }

  abbrev of_deletes : Mutexes
  of_deletes = record { of_new = false; of_delete = true }

  -- The second thread's `operator delete`, until it has read the head of the free list.
  deletes_begins :
      (obj : ℕ) (s : ObjectPool)
      → 0 < s.current_use_count
      → Reach (fresh s) (record {
        mutexes = of_deletes;
        shared = record s { current_use_count = s.current_use_count - 1 };
        threads = outside ∷ inside (deletes obj) (writes_slot obj s.free_list) ∷ [];
        log = [];
      })
  unfolding access
  deletes_begins obj s used =
      let others = outside ∷ [] in
      let counted : ltb 0 s.current_use_count ≡ true = ground arith in
      next
        (next
          (next
            (next (next here (step others [] (asks (deletes obj))))
              (step others [] (locks (deletes obj) refl)))
            (step others []
              (accesses (deletes obj) {l' = uncounts obj} {d' = s} (rw counted refl))))
          (step others [] (accesses (deletes obj) refl)))
        (step others [] (accesses (deletes obj) refl))

  -- All of an `operator new` of the first thread, beside a thread in `operator delete`.
  news_whole :
      (other : Place) (s d : ObjectPool)
      → refill size count chunk d ≡ d
      → Reach
          (fresh s)
          (record { mutexes = of_deletes; shared = d; threads = outside ∷ other ∷ []; log = [] })
      → Reach (fresh s) (record {
        mutexes = of_deletes;
        shared = record d {
          free_list = d.memory d.free_list;
          current_use_count = d.current_use_count + 1;
        };
        threads = outside ∷ other ∷ [];
        log = (news, some d.free_list) ∷ [];
      })
  unfolding access
  news_whole other s d full r =
      let others = other ∷ [] in
      next
        (next
          (next
            (next
              (next
                (next
                  (next (next r (step [] others (asks news))) (step [] others (locks news refl)))
                  (step [] others (accesses news {l' = reads_free} {d' = d} (rw full refl))))
                (step [] others (accesses news refl)))
              (step [] others (accesses news refl)))
            (step [] others (accesses news refl)))
          (step [] others (accesses news refl)))
        (step [] others (unlocks news refl))

  -- The rest of the `operator delete`.
  deletes_ends :
      (obj q : ℕ) (s d : ObjectPool) (log : List (Call × Option ℕ))
      → Reach (fresh s) (record {
        mutexes = of_deletes;
        shared = d;
        threads = outside ∷ inside (deletes obj) (writes_slot obj q) ∷ [];
        log = log;
      })
      → Reach (fresh s) (record {
        mutexes = record { of_new = false; of_delete = false };
        shared = record d { memory = write d.memory obj q; free_list = obj };
        threads = outside ∷ outside ∷ [];
        log = (deletes obj, none) ∷ log;
      })
  unfolding access
  deletes_ends obj q s d log r =
      let others = outside ∷ [] in
      next
        (next (next r (step others [] (accesses (deletes obj) refl)))
          (step others [] (accesses (deletes obj) refl)))
        (step others [] (unlocks (deletes obj) refl))

two_news :
    (size count chunk last p q : ℕ) (d : ObjectPool)
    → Free d last (p ∷ q ∷ [])
    → ((operator_new size count chunk d).0 ≡ p)
      × ((operator_new size count chunk (operator_new size count chunk d).1).0 ≡ q)
two_news size count chunk last p q d free =
    let (first, rest, _, _) = operator_new-Free size count chunk last p (q ∷ []) d free in
    let (second, _, _, _) =
      operator_new-Free size count chunk last q [] (operator_new size count chunk d).1 rest in
    (first, second)

-- While an object is in use and the slot `x` is free, on two threads, one of which deletes an
-- object other than `x` and not at null while the other allocates: there is an interleaving in
-- which `x` is handed out, both calls return, and the next two calls of `operator new` return the
-- deleted object and then `x` again, which nobody deleted.
pub double_handout :
    (size count chunk last x obj : ℕ) (xs : List ℕ) (s : ObjectPool)
    → Free s last (x ∷ xs)
    → 0 < obj
    → obj ≢ x
    → 0 < s.current_use_count
    → (d : ObjectPool) × Reach size count chunk (fresh size count chunk s) (record {
      mutexes = record { of_new = false; of_delete = false };
      shared = d;
      threads = outside ∷ outside ∷ [];
      log = (deletes obj, none) ∷ (news, some x) ∷ [];
    })
      × (let (p, d₁) = operator_new size count chunk d in
          let (q, d₂) = operator_new size count chunk d₁ in (p ≡ obj) × (q ≡ x))
double_handout size count chunk last x obj xs s (e, pos_x, c) pos_obj other used =
    let begun = record s { current_use_count = s.current_use_count - 1 } in
    let between = record begun {
      free_list = begun.memory begun.free_list;
      current_use_count = begun.current_use_count + 1;
    } in
    let d = record between { memory = write between.memory obj s.free_list; free_list = obj } in
    let full = refill_of_ne size count chunk begun (ground arith) in
    let runs =
      deletes_ends size count chunk obj s.free_list s between ((news, some s.free_list) ∷ []) (
        news_whole size count chunk (inside (deletes obj) (writes_slot obj s.free_list)) s begun
          full (deletes_begins size count chunk obj s used)) in
    let self : (obj == obj) ≡ true = ground arith in
    (
      d,
      rw (sym e) runs,
      two_news size count chunk (d.memory x) obj x d (refl, pos_obj, rw self (e, pos_x, refl)),
    )
