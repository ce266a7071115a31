-- ===== src/ObjectPool/Concurrent/Held.antt =====
-- The objects that threads hold while they use one object pool under its mutex, from the log of the
-- calls that have returned.
use windows_iocp_network.Base.{
  ℕ, suc, ◌≤◌, ◌<◌, ◌≡◌, refl, subst, true, Option, none, some, List, [], ◌∷◌, arith, ◌⊎◌, inl, inr,
  length, mem, Distinct, done, >>=-eq-done,
}
use windows_iocp_network.Mutex.{mutex, mutex-IsExclusive}
use windows_iocp_network.Guard.{System, Reach, fresh}
use windows_iocp_network.Guard.Atomic.{IsReplay}
use windows_iocp_network.Guard.Refine.{Reach-IsAtomic}
use windows_iocp_network.ObjectPool.{pointer_size, ObjectPool, operator_new, operator_delete}
use windows_iocp_network.ObjectPool.Slots.{slots}
use windows_iocp_network.ObjectPool.History
use windows_iocp_network.ObjectPool.History.{Objects, allocated, used-Distinct}
use windows_iocp_network.ObjectPool.Used.{without, AllSlots}
use windows_iocp_network.ObjectPool.Concurrent.{Call, news, deletes, call, body, atomic}

abbrev pub Log : Type 0
Log = List (Call × Option ℕ)

-- The objects that have been handed out and not been given back; the log has its last call first.
abbrev pub held : Log → List ℕ
held [] = []
held ((news, none) ∷ log) = held log
held ((news, some p) ∷ log) = p ∷ held log
held ((deletes p, r) ∷ log) = without p (held log)

-- The clients ask for an object while at most `rounds` are held, and delete objects that are held.
abbrev pub IsProper : ℕ → Log → Type 0
IsProper rounds [] = Unit {0}
IsProper rounds ((news, r) ∷ log) = (length (held log) ≤ rounds) × IsProper rounds log
IsProper rounds ((deletes p, r) ∷ log) = (mem p (held log) ≡ true) × IsProper rounds log

module _ (size rounds chunk : ℕ) where
  -- The history of a pool that was `s`, up to the calls of the log.
  Past : ObjectPool → ObjectPool → Log → Type 0
  Past s t log =
      History.Reach size rounds chunk (allocated size rounds chunk (record { used = []; pool = s }))
        (record { used = held log; pool = t })

  news-eq :
      (s t : ObjectPool) (r : Option ℕ)
      → call size (suc rounds) chunk news s ≡ done (r, t)
      → (r ≡ some (operator_new size (suc rounds) chunk s).0)
        × (t ≡ (operator_new size (suc rounds) chunk s).1)
  unfolding call
  news-eq s t r e = ground (arith, e)

  deletes-eq :
      (p : ℕ) (s t : ObjectPool) (r : Option ℕ)
      → call size (suc rounds) chunk (deletes p) s ≡ done (r, t)
      → operator_delete p s ≡ done t
  unfolding call
  deletes-eq p s t r e =
      let (t', f, g) = >>=-eq-done (operator_delete p s) _ e in ground (arith, f, g)

  news-Past :
      (log : Log) (s t t' : ObjectPool) (r : Option ℕ)
      → ((log ≡ []) × (t ≡ s)) ⊎ Past s t log
      → length (held log) ≤ rounds
      → call size (suc rounds) chunk news t ≡ done (r, t')
      → Past s t' ((news, r) ∷ log)
  unfolding Past
  news-Past log s t t' r h few e =
      let (p, q) = news-eq t t' r e in
      rw (p, q)
        (elim h [
          | inl (no_calls, same) ↦ rw (no_calls, same) History.here
          | inr past ↦ History.next past (History.allocates (omega (arith, few)))
        ])

  IsReplay-Past :
      (log : Log) (s t : ObjectPool)
      → IsReplay (body size (suc rounds) chunk) (atomic size (suc rounds) chunk) s log t
      → IsProper rounds log
      → ((log ≡ []) × (t ≡ s)) ⊎ Past s t log
  unfolding Past
  IsReplay-Past [] s t e h = inl (refl, e)
  IsReplay-Past ((news, r) ∷ log) s t (t₁, run, e) h =
      inr (news-Past log s t₁ t r (IsReplay-Past log s t₁ run h.1) h.0 (unfold atomic in e))
  IsReplay-Past ((deletes p, r) ∷ log) s t (t₁, run, e) h = elim (IsReplay-Past log s t₁ run h.1) [
    | inl (no_calls, _) ↦ let none_held = subst (λ l. mem p (held l) ≡ true) no_calls h.0 in cc
    | inr past ↦
        inr (History.next past (History.deletes p h.0 (deletes-eq p t₁ t r (unfold atomic in e))))
  ]

-- With any number of threads that allocate objects of at least the size of a pointer from one pool
-- and delete them, at any moment of any interleaving of their accesses, where the pool started
-- without a free list and without objects, its chunk is not at null, and in the order of the
-- returns no call asked for more than ALLOC_COUNT (here `rounds` + 1) objects at a time and only
-- held ones were deleted: the objects that the threads hold are distinct slots of the chunk.
pub held-Distinct :
    (size rounds chunk n : ℕ) {s : ObjectPool} {t : System mutex (body size (suc rounds) chunk)}
    → pointer_size ≤ size
    → 0 < chunk
    → s.free_list ≡ 0
    → s.current_use_count ≡ 0
    → Reach mutex (body size (suc rounds) chunk) (fresh mutex (body size (suc rounds) chunk) n s) t
    → IsProper rounds t.log
    → Distinct (held t.log) × AllSlots (slots size rounds chunk) (held t.log)
unfolding Past
held-Distinct size rounds chunk n {s} {t} h k e none_used r proper =
    let v =
      Reach-IsAtomic mutex (body size (suc rounds) chunk) (mutex-IsExclusive n)
        (atomic size (suc rounds) chunk) (omega arith) r in
    elim (IsReplay-Past size rounds chunk t.log s v.committed v.replay proper) [
      | inl (no_calls, _) ↦ rw no_calls (tt, tt)
      | inr past ↦
          let (d, slots, _) = used-Distinct size rounds chunk s h k e none_used past in (d, slots)
    ]
