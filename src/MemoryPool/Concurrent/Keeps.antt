-- ===== src/MemoryPool/Concurrent/Keeps.antt =====
-- What one access to the pool keeps, and that it does not crash.
use windows_iocp_network.Base.{
  ℕ, ◌+◌, ◌<◌, ◌≡◌, refl, sym, subst, ◌∙◌, Bool, true, arith, ltb, ◌⊎◌, inl, inr, mem, Bool-cases,
  Option-cases, List-cases, Returns, ℤ,
}
use windows_iocp_network.MemoryPool.{
  MemoryPool, Given, MemAllocInfo, update, header_size, max_alloc_size, detach_mem_alloc_info,
}
use windows_iocp_network.MemoryPool.Table.{size_class, size_class-eq-none}
use windows_iocp_network.MemoryPool.Inv.{free_of, size_of, IsServed, IsValid, IsFresh}
use windows_iocp_network.MemoryPool.Allocate.{take_first, attach_lem}
use windows_iocp_network.MemoryPool.Deallocate.{put_first}
use windows_iocp_network.MemoryPool.Concurrent.{
  Local, looks, pops, asserts, mallocs, mallocs_big, counts, attaches, returned, marks, exchanges,
  checks, frees, pushes, uncounts, ended, asks, access, has,
}
use windows_iocp_network.MemoryPool.Concurrent.Relies.{At, IsSame}

-- A pool with other counters, marks or blocks given back.
IsValid-same :
    {live : ℕ → Bool} {m m' : MemoryPool}
    → m'.table ≡ m.table
    → ((i : ℕ) → free_of m' i ≡ free_of m i)
    → ((k : ℕ) → size_of m' k ≡ size_of m k)
    → IsValid live m
    → IsValid live m'
IsValid-same t f s v = record {
  table = λ n. rw t (v.table n);
  clear = λ i h q. s h ∙ v.clear i h (rw (← f i) q);
  placed = λ i h q. v.placed i h (rw (← f i) q);
  distinct = λ i. rw (f i) (v.distinct i);
  apart = λ i j h p q. v.apart i j h (rw (← f i) p) (rw (← f j) q);
  sized = λ h l. rw (s h) (v.sized h l);
  live_placed = v.live_placed;
}

IsFresh-same :
    {live : ℕ → Bool} {m : MemoryPool} {given : Given} {h : ℕ}
    → IsFresh live m h
    → IsFresh live (record m { given = given }) h
IsFresh-same f = record { place = f.place; not_free = f.not_free; not_live = f.not_live }

-- The header of a block that nobody has may be anything.
fresh_header :
    {live : ℕ → Bool} {m : MemoryPool} (h : ℕ) (info : MemAllocInfo)
    → IsFresh live m h
    → IsValid live m
    → IsValid live (record m { headers = update m.headers h info })
fresh_header {live} {m} h info f v = record {
  table = v.table;
  clear = λ i a q. ground (arith, v.clear i a, f.not_free i);
  placed = v.placed;
  distinct = v.distinct;
  apart = v.apart;
  sized = λ a q. ground (arith, v.sized a, f.not_live);
  live_placed = v.live_placed;
}

-- What a header says after it was written.
written :
    (h : ℕ) (info : MemAllocInfo) (m : MemoryPool)
    → size_of (record m { headers = update m.headers h info }) h ≡ info.alloc_size
written h info m = ground arith

-- After an access of a thread from `l` to `l'`.
pub record Kept (block : ℕ) (live : ℕ → Bool) (m m' : MemoryPool) (l l' : Local) : Type 0 where
  pub valid : IsValid live m'
  pub at : At live m' l'
  pub others : (k : ℕ) → has k l ≡ 0 → IsSame live live m m' k
  pub gained :
      (k : ℕ)
      → 0 < has k l'
      → (has k l ≡ 1) ⊎ (((i : ℕ) × (mem k (free_of m i) ≡ true)) ⊎ ((asks l ≡ true) × (k ≡ block)))

all_same : {live : ℕ → Bool} {m : MemoryPool} (k : ℕ) → IsSame live live m m k
all_same k = record { free = λ j q. q; lives = refl; size = refl }

looks-Kept :
    (block real : ℕ) {live : ℕ → Bool} {m : MemoryPool}
    → IsValid live m
    → IsServed real
    → Returns (λ r. Kept block live m r.1 (looks real) r.0) (access block (looks real) m)
unfolding access
looks-Kept block real {live} {m} v s = elim (Bool-cases (ltb max_alloc_size real)) [
  | inl big ↦ rw big (record {
    valid = v;
    at = s;
    others = λ k h. all_same k;
    gained = λ k h. absurd (omega arith);
  })
  | inr pooled ↦ elim (Option-cases (size_class real)) [
    | inl no_pool ↦ absurd (ground (arith, (size_class-eq-none real).0 no_pool))
    | inr (i, e) ↦
        rw (pooled, v.table real, e)
          (record {
            valid = v;
            at = s;
            others = λ k h. all_same k;
            gained = λ k h. absurd (omega arith);
          })
  ]
]

pops-Kept :
    (block real i : ℕ) {live : ℕ → Bool} {m : MemoryPool}
    → IsValid live m
    → IsServed real
    → Returns (λ r. Kept block live m r.1 (pops real i) r.0) (access block (pops real i) m)
unfolding access
pops-Kept block real i {live} {m} v s = elim (List-cases (free_of m i)) [
  | inl e ↦ rw e (record {
    valid = v;
    at = s;
    others = λ k h. all_same k;
    gained = λ k h. absurd (omega arith);
  })
  | inr (h, rest, e) ↦
      let (v', f) = take_first v i (m.pools i).alloc_count h rest e in
      rw e (record {
        valid = v';
        at = (f, s, ground (arith, v.clear i h));
        others = λ k q. record { free = λ j r. ground (arith, e); lives = refl; size = refl };
        gained = λ k q. inr (inl (i, ground (arith, e)));
      })
]

attaches-Kept :
    (block real h : ℕ) {live : ℕ → Bool} {m : MemoryPool}
    → IsValid live m
    → IsFresh live m h × IsServed real
    → Returns (λ r. Kept block live m r.1 (attaches real h) r.0) (access block (attaches real h) m)
unfolding access
attaches-Kept block real h {live} {m} v (f, s) =
    let back : detach_mem_alloc_info (h + header_size) ≡ h = omega (arith, f.place) in
    rw (attach_lem h real m.headers f.place.0) (record {
      valid = fresh_header h _ f v;
      at = rw back (
        record { place = f.place; not_free = f.not_free; not_live = f.not_live },
        subst IsServed (sym (written h _ m)) s,
      );
      others = λ k q. record { free = λ j r. r; lives = refl; size = ground arith };
      gained = λ k q. inl (ground (arith, back));
    })

marks-Kept :
    (block h : ℕ) (extra : ℤ) {live : ℕ → Bool} {m : MemoryPool}
    → IsValid live m
    → IsFresh live m h × IsServed (size_of m h)
    → Returns (λ r. Kept block live m r.1 (marks h extra) r.0) (access block (marks h extra) m)
unfolding access
marks-Kept block h extra {live} {m} v (f, s) = record {
  valid = fresh_header h _ f v;
  at = (
    record { place = f.place; not_free = f.not_free; not_live = f.not_live },
    subst IsServed (sym (written h _ m)) s,
  );
  others = λ k q. record { free = λ j r. r; lives = refl; size = ground arith };
  gained = λ k q. inl (ground arith);
}

exchanges-Kept :
    (block h : ℕ) {live : ℕ → Bool} {m : MemoryPool}
    → IsValid live m
    → IsFresh live m h × IsServed (size_of m h)
    → Returns (λ r. Kept block live m r.1 (exchanges h) r.0) (access block (exchanges h) m)
unfolding access
exchanges-Kept block h {live} {m} v (f, s) = record {
  valid = fresh_header h _ f v;
  at = (record { place = f.place; not_free = f.not_free; not_live = f.not_live }, s, ground arith);
  others = λ k q. record { free = λ j r. r; lives = refl; size = ground arith };
  gained = λ k q. inl (ground arith);
}

checks-Kept :
    (block h real : ℕ) {live : ℕ → Bool} {m : MemoryPool}
    → IsValid live m
    → IsFresh live m h × IsServed real × (size_of m h ≡ 0)
    → Returns (λ r. Kept block live m r.1 (checks h real) r.0) (access block (checks h real) m)
unfolding access
checks-Kept block h real {live} {m} v (f, s, e) =
    let asserted : ltb 0 real ≡ true = ground arith in
    elim (Bool-cases (ltb max_alloc_size real)) [
      | inl big ↦
          rw (asserted, big)
            (record {
              valid = v;
              at = f;
              others = λ k q. all_same k;
              gained = λ k q. inl (ground arith);
            })
      | inr pooled ↦ elim (Option-cases (size_class real)) [
        | inl no_pool ↦ absurd (ground (arith, (size_class-eq-none real).0 no_pool))
        | inr (i, c) ↦
            rw (asserted, pooled, v.table real, c)
              (record {
                valid = v;
                at = (f, e);
                others = λ k q. all_same k;
                gained = λ k q. inl (ground arith);
              })
      ]
    ]

pushes-Kept :
    (block h i : ℕ) {live : ℕ → Bool} {m : MemoryPool}
    → IsValid live m
    → IsFresh live m h × (size_of m h ≡ 0)
    → Returns (λ r. Kept block live m r.1 (pushes h i) r.0) (access block (pushes h i) m)
unfolding access
pushes-Kept block h i {live} {m} v (f, e) = record {
  valid = put_first i h (m.pools i).alloc_count (v, f) e;
  at = tt;
  others = λ k q. record { free = λ j r. ground arith; lives = refl; size = refl };
  gained = λ k q. absurd (omega arith);
}

-- An access of a thread that has what it relies on returns and keeps the pool well formed; it
-- leaves all headers alone that the thread does not have, and takes one only from a free list or
-- from `_aligned_malloc`.
pub access-Kept :
    (block : ℕ) (l : Local) {live : ℕ → Bool} {m : MemoryPool}
    → IsValid live m
    → At live m l
    → (asks l ≡ true → IsFresh live m block)
    → Returns (λ r. Kept block live m r.1 l r.0) (access block l m)
unfolding access
access-Kept block (looks real) v a new = looks-Kept block real v a
access-Kept block (pops real i) v a new = pops-Kept block real i v a
access-Kept block (asserts real i h) v (f, s, e) new = rw e (record {
  valid = v;
  at = (f, s);
  others = λ k q. all_same k;
  gained = λ k q. inl (ground arith);
})
access-Kept block (mallocs real i) v s new = record {
  valid = IsValid-same refl (λ j. refl) (λ k. refl) v;
  at = (IsFresh-same (new refl), s);
  others = λ k q. record { free = λ j r. r; lives = refl; size = refl };
  gained = λ k q. inr (inr (refl, ground arith));
}
access-Kept block (mallocs_big real) v s new = record {
  valid = IsValid-same refl (λ j. refl) (λ k. refl) v;
  at = (IsFresh-same (new refl), s);
  others = λ k q. record { free = λ j r. r; lives = refl; size = refl };
  gained = λ k q. inr (inr (refl, ground arith));
}
access-Kept block (counts real i h) {live} {m} v (f, s) new = record {
  valid = IsValid-same refl (λ j. ground arith) (λ k. refl) v;
  at = (
    record { place = f.place; not_free = λ j. ground (arith, f.not_free j); not_live = f.not_live },
    s,
  );
  others = λ k q. record { free = λ j r. ground arith; lives = refl; size = refl };
  gained = λ k q. inl (ground arith);
}
access-Kept block (attaches real h) v a new = attaches-Kept block real h v a
access-Kept block (returned ptr) v a new = record {
  valid = v;
  at = a;
  others = λ k q. all_same k;
  gained = λ k q. inl (ground arith);
}
access-Kept block (marks h extra) v a new = marks-Kept block h extra v a
access-Kept block (exchanges h) v a new = exchanges-Kept block h v a
access-Kept block (checks h real) v a new = checks-Kept block h real v a
access-Kept block (frees h) v f new = record {
  valid = IsValid-same refl (λ j. refl) (λ k. refl) v;
  at = tt;
  others = λ k q. record { free = λ j r. r; lives = refl; size = refl };
  gained = λ k q. absurd (omega arith);
}
access-Kept block (pushes h i) v a new = pushes-Kept block h i v a
access-Kept block (uncounts i) {live} {m} v a new = record {
  valid = IsValid-same refl (λ j. ground arith) (λ k. refl) v;
  at = tt;
  others = λ k q. record { free = λ j r. ground arith; lives = refl; size = refl };
  gained = λ k q. absurd (omega arith);
}
access-Kept block ended v a new = record {
  valid = v;
  at = tt;
  others = λ k q. all_same k;
  gained = λ k q. absurd (omega arith);
}
