-- ===== src/MemoryPool/Extents.antt =====
-- Memory safety of MemoryPool.hpp over any history of calls: what clients hold never overlaps.
mod Tests
use windows_iocp_network.Base.{
  ℕ, ◌+◌, ◌≤◌, ◌<◌, ◌≡◌, ◌≢◌, refl, sym, subst, ◌∙◌, ap, Bool, true, false, Option, none, some,
  List, [], arith, ltb, ◌==◌, if◌then◌else◌, ◌⊎◌, inl, inr, Bool-cases, Option-cases, mem, Outcome,
  done, crash, Returns, Returns-map, Returns-done, long_limit, ℤ,
}
use windows_iocp_network.MemoryPool.{
  MemoryPool, Headers, update, header_size, max_alloc_size, detach_mem_alloc_info, allocate,
  PoolTable, deallocate, construct, new_pool, build_table,
}
use windows_iocp_network.MemoryPool.Table.{
  size_class, size_class_bounds, size_class-eq-none, build_table_lem,
}
use windows_iocp_network.MemoryPool.Inv.{
  free_of, size_of, IsPlace, IsServed, IsValid, IsFresh, construct-IsValid,
}
use windows_iocp_network.MemoryPool.Allocate.{Allocated, allocate-Allocated}
use windows_iocp_network.MemoryPool.Deallocate.{live-not-free, deallocate-IsValid}
use windows_iocp_network.MemoryPool.Calls.{
  requested, AllocateCall, allocate-AllocateCall, DeallocateCall, deallocate-DeallocateCall,
}

-- The bytes of the block that serves a size with its header.
abbrev pub capacity : ℕ → ℕ
capacity real = elim (size_class real) [ none ↦ real | some i ↦ i ]

-- The pool, and which headers a client holds, with the size that it asked for.
pub record Heap : Type 0 where
  pub live : ℕ → Bool
  pub asked : ℕ → ℕ
  pub pool : MemoryPool

-- Two ranges of addresses with no common byte.
abbrev pub IsApart : ℕ → ℕ → ℕ → ℕ → Type 0
IsApart h n k l = (h + n ≤ k) ⊎ (k + l ≤ h)

-- What `_aligned_malloc` promises: bytes that it has not given out, or that went back.
pub record IsNew (s : Heap) (block bytes : ℕ) : Type 0 where
  pub place : IsPlace block
  pub not_given : s.pool.given block ≡ 0
  pub apart : (k : ℕ) → 0 < s.pool.given k → IsApart block bytes k (s.pool.given k)

abbrev pub after_allocate : ℕ → ℕ → MemoryPool → Heap → Heap
after_allocate size ptr m s =
    let h = detach_mem_alloc_info ptr in
    record { live = update s.live h true; asked = update s.asked h size; pool = m }

abbrev pub after_deallocate : ℕ → MemoryPool → Heap → Heap
after_deallocate ptr m s = record {
  live = update s.live (detach_mem_alloc_info ptr) false;
  asked = s.asked;
  pool = m;
}

-- One call, of a size that the pool serves or of a block that a client holds. `_aligned_malloc`
-- gives new bytes, as many as it was asked for.
pub data Step (s : Heap) : Heap → Type 0 where
  allocates :
      (size block : ℕ) {ptr : ℕ} {m : MemoryPool}
      → IsServed (size + header_size)
      → size + header_size < long_limit
      → allocate size block s.pool ≡ done (ptr, m)
      → IsNew s block (m.given block)
      → Step s (after_allocate size ptr m s)
  deallocates :
      (ptr : ℕ) (extra : ℤ) {m : MemoryPool}
      → s.live (detach_mem_alloc_info ptr) ≡ true
      → deallocate ptr extra s.pool ≡ done m
      → Step s (after_deallocate ptr m s)

pub data Reach (s : Heap) : Heap → Type 0 where
  here : Reach s s
  next : {t u : Heap} → Reach s t → Step t u → Reach s u

pub record IsHeap (s : Heap) : Type 0 where
  pub valid : IsValid s.live s.pool
  pub free_extent : (i h : ℕ) → mem h (free_of s.pool i) ≡ true → (s.pool.given h ≡ i) × (0 < i)
  pub sizes : (i : ℕ) → (s.pool.pools i).alloc_size ≡ i
  pub live_extent : (h : ℕ) → s.live h ≡ true → s.pool.given h ≡ capacity (s.asked h + header_size)
  pub live_size : (h : ℕ) → s.live h ≡ true → size_of s.pool h ≡ s.asked h + header_size
  pub apart :
      (h k : ℕ)
      → h ≢ k
      → 0 < s.pool.given h
      → 0 < s.pool.given k
      → IsApart h (s.pool.given h) k (s.pool.given k)

le-capacity : (real : ℕ) → real ≤ capacity real
le-capacity real = elim (Option-cases (size_class real)) [
  | inl e ↦ rw (capacity, e) (omega arith)
  | inr (i, e) ↦ rw (capacity, e) (size_class_bounds real i e).1
]

capacity-class : (real i : ℕ) → size_class real ≡ some i → capacity real ≡ i
capacity-class real i e = rw (capacity, e) refl

IsNew-IsFresh :
    (s : Heap) (block bytes : ℕ) → IsHeap s → IsNew s block bytes → IsFresh s.live s.pool block
IsNew-IsFresh s block bytes v n = record {
  place = n.place;
  not_free = λ i. ground (arith, v.free_extent i block, n.not_given);
  not_live = ground (
    arith,
    v.live_extent block,
    n.not_given,
    v.live_size block,
    le-capacity (s.asked block + header_size),
  );
}

requested-capacity : (s : Heap) (real : ℕ) → IsHeap s → requested s.pool real ≡ capacity real
requested-capacity s real v = elim (Option-cases (size_class real)) [
  | inl e ↦ rw (requested, capacity, e) refl
  | inr (i, e) ↦ rw (requested, capacity, e) (v.sizes i)
]

-- What a call of `Allocate` left behind the header that it took.
record IsOwn (s : Heap) (h bytes : ℕ) (m : MemoryPool) : Type 0 where
  own : (k : ℕ) → h ≢ k → 0 < s.pool.given k → IsApart h bytes k (s.pool.given k)
  class : (j : ℕ) → mem h (free_of s.pool j) ≡ true → bytes ≡ j
  now : (k : ℕ) → m.given k ≡ (if k == h then bytes else s.pool.given k)

AllocateCall-IsOwn :
    (s : Heap) (size block ptr : ℕ) (m : MemoryPool)
    → IsHeap s
    → IsNew s block (m.given block)
    → AllocateCall size block s.pool ptr m
    → IsOwn s (detach_mem_alloc_info ptr) (capacity (size + header_size)) m
AllocateCall-IsOwn s size block ptr m v n c =
    let h = detach_mem_alloc_info ptr in
    let real = size + header_size in
    let bytes = capacity real in
    elim c.given [
      | inl (e, g) ↦
          let got : m.given block ≡ bytes =
            ground (arith, g block, e, requested-capacity s real v) in
          record {
            own = λ k ne p.
                subst (λ a. IsApart a bytes k (s.pool.given k)) (sym e)
                  (subst (λ b. IsApart block b k (s.pool.given k)) got (n.apart k p));
            class = λ j q. ground (arith, v.free_extent j h, n.not_given, e);
            now = λ k. ground (arith, g k, requested-capacity s real v);
          }
      | inr ((i, e, q), g) ↦
          let old = (v.free_extent i h q).0 ∙ sym (capacity-class real i e) in
          record {
            own = λ k ne p.
                subst (λ b. IsApart h b k (s.pool.given k)) old
                  (v.apart h k ne (ground (arith, v.free_extent i h q)) p);
            class = λ j r. ground (arith, old, v.free_extent j h r);
            now = λ k. ground (arith, ap (λ f. f k) g, old);
          }
    ]

after_allocate-IsHeap :
    (s : Heap) (size block ptr : ℕ) (m : MemoryPool)
    → IsHeap s
    → IsValid (update s.live (detach_mem_alloc_info ptr) true) m
    → AllocateCall size block s.pool ptr m
    → IsOwn s (detach_mem_alloc_info ptr) (capacity (size + header_size)) m
    → IsHeap (after_allocate size ptr m s)
after_allocate-IsHeap s size block ptr m v valid c o = record {
  valid = valid;
  free_extent = λ i k q. ground (arith, v.free_extent i k, c.shrinks i k q, o.class i, o.now k);
  sizes = λ i. c.kinds i ∙ v.sizes i;
  live_extent = λ k l. ground (arith, v.live_extent k, o.now k);
  live_size = λ k l. ground (arith, v.live_size k, c.sizes k);
  apart = λ a k ne p q. ground (arith, v.apart a k ne, o.own k, o.own a, o.now a, o.now k);
}

after_deallocate-IsHeap :
    (s : Heap) (ptr : ℕ) (m : MemoryPool)
    → IsHeap s
    → s.live (detach_mem_alloc_info ptr) ≡ true
    → IsValid (update s.live (detach_mem_alloc_info ptr) false) m
    → DeallocateCall (detach_mem_alloc_info ptr) s.pool m
    → IsHeap (after_deallocate ptr m s)
after_deallocate-IsHeap s ptr m v l valid c =
    let h = detach_mem_alloc_info ptr in
    record {
      valid = valid;
      free_extent = λ i k q. elim (c.joins i k q) [
        | inl old ↦ ground (arith, v.free_extent i k old, live-not-free i h v.valid l, c.given k)
        | inr (same, e) ↦
            let given =
              v.live_extent h l
              ∙ capacity-class (s.asked h + header_size) i
                  (ap size_class (sym (v.live_size h l)) ∙ e) in
            ground (
              arith,
              same,
              given,
              v.live_size h l,
              size_class_bounds (size_of s.pool h) i e,
              c.given k,
            )
      ];
      sizes = λ i. c.kinds i ∙ v.sizes i;
      live_extent = λ k r. ground (arith, v.live_extent k, c.given k);
      live_size = λ k r. ground (arith, v.live_size k, c.sizes k);
      apart = λ a k ne p q. ground (arith, v.apart a k ne, c.given a, c.given k);
    }

Step-IsHeap : {s t : Heap} → Step s t → IsHeap s → IsHeap t
Step-IsHeap {s} (allocates size block {ptr} {m} served small e new) v =
    let fresh = IsNew-IsFresh s block (m.given block) v new in
    let a =
      Returns-done (λ r. Allocated s.live s.pool size r.0 r.1) (allocate size block s.pool) e
        (allocate-Allocated size block v.valid fresh served small) in
    let c =
      Returns-done (λ r. AllocateCall size block s.pool r.0 r.1) (allocate size block s.pool) e
        (allocate-AllocateCall size block v.valid fresh served small) in
    after_allocate-IsHeap s size block ptr m v a.valid c
      (AllocateCall-IsOwn s size block ptr m v new c)
Step-IsHeap {s} (deallocates ptr extra {m} l e) v =
    after_deallocate-IsHeap s ptr m v l
      (Returns-done (IsValid (update s.live (detach_mem_alloc_info ptr) false))
        (deallocate ptr extra s.pool) e (deallocate-IsValid ptr extra v.valid l))
      (Returns-done (DeallocateCall (detach_mem_alloc_info ptr) s.pool)
        (deallocate ptr extra s.pool) e (deallocate-DeallocateCall ptr extra v.valid l))

-- No client, and nothing from `_aligned_malloc` yet.
abbrev pub unused : MemoryPool → Heap
unused m = record { live = λ _. false; asked = λ _. 0; pool = m }

abbrev made : PoolTable → Headers → MemoryPool
made t headers = record {
  table = t;
  pools = new_pool;
  headers = headers;
  freed = [];
  given = λ _. 0;
}

-- The constructor asks `_aligned_malloc` for nothing, and makes a pool for each size.
construct_lem :
    (fuel : ℕ) (headers : Headers) {m : MemoryPool}
    → construct fuel headers ≡ some m
    → (m.pools ≡ new_pool) × (m.given ≡ (λ _. 0))
unfolding construct
construct_lem fuel headers {m} e = elim (Option-cases (build_table fuel)) [
  | inl n ↦ absurd (ground (arith, e, n))
  | inr ((recent, t), n) ↦
      let same : made t headers ≡ m = ground (arith, e, n) in
      (sym (ap (λ x. x.pools) same), sym (ap (λ x. x.given) same))
]

unused-IsHeap :
    (headers : Headers) (m : MemoryPool) → construct 32 headers ≡ some m → IsHeap (unused m)
unused-IsHeap headers m e =
    let (m', built, valid, empty) = construct-IsValid 32 headers (omega arith) in
    let same : m' ≡ m = ground (arith, e, built) in
    let (pools, given) = construct_lem 32 headers e in
    record {
      valid = subst (IsValid (λ _. false)) same valid;
      free_extent = λ i h q. ground (arith, empty i, pools);
      sizes = λ i. rw pools refl;
      live_extent = λ h l. cc;
      live_size = λ h l. cc;
      apart = λ h k ne p q. absurd (omega (arith, ap (λ g. g h) given));
    }

Reach-IsHeap : {s t : Heap} → IsHeap s → Reach s t → IsHeap t
Reach-IsHeap v here = v
Reach-IsHeap v (next r st) = Step-IsHeap st (Reach-IsHeap v r)

-- After any history of calls on a new pool, in which the pool serves the sizes, what is given back
-- was in use, and `_aligned_malloc` gives as many bytes as it is asked for, which it has not given
-- out: of two blocks in use, the header and the bytes that were asked for of one have no byte in
-- common with those of the other.
pub no_overlap :
    (headers : Headers) {m : MemoryPool} {s : Heap}
    → construct 32 headers ≡ some m
    → Reach (unused m) s
    → (h k : ℕ) → s.live h ≡ true
    → s.live k ≡ true
    → h ≢ k
    → IsApart h (s.asked h + header_size) k (s.asked k + header_size)
no_overlap headers {m} {s} e r h k l l' ne =
    let v = Reach-IsHeap (unused-IsHeap headers m e) r in
    ground (
      arith,
      v.apart h k ne,
      v.live_extent h l,
      v.live_extent k l',
      le-capacity (s.asked h + header_size),
      le-capacity (s.asked k + header_size),
    )
