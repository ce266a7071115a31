-- ===== src/MemoryPool/Concurrent/Safe.antt =====
-- Memory safety of MemoryPool.hpp on many threads, over any interleaving of their accesses.
use windows_iocp_network.Base.{
  ℕ, zero, suc, ◌+◌, ◌<◌, ◌≤◌, ◌≡◌, ℤ, refl, subst, Bool, true, false, some, List, [], ◌∷◌, arith,
  ltb, ◌==◌, if◌then◌else◌, inl, inr, mem, total, total-middle, total-replicate, replicate,
  Bool-cases, done, Returns, Returns-done,
}
use windows_iocp_network.MemoryPool.{MemoryPool, Headers, update, construct, detach_mem_alloc_info}
use windows_iocp_network.MemoryPool.Inv.{
  free_of, size_of, IsServed, IsValid, IsFresh, construct-IsValid,
}
use windows_iocp_network.MemoryPool.Deallocate.{live-not-free}
use windows_iocp_network.MemoryPool.Concurrent.{
  Local, marks, asks, access, has, Place, outside, inside, owns, System, Act, allocates,
  deallocates, accesses, returns, ends, Step, step, Reach, here, next, fresh,
}
use windows_iocp_network.MemoryPool.Concurrent.Relies.{At, IsSame}
use windows_iocp_network.MemoryPool.Concurrent.Keeps.{Kept, access-Kept}
use windows_iocp_network.MemoryPool.Concurrent.Threads.{
  has-le, PlaceAt, AllAt, all_same, all-IsFresh, AllAt-middle, AllAt-append, access-Returns,
}

-- After one access of a thread from `p` to `p'`, where the others have `o k` times the header at
-- `k`.
record Acted (o : ℕ → ℕ) (live live' : ℕ → Bool) (m m' : MemoryPool) (p' : Place) : Type 0 where
  pub valid : IsValid live' m'
  pub at : PlaceAt live' m' p'
  pub others : (k : ℕ) → 0 < o k → IsSame live live' m m' k
  pub alone : (k : ℕ) → o k + owns k p' ≤ 1

module _ {live : ℕ → Bool} {m : MemoryPool} (o : ℕ → ℕ) (v : IsValid live m)
    (f : (k : ℕ) → 0 < o k → IsFresh live m k) where
  others-not-free : (i k : ℕ) → mem k (free_of m i) ≡ true → o k ≡ 0
  others-not-free i k q = elim (Bool-cases (ltb 0 (o k))) [
    | inl some_other ↦
        let fresh_k = f k (ground (arith, some_other)) in
        absurd (ground (arith, fresh_k.not_free i, q))
    | inr none_other ↦ ground (arith, none_other)
  ]

  others-not-live : (k : ℕ) → live k ≡ true → o k ≡ 0
  others-not-live k l = elim (Bool-cases (ltb 0 (o k))) [
    | inl some_other ↦
        let fresh_k = f k (ground (arith, some_other)) in
        absurd (ground (arith, fresh_k.not_live, l))
    | inr none_other ↦ ground (arith, none_other)
  ]

  deallocates-Acted :
      (h : ℕ) (extra : ℤ)
      → live h ≡ true
      → ((k : ℕ) → o k ≤ 1)
      → Acted o live (update live h false) m m (inside (marks h extra))
  deallocates-Acted h extra l few =
      let w = others-not-live h l in
      record {
        valid = record {
          table = v.table;
          clear = v.clear;
          placed = v.placed;
          distinct = v.distinct;
          apart = v.apart;
          sized = λ a q. ground (arith, v.sized a);
          live_placed = λ a q. ground (arith, v.live_placed a);
        };
        at = (
          record {
            place = v.live_placed h l;
            not_free = λ i. live-not-free i h v l;
            not_live = ground arith;
          },
          v.sized h l,
        );
        others = λ k q. record { free = λ j r. r; lives = ground (arith, w, q); size = refl };
        alone = λ k. ground (arith, w, few k);
      }

  returns-Acted :
      (h : ℕ)
      → IsFresh live m h
      → IsServed (size_of m h)
      → o h ≡ 0
      → ((k : ℕ) → o k ≤ 1)
      → Acted o live (update live h true) m m outside
  returns-Acted h g s w few = record {
    valid = record {
      table = v.table;
      clear = v.clear;
      placed = v.placed;
      distinct = v.distinct;
      apart = v.apart;
      sized = λ a q. elim (Bool-cases (a == h)) [
        | inl e ↦ subst (λ k. IsServed (size_of m k)) {x = h} (ground (arith, e)) s
        | inr e ↦ v.sized a (ground (arith, e, q))
      ];
      live_placed = λ a q. ground (arith, v.live_placed a, g.place);
    };
    at = tt;
    others = λ k q. record { free = λ j r. r; lives = ground (arith, w, q); size = refl };
    alone = λ k. omega (arith, few k);
  }

  accesses-Acted :
      (block : ℕ) (l : Local) {l' : Local} {m' : MemoryPool}
      → (asks l ≡ true → IsFresh live m block × (o block ≡ 0))
      → access block l m ≡ done (l', m')
      → At live m l
      → ((k : ℕ) → o k + has k l ≤ 1)
      → Acted o live live m m' (inside l')
  accesses-Acted block l {l'} new e a few =
      let kept =
        Returns-done (λ r. Kept block live m r.1 l r.0) (access block l m) e
          (access-Kept block l v a (λ q. (new q).0)) in
      record {
        valid = kept.valid;
        at = kept.at;
        others = λ k q. kept.others k (omega (arith, few k, q));
        alone = λ k. elim (Bool-cases (ltb 0 (has k l'))) [
          | inr none_had ↦ ground (arith, none_had, few k)
          | inl had ↦ elim (kept.gained k (ground (arith, had))) [
            | inl before ↦ omega (arith, before, few k, has-le k l')
            | inr (inl (i, q)) ↦ omega (arith, others-not-free i k q, has-le k l')
            | inr (inr (q, same)) ↦
                let none_other : o k ≡ 0 = rw same (new q).1 in
                omega (arith, none_other, has-le k l')
          ]
        ];
      }

Act-Acted :
    {live live' : ℕ → Bool} {m m' : MemoryPool} {p p' : Place} (o : ℕ → ℕ)
    → Act o live m p live' m' p'
    → IsValid live m
    → PlaceAt live m p
    → ((k : ℕ) → 0 < o k → IsFresh live m k)
    → ((k : ℕ) → o k + owns k p ≤ 1)
    → Acted o live live' m m' p'
Act-Acted o (allocates size served small) v a f few = record {
  valid = v;
  at = served;
  others = λ k q. record { free = λ j r. r; lives = refl; size = refl };
  alone = few;
}
Act-Acted o (deallocates ptr extra l) v a f few =
    deallocates-Acted o v f (detach_mem_alloc_info ptr) extra l (λ k. omega (arith, few k))
Act-Acted o (accesses block {l} new e) v a f few = accesses-Acted o v f block l new e a few
Act-Acted o (returns ptr) v (g, served) f few =
    returns-Acted o v f (detach_mem_alloc_info ptr) g served
      (ground (arith, few (detach_mem_alloc_info ptr))) (λ k. omega (arith, few k))
Act-Acted o ends v a f few = record {
  valid = v;
  at = tt;
  others = λ k q. record { free = λ j r. r; lives = refl; size = refl };
  alone = few;
}

record Inv (s : System) : Type 0 where
  pub valid : IsValid s.live s.pool
  pub at : AllAt s.live s.pool s.threads
  pub apart : (k : ℕ) → total (owns k) s.threads ≤ 1

-- What the others rely on, of those before and after a thread.
others-IsFresh :
    {live : ℕ → Bool} {m : MemoryPool} (before after : List Place)
    → AllAt live m before
    → AllAt live m after
    → (k : ℕ) → 0 < total (owns k) before + total (owns k) after
    → IsFresh live m k
others-IsFresh before after xs zs k h = elim (Bool-cases (ltb 0 (total (owns k) before))) [
  | inl own ↦ all-IsFresh k before (ground (arith, own)) xs
  | inr other ↦ all-IsFresh k after (ground (arith, other, h)) zs
]

Step-Inv : {s t : System} → Step s t → Inv s → Inv t
Step-Inv (step before after {live} {live'} {m} {m'} {p} {p'} act) v =
    let (xs, y, zs) = AllAt-middle live m before after p v.at in
    let a =
      Act-Acted (λ k. total (owns k) before + total (owns k) after) act v.valid y
        (others-IsFresh before after xs zs)
        (λ k. omega (arith, v.apart k, total-middle (owns k) before p after)) in
    record {
      valid = a.valid;
      at =
          AllAt-append live' m' before after p'
            (all_same before (λ k h. a.others k (omega (arith, h))) xs) a.at
            (all_same after (λ k h. a.others k (omega (arith, h))) zs);
      apart = λ k. omega (arith, a.alone k, total-middle (owns k) before p' after);
    }

replicate-AllAt : (live : ℕ → Bool) (m : MemoryPool) (n : ℕ) → AllAt live m (replicate n outside)
replicate-AllAt live m zero = tt
replicate-AllAt live m (suc n) = (tt, replicate-AllAt live m n)

Reach-Inv :
    (n : ℕ) {m : MemoryPool} {s : System} → IsValid (λ _. false) m → Reach (fresh n m) s → Inv s
Reach-Inv n {m} v here = record {
  valid = v;
  at = replicate-AllAt (λ _. false) m n;
  apart = λ k. omega (arith, total-replicate (owns k) n outside refl);
}
Reach-Inv n v (next r st) = Step-Inv st (Reach-Inv n v r)

-- The next access of every thread returns, whatever block `_aligned_malloc` gives.
abbrev pub NoneCrashes : MemoryPool → List Place → Type 0
NoneCrashes m [] = Unit {0}
NoneCrashes m (outside ∷ ps) = NoneCrashes m ps
NoneCrashes m (inside l ∷ ps) =
    ((block : ℕ) → Returns (λ _. Unit) (access block l m)) × NoneCrashes m ps

AllAt-NoneCrashes :
    (live : ℕ → Bool) (m : MemoryPool) (ps : List Place)
    → IsValid live m
    → AllAt live m ps
    → NoneCrashes m ps
AllAt-NoneCrashes live m [] v a = tt
AllAt-NoneCrashes live m (outside ∷ ps) v (a, rest) = AllAt-NoneCrashes live m ps v rest
AllAt-NoneCrashes live m (inside l ∷ ps) v (a, rest) =
    (λ block. access-Returns block l v a, AllAt-NoneCrashes live m ps v rest)

-- The owners of a block: threads in the middle of a call, clients, and each free list.
abbrev pub owners : System → ℕ → ℕ → ℕ
owners s i k =
    total (owns k) s.threads
    + (if s.live k then 1 else 0)
    + (if mem k (free_of s.pool i) then 1 else 0)

one_owner : {s : System} → Inv s → (i k : ℕ) → owners s i k ≤ 1
one_owner {s} v i k = elim (Bool-cases (ltb 0 (total (owns k) s.threads))) [
  | inl own ↦
      let f = all-IsFresh k s.threads (ground (arith, own)) v.at in
      ground (arith, v.apart k, f.not_live, f.not_free i)
  | inr none_own ↦ ground (arith, none_own, live-not-free i k v.valid)
]

-- On any number of threads that use a new pool, without a lock, at any moment of any interleaving
-- of their accesses, where clients ask for sizes that the pool serves and give back blocks that
-- they hold, and `_aligned_malloc` returns blocks that nobody has: the next access of no thread
-- fails an assertion or goes through null; the pool is well formed, with what the clients hold in
-- use; and of each block there is at most one owner among the threads that are in the middle of a
-- call, the clients, and any free list.
pub interleaved_safe :
    (headers : Headers) (n : ℕ) {m : MemoryPool} {s : System}
    → construct 32 headers ≡ some m
    → Reach (fresh n m) s
    → NoneCrashes s.pool s.threads × IsValid s.live s.pool × ((i k : ℕ) → owners s i k ≤ 1)
interleaved_safe headers n {m} {s} e r =
    let (m', built, valid, _) = construct-IsValid 32 headers (omega arith) in
    let same : m' ≡ m = ground (arith, e, built) in
    let v = Reach-Inv n (subst (IsValid (λ _. false)) same valid) r in
    (AllAt-NoneCrashes s.live s.pool s.threads v.valid v.at, v.valid, one_owner v)
