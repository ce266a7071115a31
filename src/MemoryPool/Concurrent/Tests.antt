-- ===== src/MemoryPool/Concurrent/Tests.antt =====
-- Two threads ask a new pool for 84 bytes each, both find the list of their size empty, and the
-- first gives its block back while the second has its own in hand.
use windows_iocp_network.Base.{
  ℕ, ◌≤◌, ◌≡◌, refl, Bool, true, false, Option, none, some, [], ◌∷◌, arith, inl, done, pos, negsuc,
}
use windows_iocp_network.MemoryPool.{
  MemoryPool, Headers, aligned_malloc, update, new_pool, build_table, construct,
  attach_mem_alloc_info,
}
use windows_iocp_network.MemoryPool.Inv.{IsValid, IsFresh}
use windows_iocp_network.MemoryPool.Concurrent.{
  Local, looks, pops, mallocs, counts, attaches, returned, marks, exchanges, access, asks, Place,
  outside, inside, System, allocates, deallocates, accesses, returns, step, Reach, here, next,
  fresh, with_count,
}
use windows_iocp_network.MemoryPool.Concurrent.Safe.{NoneCrashes, owners, interleaved_safe}

abbrev zeros : Headers
zeros k = record { alloc_size = 0; extra_info = pos 0 }

abbrev from_some : Option MemoryPool → MemoryPool
from_some none = record {
  table = λ _. none;
  pools = new_pool;
  headers = zeros;
  freed = [];
  given = λ _. 0;
}
from_some (some m) = m

abbrev built : MemoryPool
unfolding construct build_table
built = from_some (construct 32 zeros)

built_lem : construct 32 zeros ≡ some built
unfolding construct build_table
built_lem = refl

nobody : ℕ → Bool
nobody _ = false

abbrev Reached : (ℕ → Bool) → MemoryPool → Place → Place → Type 0
Reached live m p q = Reach (fresh 2 built) (record { live = live; pool = m; threads = p ∷ q ∷ [] })

first_moves :
    (live : ℕ → Bool) (m : MemoryPool) {m' : MemoryPool} (q : Place) (l l' : Local)
    → asks l ≡ false
    → access 0 l m ≡ done (l', m')
    → Reached live m (inside l) q
    → Reached live m' (inside l') q
first_moves live m q l l' a e r =
    next r (step [] (q ∷ []) (accesses 0 (λ h. ground (arith, a, h)) e))

second_moves :
    (live : ℕ → Bool) (m : MemoryPool) {m' : MemoryPool} (p : Place) (l l' : Local)
    → asks l ≡ false
    → access 0 l m ≡ done (l', m')
    → Reached live m p (inside l)
    → Reached live m' p (inside l')
second_moves live m p l l' a e r =
    next r (step (p ∷ []) [] (accesses 0 (λ h. ground (arith, a, h)) e))

-- Both have found the list empty.
both_ask : Reached (λ _. false) built (inside (mallocs 100 128)) (inside (mallocs 100 128))
unfolding access construct build_table
both_ask = second_moves _ _ _ (pops 100 128) (mallocs 100 128) refl refl (
    second_moves _ _ _ (looks 100) (pops 100 128) refl refl (
      first_moves _ _ _ (pops 100 128) (mallocs 100 128) refl refl (
        first_moves _ _ _ (looks 100) (pops 100 128) refl refl (
          next
            (next here (
              step [] (outside ∷ []) (allocates 84 (omega arith, inl (omega arith)) (omega arith))))
            (step (inside (looks 100) ∷ []) []
              (allocates 84 (omega arith, inl (omega arith)) (omega arith)))))))

first-IsFresh : IsFresh (λ _. false) built 4096
unfolding construct build_table
first-IsFresh = record { place = omega arith; not_free = λ i. refl; not_live = refl }

abbrev asked_once : MemoryPool
asked_once = record built { given = aligned_malloc 128 4096 built.given }

abbrev asked_twice : MemoryPool
asked_twice = record asked_once { given = aligned_malloc 128 8192 asked_once.given }

second-IsFresh : IsFresh (λ _. false) asked_once 8192
unfolding construct build_table
second-IsFresh = record { place = omega arith; not_free = λ i. refl; not_live = refl }

both_have :
    Reached (λ _. false) asked_twice (inside (counts 100 128 4096)) (inside (counts 100 128 8192))
unfolding access construct build_table
both_have =
    next
      (next both_ask
        (step [] (inside (mallocs 100 128) ∷ []) (accesses 4096 (λ h. (first-IsFresh, refl)) refl)))
      (step (inside (counts 100 128 4096) ∷ []) []
        (accesses 8192 (λ h. (second-IsFresh, refl)) refl))

abbrev used : MemoryPool
used = record (with_count asked_twice 128 (pos 1)) {
  headers = update zeros 4096 (record { alloc_size = 100; extra_info = negsuc 0 });
}

abbrev marked : MemoryPool
marked = record used {
  headers = update used.headers 4096 (record (used.headers 4096) { extra_info = pos 7 });
}

abbrev live_then_not : ℕ → Bool
live_then_not = update (update (λ _. false) 4096 true) 4096 false

gives_back : Reached live_then_not marked (inside (exchanges 4096)) (inside (counts 100 128 8192))
unfolding access construct build_table attach_mem_alloc_info
gives_back =
    let q = inside (counts 100 128 8192) in
    first_moves _ _ _ (marks 4096 (pos 7)) (exchanges 4096) refl refl (
      next
        (next
          (first_moves _ _ _ (attaches 100 4096) (returned 4112) refl refl
            (first_moves _ _ _ (counts 100 128 4096) (attaches 100 4096) refl refl both_have))
          (step [] (q ∷ []) (returns 4112)))
        (step [] (q ∷ []) (deallocates 4112 (pos 7) refl)))

abbrev in_between : System
in_between = record {
  live = live_then_not;
  pool = marked;
  threads = inside (exchanges 4096) ∷ inside (counts 100 128 8192) ∷ [];
}

interleaved_safe_example :
    NoneCrashes in_between.pool in_between.threads
    × IsValid in_between.live in_between.pool
    × ((i k : ℕ) → owners in_between i k ≤ 1)
interleaved_safe_example = interleaved_safe zeros 2 built_lem gives_back
