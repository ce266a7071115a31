-- ===== src/MemoryPool/Extents/Tests.antt =====
-- MemoryPool.hpp: two allocations on a new pool.
use windows_iocp_network.Base.{
  ℕ, ◌+◌, ◌≤◌, ◌≡◌, refl, Option, none, some, [], arith, ◌⊎◌, inl, done, crash, pos,
}
use windows_iocp_network.MemoryPool.{
  MemoryPool, Headers, new_pool, build_table, construct, allocate,
}
use windows_iocp_network.MemoryPool.Extents.{
  Heap, Reach, here, next, allocates, unused, after_allocate, IsNew, no_overlap,
}

abbrev zeros : Headers
zeros k = record { alloc_size = 0; extra_info = pos 0 }

abbrev from_some : Option MemoryPool → MemoryPool
from_some none = record {
  table = λ _. none;
  pools = new_pool;
  headers = zeros;
  freed = [];
  given = λ _. 0;
}
from_some (some m) = m

abbrev built : MemoryPool
unfolding construct build_table
built = from_some (construct 32 zeros)

built_lem : construct 32 zeros ≡ some built
unfolding construct build_table
built_lem = refl

abbrev pool_of : ℕ → ℕ → MemoryPool → MemoryPool
unfolding allocate
pool_of size block m = elim (allocate size block m) [ done r ↦ r.1 | crash e ↦ m ]

first_lem : allocate 84 4096 built ≡ done (4112, pool_of 84 4096 built)
unfolding allocate construct build_table
first_lem = refl

abbrev second : MemoryPool
second = pool_of 84 8192 (pool_of 84 4096 built)

abbrev one_block : Heap
one_block = after_allocate 84 4112 (pool_of 84 4096 built) (unused built)

second_lem : allocate 84 8192 (pool_of 84 4096 built) ≡ done (8208, second)
unfolding allocate construct build_table
second_lem = refl

one-IsNew : IsNew (unused built) 4096 ((pool_of 84 4096 built).given 4096)
unfolding built pool_of
one-IsNew = record { place = omega arith; not_given = refl; apart = λ k p. absurd (omega arith) }

two-IsNew : IsNew one_block 8192 (second.given 8192)
unfolding pool_of built
two-IsNew = record { place = omega arith; not_given = refl; apart = λ k p. ground arith }

-- Both clients hold 84 bytes behind a header.
two_blocks : Reach (unused built) (after_allocate 84 8208 second one_block)
two_blocks =
    next
      (next here
        (allocates 84 4096 (omega arith, inl (omega arith)) (omega arith) first_lem one-IsNew))
      (allocates 84 8192 (omega arith, inl (omega arith)) (omega arith) second_lem two-IsNew)

no_overlap_example : (4096 + 100 ≤ 8192) ⊎ (8192 + 100 ≤ 4096)
no_overlap_example =
    no_overlap zeros built_lem two_blocks 4096 8192 refl refl (λ e. absurd (omega (arith, e)))
