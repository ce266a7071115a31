-- ===== src/MemoryPool/Tests.antt =====
-- MemoryPool.hpp on concrete pools.
use windows_iocp_network.Base.{
  ℕ, ◌≤◌, ◌<◌, ◌≡◌, ◌↔◌, refl, Bool, true, false, none, some, [], arith, ◌⊎◌, Returns, pos, negsuc,
}
use windows_iocp_network.MemoryPool.{
  PoolTable, MemoryPool, update, new_pool, build_table, allocate, deallocate, detach_mem_alloc_info,
  construct,
}
use windows_iocp_network.MemoryPool.Table.{
  size_class, build_table_lem, size_class_bounds, size_class-eq-none,
}
use windows_iocp_network.MemoryPool.Inv.{free_of, IsValid, IsFresh, construct-IsValid}
use windows_iocp_network.MemoryPool.Allocate.{Allocated, allocate-Allocated}
use windows_iocp_network.MemoryPool.Deallocate.{deallocate-IsValid}
use windows_iocp_network.MemoryPool.Reuse.{allocate_reuses}

-- A new pool, and one of whose blocks, at 4096, a client holds: 84 bytes behind a header.
abbrev empty : MemoryPool
empty = record {
  table = size_class;
  pools = new_pool;
  headers = λ _. record { alloc_size = 0; extra_info = pos 0 };
  freed = [];
  given = λ _. 0;
}

abbrev held : MemoryPool
held = record empty {
  headers = update empty.headers 4096 (record { alloc_size = 100; extra_info = negsuc 0 });
}

abbrev live : ℕ → Bool
live = update (λ _. false) 4096 true

empty-IsValid : IsValid (λ _. false) empty
empty-IsValid = record {
  table = λ n. refl;
  clear = λ i a q. cc;
  placed = λ i a q. cc;
  distinct = λ i. tt;
  apart = λ i j a q. cc;
  sized = λ a q. cc;
  live_placed = λ a q. cc;
}

held-IsValid : IsValid live held
held-IsValid = record {
  table = λ n. refl;
  clear = λ i a q. cc;
  placed = λ i a q. cc;
  distinct = λ i. tt;
  apart = λ i j a q. cc;
  sized = λ a q. ground arith;
  live_placed = λ a q. ground arith;
}

IsFresh-empty : IsFresh (λ _. false) empty 4096
IsFresh-empty = record { place = omega arith; not_free = λ i. refl; not_live = refl }

-- A request of 84 bytes gets the block of 128 bytes: the header takes 16.
pool_of_100 : size_class 100 ≡ some 128
pool_of_100 = refl

build_table_lem_example :
    (t : PoolTable) × (build_table 32 ≡ some (3840, t)) × ((n : ℕ) → t n ≡ size_class n)
build_table_lem_example = build_table_lem 32 (omega arith)

construct-IsValid_example :
    (m : MemoryPool) × (construct 40 empty.headers ≡ some m)
    × IsValid (λ _. false) m
    × ((i : ℕ) → free_of m i ≡ [])
construct-IsValid_example = construct-IsValid 40 empty.headers (omega arith)

size_class_bounds_example :
    (0 < 100)
    × (100 ≤ 128)
    × (128 ≤ 3840)
    × (128 ≤ 992 → 128 < 132)
    × (128 ≤ 1920 → 128 < 228)
    × (128 < 356)
size_class_bounds_example = size_class_bounds 100 128 refl

size_class-eq-none_example : (size_class 4000 ≡ none) ↔ ((◌≡◌ {A = ℕ} 4000 0) ⊎ (3840 < 4000))
size_class-eq-none_example = size_class-eq-none 4000

allocate-Allocated_example :
    Returns
      (λ (r : ℕ × MemoryPool). Allocated (λ _. false) empty 84 r.0 r.1)
      (allocate 84 4096 empty)
allocate-Allocated_example =
    allocate-Allocated 84 4096 empty-IsValid IsFresh-empty (omega arith) (omega arith)

deallocate-IsValid_example :
    Returns
      (IsValid (update live (detach_mem_alloc_info 4112) false))
      (deallocate 4112 (pos 84) held)
deallocate-IsValid_example = deallocate-IsValid 4112 (pos 84) held-IsValid refl

allocate_reuses_example :
    Returns
      (λ m. Returns (λ (r : ℕ × MemoryPool). r.0 ≡ 4112) (allocate 110 0 m))
      (deallocate 4112 (pos 84) held)
allocate_reuses_example =
    allocate_reuses 4112 110 0 (pos 84) held-IsValid refl (omega arith) (omega arith) (omega arith)
      refl
