-- ===== src/StlAllocator/Roundtrip.antt =====
-- What the allocator of XTL.hpp takes from the memory pool, it gives back.
use mathlib.Core.Path.{fun_ext}
use windows_iocp_network.Base.{
  ℕ, ◌+◌, ◌*◌, ◌%◌, ◌<◌, ◌≡◌, subst, Bool, true, false, arith, long_limit, word_mod, negsuc,
  Returns, Returns-map,
}
use windows_iocp_network.MemoryPool
use windows_iocp_network.MemoryPool.{MemoryPool, header_size, detach_mem_alloc_info, update}
use windows_iocp_network.MemoryPool.Inv.{IsValid, IsFresh, IsServed, size_of}
use windows_iocp_network.MemoryPool.Allocate.{Allocated, allocate-Allocated}
use windows_iocp_network.MemoryPool.Deallocate.{deallocate-IsValid}
use windows_iocp_network.StlAllocator.{allocate, deallocate}

update_back :
    (live : ℕ → Bool) (h : ℕ) → live h ≡ false → update (update live h true) h false ≡ live
update_back live h free = fun_ext (λ k. ground (arith, free))

-- In a well-formed pool, room for `n` elements that the pool serves is handed out with at least
-- that size, and `deallocate` of it makes the pool well formed with the same blocks in use as
-- before.
pub deallocate-allocate :
    {live : ℕ → Bool} {m : MemoryPool} (element n block : ℕ)
    → IsValid live m
    → IsFresh live m block
    → IsServed (n * element + header_size)
    → n * element + header_size < long_limit
    → Returns
        (λ r.
          (size_of r.1 (detach_mem_alloc_info r.0) ≡ n * element + header_size)
          × Returns (IsValid live) (deallocate r.0 n r.1))
        (allocate element n block m)
unfolding allocate deallocate
deallocate-allocate {live} {m} element n block v f s l =
    let size : n * element % word_mod ≡ n * element = omega (arith, l) in
    rw size (
      Returns-map (λ r. Allocated live m (n * element) r.0 r.1) _
        (MemoryPool.allocate (n * element) block m)
        (λ r a.
          let h = detach_mem_alloc_info r.0 in
          let in_use : update live h true h ≡ true = ground arith in
          (
            a.header,
            subst (λ c. Returns (IsValid c) (MemoryPool.deallocate r.0 (negsuc 1598) r.1))
                (update_back live h a.was_free)
                (deallocate-IsValid r.0 (negsuc 1598) a.valid in_use),
          ))
        (allocate-Allocated (n * element) block v f s l))
