-- ===== src/MemoryPool/Deallocate.antt =====
-- `Deallocate` of MemoryPool.hpp: the block goes back to a free list, once.
use windows_iocp_network.Base.{
  ℕ, ◌≡◌, Bool, true, false, ◌∷◌, arith, ltb, Bool-cases, Option-cases, inl, inr, mem, Returns, ℤ,
}
use windows_iocp_network.MemoryPool.{
  MemoryPool, Given, update, max_alloc_size, detach_mem_alloc_info, push, deallocate,
}
use windows_iocp_network.MemoryPool.Table.{size_class, size_class-eq-none}
use windows_iocp_network.MemoryPool.Inv.{free_of, size_of, IsValid, IsFresh, Took}

freed-IsValid :
    {live : ℕ → Bool} {m : MemoryPool} (h : ℕ) (given : Given)
    → IsValid live m
    → IsValid live (record m { freed = h ∷ m.freed; given = given })
freed-IsValid h given v = record {
  table = v.table;
  clear = v.clear;
  placed = v.placed;
  distinct = v.distinct;
  apart = v.apart;
  sized = v.sized;
  live_placed = v.live_placed;
}

-- A block that a client holds is on no free list.
pub live-not-free :
    {live : ℕ → Bool} {m : MemoryPool} (i h : ℕ)
    → IsValid live m
    → live h ≡ true
    → mem h (free_of m i) ≡ false
live-not-free i h v l = ground (arith, v.clear i h, v.sized h)

clear_header-IsValid :
    {live : ℕ → Bool} {m : MemoryPool} (h : ℕ) (extra : ℤ)
    → IsValid live m
    → live h ≡ true
    → IsValid
        (update live h false)
        (record m { headers = update m.headers h (record { alloc_size = 0; extra_info = extra }) })
clear_header-IsValid {live} {m} h extra v l = record {
  table = v.table;
  clear = λ j a q. ground (arith, v.clear j a);
  placed = v.placed;
  distinct = v.distinct;
  apart = v.apart;
  sized = λ a q. ground (arith, v.sized a);
  live_placed = λ a q. ground (arith, v.live_placed a);
}

-- A cleared block that nobody has joins a free list.
pub put_first :
    {live : ℕ → Bool} {m : MemoryPool} (i h : ℕ) (count : ℤ)
    → Took live h m
    → size_of m h ≡ 0
    → IsValid live (record m {
      pools =
          update m.pools i
            (record (m.pools i) { free_list = h ∷ free_of m i; alloc_count = count });
    })
put_first {live} {m} i h count (v, f) e = record {
  table = v.table;
  clear = λ j a q. ground (arith, v.clear j a);
  placed = λ j a q. ground (arith, v.placed j a, f.place);
  distinct = λ j. ground (arith, v.distinct j, f.not_free j);
  apart = λ j k a p q. ground (arith, v.apart j k a, f.not_free j, f.not_free k);
  sized = v.sized;
  live_placed = v.live_placed;
}

-- In a well-formed pool, `Deallocate` of a block in use returns, and the pool is well formed with
-- this block no more in use.
pub deallocate-IsValid :
    {live : ℕ → Bool} {m : MemoryPool} (ptr : ℕ) (extra : ℤ)
    → IsValid live m
    → live (detach_mem_alloc_info ptr) ≡ true
    → Returns (IsValid (update live (detach_mem_alloc_info ptr) false)) (deallocate ptr extra m)
unfolding deallocate push
deallocate-IsValid {live} {m} ptr extra v l =
    let h = detach_mem_alloc_info ptr in
    let cleared = clear_header-IsValid h extra v l in
    let nobody : IsFresh (update live h false)
        (record m { headers = update m.headers h (record { alloc_size = 0; extra_info = extra }) })
        h =
      record {
        place = v.live_placed h l;
        not_free = λ i. live-not-free i h v l;
        not_live = ground arith;
      } in
    let (positive, served) = v.sized h l in
    let asserted : ltb 0 (size_of m h) ≡ true = ground arith in
    elim (Bool-cases (ltb max_alloc_size (size_of m h))) [
      | inl big ↦ rw (asserted, big) (freed-IsValid h _ cleared)
      | inr pooled ↦ elim (Option-cases (size_class (size_of m h))) [
        | inl no_pool ↦ absurd (ground (arith, (size_class-eq-none (size_of m h)).0 no_pool))
        | inr (i, e) ↦
            rw (asserted, pooled, v.table (size_of m h), e)
              (put_first i h _ (cleared, nobody) (ground arith))
      ]
    ]
