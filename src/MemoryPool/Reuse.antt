-- ===== src/MemoryPool/Reuse.antt =====
-- MemoryPool.hpp over two calls: double frees, reuse, and the sizes that no pool serves.
use windows_iocp_network.Base.{
  ℕ, ◌+◌, ◌≤◌, ◌<◌, ◌≡◌, refl, sym, ◌∙◌, Bool, true, false, none, some, arith, ltb, ◌==◌,
  Bool-cases, Option-cases, inl, inr, crash, assertion, null_access, Returns, word_mod, long_limit,
  ℤ, add_size,
}
use windows_iocp_network.MemoryPool.{
  MemoryPool, update, header_size, max_alloc_size, detach_mem_alloc_info, allocate, deallocate,
}
use windows_iocp_network.MemoryPool.Table.{size_class, size_class-eq-none, size_class_bounds}
use windows_iocp_network.MemoryPool.Inv.{size_of, IsValid}
use windows_iocp_network.MemoryPool.Allocate.{attach_lem}

-- In a well-formed pool, requests whose block would have 3841 to 4096 bytes with the header
-- dereference a null entry of the table.
pub allocate_gap :
    {live : ℕ → Bool} {m : MemoryPool} (size block : ℕ)
    → IsValid live m
    → 3840 < size + header_size
    → size + header_size ≤ max_alloc_size
    → allocate size block m ≡ crash null_access
unfolding allocate
allocate_gap {live} {m} size block v above below =
    let real : add_size size header_size ≡ size + header_size = omega arith in
    let fits : ltb (size + header_size) long_limit ≡ true = ground arith in
    let pooled : ltb max_alloc_size (size + header_size) ≡ false = ground arith in
    let no_pool : size_class (size + header_size) ≡ none =
      (size_class-eq-none (size + header_size)).1 (inr above) in
    rw (real, fits, pooled, v.table (size + header_size), no_pool)

-- In a well-formed pool, a second `Deallocate` in a row of a block that was in use fails the
-- assertion.
pub deallocate_twice :
    {live : ℕ → Bool} {m : MemoryPool} (ptr : ℕ) (extra extra' : ℤ)
    → IsValid live m
    → live (detach_mem_alloc_info ptr) ≡ true
    → Returns (λ m'. deallocate ptr extra' m' ≡ crash assertion) (deallocate ptr extra m)
unfolding deallocate
deallocate_twice {live} {m} ptr extra extra' v l =
    let h = detach_mem_alloc_info ptr in
    let positive : ltb 0 (size_of m h) ≡ true = ground (arith, v.sized h) in
    let self : (h == h) ≡ true = ground arith in
    elim (Bool-cases (ltb max_alloc_size (size_of m h))) [
      | inl big ↦ rw (positive, big, self) refl
      | inr pooled ↦ elim (Option-cases (size_class (size_of m h))) [
        | inl no_pool ↦
            absurd (ground (arith, v.sized h, (size_class-eq-none (size_of m h)).0 no_pool))
        | inr (i, e) ↦ rw (positive, pooled, v.table (size_of m h), e, self) refl
      ]
    ]

-- In a well-formed pool, when a block in use is given back, the next request of its size class, of
-- at most 3840 bytes with the header, returns the same address.
pub allocate_reuses :
    {live : ℕ → Bool} {m : MemoryPool} (ptr size block : ℕ) (extra : ℤ)
    → IsValid live m
    → live (detach_mem_alloc_info ptr) ≡ true
    → header_size < ptr
    → ptr < word_mod
    → size + header_size ≤ 3840
    → size_class (size + header_size) ≡ size_class (size_of m (detach_mem_alloc_info ptr))
    → Returns (λ m'. Returns (λ r. r.0 ≡ ptr) (allocate size block m')) (deallocate ptr extra m)
unfolding deallocate allocate
allocate_reuses {live} {m} ptr size block extra v l not_null bounded fits same =
    let h = detach_mem_alloc_info ptr in
    let back : h + header_size ≡ ptr = omega arith in
    let positive : ltb 0 (size_of m h) ≡ true = ground (arith, v.sized h) in
    let self : (h == h) ≡ true = ground arith in
    let real : add_size size header_size ≡ size + header_size = omega arith in
    let small : ltb (size + header_size) long_limit ≡ true = ground arith in
    let pooled : ltb max_alloc_size (size + header_size) ≡ false = ground arith in
    elim (Option-cases (size_class (size + header_size))) [
      | inl no_pool ↦ absurd (ground (arith, (size_class-eq-none (size + header_size)).0 no_pool))
      | inr (i, e) ↦
          let e' : size_class (size_of m h) ≡ some i = sym same ∙ e in
          let freed_small : ltb max_alloc_size (size_of m h) ≡ false =
            ground (arith, size_class_bounds (size_of m h) i e') in
          let itself : (i == i) ≡ true = ground arith in
          rw
            (
              positive,
              freed_small,
              v.table (size_of m h),
              e',
              real,
              small,
              pooled,
              v.table (size + header_size),
              e,
              itself,
              self,
            )
            (rw
              (attach_lem h (size + header_size)
                (update m.headers h (record { alloc_size = 0; extra_info = extra }))
                (v.live_placed h l).0)
              back)
    ]
