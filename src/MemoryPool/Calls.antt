-- ===== src/MemoryPool/Calls.antt =====
-- What one call of `Allocate` or `Deallocate` does to the free lists and the recorded sizes.
use windows_iocp_network.Base.{
  ℕ, ◌+◌, ◌<◌, ◌≡◌, refl, ap, Bool, true, ◌&&◌, none, some, arith, ltb, ◌==◌, if◌then◌else◌, ◌⊎◌,
  inl, inr, Bool-cases, Option-cases, List-cases, mem, Outcome, done, crash, ◌>>=◌, Returns,
  long_limit, ℤ, add_size,
}
use windows_iocp_network.MemoryPool.{
  MemoryPool, header_size, max_alloc_size, detach_mem_alloc_info, pop_block, get_block, finish,
  allocate, deallocate, push,
}
use windows_iocp_network.MemoryPool.Table.{size_class, size_class_bounds, size_class-eq-none}
use windows_iocp_network.MemoryPool.Inv.{free_of, size_of, IsServed, IsValid, IsFresh, Took}
use windows_iocp_network.MemoryPool.Allocate.{attach_lem, get_block-Took}

-- How many bytes `_aligned_malloc` is asked for: a pool's `mAllocSize`, or what `Allocate` needs.
abbrev pub requested : MemoryPool → ℕ → ℕ
requested m real = elim (size_class real) [ none ↦ real | some i ↦ (m.pools i).alloc_size ]

-- A header that a call took: the new block's, or one from the free list of the size's class.
pub record Taken (real block : ℕ) (m : MemoryPool) (h : ℕ) (m' : MemoryPool) : Type 0 where
  pub shrinks : (j k : ℕ) → mem k (free_of m' j) ≡ true → mem k (free_of m j) ≡ true
  pub headers : m'.headers ≡ m.headers
  pub kinds : (j : ℕ) → (m'.pools j).alloc_size ≡ (m.pools j).alloc_size
  pub given :
      ((h ≡ block) × ((k : ℕ) → m'.given k ≡ (if k == h then requested m real else m.given k)))
      ⊎ (((i : ℕ) × (size_class real ≡ some i) × (mem h (free_of m i) ≡ true))
          × (m'.given ≡ m.given))

pop_block-Taken :
    {live : ℕ → Bool} {m : MemoryPool} (real block i : ℕ)
    → IsValid live m
    → size_class real ≡ some i
    → Returns (λ r. Taken real block m r.0 r.1) (pop_block real block m (some i))
unfolding pop_block
pop_block-Taken {live} {m} real block i v e = elim (List-cases (free_of m i)) [
  | inl l ↦ rw l (record {
    shrinks = λ j k q. ground (arith, l);
    headers = refl;
    kinds = λ j. ground arith;
    given = inl (refl, λ k. ground (arith, e));
  })
  | inr (h, rest, l) ↦
      rw (l, v.clear i h (rw l (ground arith)))
        (record {
          shrinks = λ j k q. ground (arith, l);
          headers = refl;
          kinds = λ j. ground arith;
          given = inr ((i, e, rw l (ground arith)), refl);
        })
]

get_block-Taken :
    {live : ℕ → Bool} {m : MemoryPool} (real block : ℕ)
    → IsValid live m
    → IsServed real
    → Returns (λ r. Taken real block m r.0 r.1) (get_block real block m)
unfolding get_block
get_block-Taken {live} {m} real block v s = elim (Bool-cases (ltb max_alloc_size real)) [
  | inl big ↦
      let none_serves : size_class real ≡ none = elim (Option-cases (size_class real)) [
        | inl e ↦ e
        | inr (i, e) ↦ absurd (ground (arith, size_class_bounds real i e))
      ] in
      rw big (record {
        shrinks = λ j k q. q;
        headers = refl;
        kinds = λ j. refl;
        given = inl (refl, λ k. rw (requested, none_serves) refl);
      })
  | inr pooled ↦ elim (Option-cases (size_class real)) [
    | inl no_pool ↦ absurd (ground (arith, (size_class-eq-none real).0 no_pool))
    | inr (i, e) ↦ rw (pooled, v.table real, e) (pop_block-Taken real block i v e)
  ]
]

-- After a call of `Allocate` that returned `ptr`.
pub record AllocateCall (size block : ℕ) (m : MemoryPool) (ptr : ℕ) (m' : MemoryPool) : Type 0 where
  pub kinds : (j : ℕ) → (m'.pools j).alloc_size ≡ (m.pools j).alloc_size
  pub given :
      ((detach_mem_alloc_info ptr ≡ block)
        × ((k : ℕ)
            → m'.given k ≡ (
                if k == detach_mem_alloc_info ptr
                then requested m (size + header_size)
                else m.given k)))
      ⊎ (((i : ℕ) × (size_class (size + header_size) ≡ some i)
            × (mem (detach_mem_alloc_info ptr) (free_of m i) ≡ true))
          × (m'.given ≡ m.given))
  pub shrinks : (j k : ℕ) → mem k (free_of m' j) ≡ true → mem k (free_of m j) ≡ true
  pub sizes :
      (k : ℕ)
      → size_of m' k ≡ (if k == detach_mem_alloc_info ptr then size + header_size else size_of m k)

finish-AllocateCall :
    (live : ℕ → Bool) (m : MemoryPool) (size block : ℕ) (r : Outcome (ℕ × MemoryPool))
    → Returns (λ r. Taken (size + header_size) block m r.0 r.1) r
    → Returns (λ r. Took live r.0 r.1) r
    → Returns (λ r. AllocateCall size block m r.0 r.1) (r >>= finish (size + header_size))
unfolding finish
finish-AllocateCall live m size block (crash e) t f = t
finish-AllocateCall live m size block (done (h, m')) t (v, f) =
    let here : detach_mem_alloc_info (h + header_size) ≡ h = omega (arith, f.place) in
    rw (attach_lem h (size + header_size) m'.headers f.place.0) (record {
      kinds = t.kinds;
      given = rw here t.given;
      shrinks = t.shrinks;
      sizes = λ k. rw here (ground (arith, ap (λ g. (g k).alloc_size) t.headers));
    })

pub allocate-AllocateCall :
    {live : ℕ → Bool} {m : MemoryPool} (size block : ℕ)
    → IsValid live m
    → IsFresh live m block
    → IsServed (size + header_size)
    → size + header_size < long_limit
    → Returns (λ r. AllocateCall size block m r.0 r.1) (allocate size block m)
unfolding allocate
allocate-AllocateCall {live} {m} size block v f s small =
    let real : add_size size header_size ≡ size + header_size = omega arith in
    let fits : ltb (size + header_size) long_limit ≡ true = ground arith in
    rw (real, fits)
      (finish-AllocateCall live m size block (get_block (size + header_size) block m)
        (get_block-Taken (size + header_size) block v s)
        (get_block-Took (size + header_size) block v f s))

-- After a call of `Deallocate` that returned: the header may have joined the list of its class.
pub record DeallocateCall (h : ℕ) (m m' : MemoryPool) : Type 0 where
  pub joins :
      (j k : ℕ)
      → mem k (free_of m' j) ≡ true
      → (mem k (free_of m j) ≡ true) ⊎ ((k ≡ h) × (size_class (size_of m h) ≡ some j))
  pub sizes : (k : ℕ) → size_of m' k ≡ (if k == h then 0 else size_of m k)
  pub kinds : (j : ℕ) → (m'.pools j).alloc_size ≡ (m.pools j).alloc_size
  pub given :
      (k : ℕ) → m'.given k ≡ (if (k == h) && ltb max_alloc_size (size_of m h) then 0 else m.given k)

pub deallocate-DeallocateCall :
    {live : ℕ → Bool} {m : MemoryPool} (ptr : ℕ) (extra : ℤ)
    → IsValid live m
    → live (detach_mem_alloc_info ptr) ≡ true
    → Returns (DeallocateCall (detach_mem_alloc_info ptr) m) (deallocate ptr extra m)
unfolding deallocate push
deallocate-DeallocateCall {live} {m} ptr extra v l =
    let h = detach_mem_alloc_info ptr in
    let (positive, served) = v.sized h l in
    let asserted : ltb 0 (size_of m h) ≡ true = ground arith in
    elim (Bool-cases (ltb max_alloc_size (size_of m h))) [
      | inl big ↦
          rw (asserted, big)
            (record {
              joins = λ j k q. inl q;
              sizes = λ k. ground arith;
              kinds = λ j. refl;
              given = λ k. ground (arith, big);
            })
      | inr pooled ↦ elim (Option-cases (size_class (size_of m h))) [
        | inl no_pool ↦ absurd (ground (arith, (size_class-eq-none (size_of m h)).0 no_pool))
        | inr (i, e) ↦
            rw (asserted, pooled, v.table (size_of m h), e)
              (record {
                joins = λ j k q. ground arith;
                sizes = λ k. ground arith;
                kinds = λ j. ground arith;
                given = λ k. ground (arith, pooled);
              })
      ]
    ]
