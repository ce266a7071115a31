-- ===== src/MemoryPool/Allocate.antt =====
-- `Allocate` of MemoryPool.hpp: it returns, and what it hands out was nobody's.
use windows_iocp_network.Base.{
  ℕ, zero, suc, ◌+◌, ◌<◌, ◌≡◌, refl, Bool, true, false, some, List, [], ◌∷◌, arith, ltb, Bool-cases,
  Option-cases, List-cases, inl, inr, mem, Outcome, done, crash, ◌>>=◌, Returns, negsuc, long_limit,
  ℤ, add_size,
}
use windows_iocp_network.MemoryPool.{
  MemoryPool, Headers, update, header_size, max_alloc_size, detach_mem_alloc_info,
  attach_mem_alloc_info, pop_block, get_block, finish, allocate,
}
use windows_iocp_network.MemoryPool.Table.{size_class, size_class-eq-none}
use windows_iocp_network.MemoryPool.Inv.{
  free_of, size_of, IsServed, IsValid, IsFresh, Took, given-Took,
}

module _ {live : ℕ → Bool} {m : MemoryPool} (v : IsValid live m) where
  -- A free block is not live: its header says 0.
  pub free-not-live : (i h : ℕ) → mem h (free_of m i) ≡ true → live h ≡ false
  free-not-live i h q = ground (arith, v.clear i h, v.sized h)

  module _ (i : ℕ) (count : ℤ) where
    -- The pool `i` with another free list.
    abbrev pub with_list : List ℕ → MemoryPool
    with_list xs = record m {
      pools = update m.pools i (record (m.pools i) { free_list = xs; alloc_count = count });
    }

    -- The top of a free list leaves it.
    pub take_first : (h : ℕ) (rest : List ℕ) → free_of m i ≡ h ∷ rest → Took live h (with_list rest)
    take_first h rest e = (
      record {
        table = v.table;
        clear = λ j a q. ground (arith, v.clear j a);
        placed = λ j a q. ground (arith, v.placed j a);
        distinct = λ j. ground (arith, v.distinct j);
        apart = λ j k a p q. ground (arith, v.apart j k a);
        sized = v.sized;
        live_placed = v.live_placed;
      },
      record {
        place = ground (arith, v.placed i h);
        not_free = λ j. ground (arith, v.distinct i, v.apart i j h);
        not_live = ground (arith, free-not-live i h);
      },
    )

    -- A fresh block leaves the lists as they are.
    take_fresh : (h : ℕ) → free_of m i ≡ [] → IsFresh live m h → Took live h (with_list [])
    take_fresh h e f = (
      record {
        table = v.table;
        clear = λ j a q. ground (arith, v.clear j a);
        placed = λ j a q. ground (arith, v.placed j a);
        distinct = λ j. ground (arith, v.distinct j);
        apart = λ j k a p q. ground (arith, v.apart j k a);
        sized = v.sized;
        live_placed = v.live_placed;
      },
      record {
        place = f.place;
        not_free = λ j. ground (arith, f.not_free j);
        not_live = f.not_live;
      },
    )

  pop_block-Took :
      (real i block : ℕ)
      → IsFresh live m block
      → Returns (λ r. Took live r.0 r.1) (pop_block real block m (some i))
  unfolding pop_block
  pop_block-Took real i block f = elim (List-cases (free_of m i)) [
    | inl e ↦ rw e (given-Took block _ (take_fresh i _ block e f))
    | inr (h, rest, e) ↦ rw (e, v.clear i h (rw e (ground arith))) (take_first i _ h rest e)
  ]

-- The client gets the block.
attach-IsValid :
    {live : ℕ → Bool} {m : MemoryPool} (h real : ℕ) (extra : ℤ)
    → IsServed real
    → Took live h m
    → IsValid (update live h true) (record m {
      headers = update m.headers h (record { alloc_size = real; extra_info = extra });
    })
attach-IsValid {live} {m} h real extra s (v, f) = record {
  table = v.table;
  clear = λ j a q. ground (arith, v.clear j a, f.not_free j);
  placed = v.placed;
  distinct = v.distinct;
  apart = v.apart;
  sized = λ a q. ground (arith, v.sized a);
  live_placed = λ a q. ground (arith, v.live_placed a, f.place);
}

-- What a call of `Allocate` that returns has done: the pointer lies behind a header, the block was
-- nobody's, and now it is the client's.
pub record Allocated (live : ℕ → Bool) (m : MemoryPool) (size ptr : ℕ) (m' : MemoryPool)
    : Type 0 where
  pub not_null : header_size < ptr
  pub was_free : live (detach_mem_alloc_info ptr) ≡ false
  pub header : size_of m' (detach_mem_alloc_info ptr) ≡ size + header_size
  pub valid : IsValid (update live (detach_mem_alloc_info ptr) true) m'

pub attach_lem :
    (h real : ℕ) (hs : Headers)
    → 0 < h
    → attach_mem_alloc_info h real hs
      ≡ done (h + header_size, update hs h (record { alloc_size = real; extra_info = negsuc 0 }))
unfolding attach_mem_alloc_info
attach_lem zero real hs pos_h = absurd (omega arith)
attach_lem (suc h) real hs pos_h = refl

finish-Allocated :
    (live : ℕ → Bool) (m : MemoryPool) (size : ℕ) (r : Outcome (ℕ × MemoryPool))
    → IsServed (size + header_size)
    → Returns (λ r. Took live r.0 r.1) r
    → Returns (λ r. Allocated live m size r.0 r.1) (r >>= finish (size + header_size))
unfolding finish
finish-Allocated live m size (crash e) s t = t
finish-Allocated live m size (done (h, m')) s (v, f) =
    let here : detach_mem_alloc_info (h + header_size) ≡ h = omega (arith, f.place) in
    rw (attach_lem h (size + header_size) m'.headers f.place.0) (record {
      not_null = omega (arith, f.place);
      was_free = rw here f.not_live;
      header = ground (arith, here);
      valid = rw here (attach-IsValid h (size + header_size) (negsuc 0) s (v, f));
    })

pub get_block-Took :
    {live : ℕ → Bool} {m : MemoryPool} (real block : ℕ)
    → IsValid live m
    → IsFresh live m block
    → IsServed real
    → Returns (λ r. Took live r.0 r.1) (get_block real block m)
unfolding get_block
get_block-Took {live} {m} real block v f s = elim (Bool-cases (ltb max_alloc_size real)) [
  | inl big ↦ rw big (given-Took block _ (v, f))
  | inr pooled ↦ elim (Option-cases (size_class real)) [
    | inl no_pool ↦ absurd (ground (arith, (size_class-eq-none real).0 no_pool))
    | inr (i, e) ↦ rw (pooled, v.table real, e) (pop_block-Took v real i block f)
  ]
]

-- In a well-formed pool, `Allocate` of a size that is served, with a new block from
-- `_aligned_malloc` in case it asks for one, returns: the block was not in use, it is recorded with
-- its size, and the pool is well formed with this block in use too.
pub allocate-Allocated :
    {live : ℕ → Bool} {m : MemoryPool} (size block : ℕ)
    → IsValid live m
    → IsFresh live m block
    → IsServed (size + header_size)
    → size + header_size < long_limit
    → Returns (λ r. Allocated live m size r.0 r.1) (allocate size block m)
unfolding allocate
allocate-Allocated {live} {m} size block v f s small =
    let real : add_size size header_size ≡ size + header_size = omega arith in
    let fits : ltb (size + header_size) long_limit ≡ true = ground arith in
    rw (real, fits)
      (finish-Allocated live m size (get_block (size + header_size) block m) s
        (get_block-Took (size + header_size) block v f s))
