-- ===== src/MemoryPool/Concurrent.antt =====
-- MemoryPool.hpp on many threads: `Allocate` and `Deallocate` access by access. No lock guards
-- them: the free lists are interlocked lists, and the size in a header is taken by
-- `InterlockedExchange`.
pub mod Relies
pub mod Keeps
pub mod Threads
pub mod Safe
mod Tests
use windows_iocp_network.Base.{
  ℕ, ◌+◌, ◌<◌, ◌≡◌, Bool, true, false, Option, none, some, List, [], ◌∷◌, ◌++◌, arith, ltb, ◌==◌,
  if◌then◌else◌, total, replicate, Outcome, done, crash, null_access, crash_assert, ◌>>=◌, ◌>>◌, ℤ,
  pos, ◌+ℤ◌, ◌-ℤ◌, long_limit,
}
use windows_iocp_network.MemoryPool.{
  MemoryPool, aligned_malloc, update, header_size, max_alloc_size, attach_mem_alloc_info,
  detach_mem_alloc_info,
}
use windows_iocp_network.MemoryPool.Inv.{IsServed, IsFresh}

-- What is left to do, with `realAllocSize`, the size of the pool from the table, and the header.
-- `Allocate`: the comparison and the table; `InterlockedPopEntrySList`; the assertion on a header
-- from the list, or `_aligned_malloc`; `InterlockedIncrement`; the new header. `Deallocate`: the
-- writing of `mExtraInfo`; `InterlockedExchange`; the assertion, the comparison and the table;
-- `_aligned_free`, or `InterlockedPushEntrySList` and `InterlockedDecrement`.
pub data Local : Type 0 where
  looks : ℕ → Local
  pops : ℕ → ℕ → Local
  asserts : ℕ → ℕ → ℕ → Local
  mallocs : ℕ → ℕ → Local
  mallocs_big : ℕ → Local
  counts : ℕ → ℕ → ℕ → Local
  attaches : ℕ → ℕ → Local
  returned : ℕ → Local
  marks : ℕ → ℤ → Local
  exchanges : ℕ → Local
  checks : ℕ → ℕ → Local
  frees : ℕ → Local
  pushes : ℕ → ℕ → Local
  uncounts : ℕ → Local
  ended : Local

-- Places before `_aligned_malloc`.
abbrev pub asks : Local → Bool
asks (mallocs real i) = true
asks (mallocs_big real) = true
asks _ = false

abbrev pub with_list : MemoryPool → ℕ → List ℕ → MemoryPool
with_list m i xs = record m { pools = update m.pools i (record (m.pools i) { free_list = xs }) }

abbrev pub with_count : MemoryPool → ℕ → ℤ → MemoryPool
with_count m i n = record m { pools = update m.pools i (record (m.pools i) { alloc_count = n }) }

-- A pointer from the table.
abbrev pub look : Option ℕ → (ℕ → Local) → Outcome Local
look none l = crash null_access
look (some i) l = done (l i)

abbrev pub popped : ℕ → ℕ → MemoryPool → List ℕ → Local × MemoryPool
popped real i m [] = (mallocs real i, m)
popped real i m (h ∷ rest) = (asserts real i h, with_list m i rest)

-- `block` is what `_aligned_malloc` returns, if it is the next access.
unfoldable pub access : ℕ → Local → MemoryPool → Outcome (Local × MemoryPool)
access block (looks real) m =
    if ltb max_alloc_size real
    then done (mallocs_big real, m)
    else (do l ← look (m.table real) (pops real); done (l, m))
access block (pops real i) m = done (popped real i m (m.pools i).free_list)
access block (asserts real i h) m = do
  crash_assert ((m.headers h).alloc_size == 0)
  done (counts real i h, m)
access block (mallocs real i) m =
    done (
      counts real i block,
      record m { given = aligned_malloc (m.pools i).alloc_size block m.given },
    )
access block (mallocs_big real) m =
    done (attaches real block, record m { given = aligned_malloc real block m.given })
access block (counts real i h) m =
    done (attaches real h, with_count m i ((m.pools i).alloc_count +ℤ pos 1))
access block (attaches real h) m = do
  (ptr, headers) ← attach_mem_alloc_info h real m.headers
  done (returned ptr, record m { headers = headers })
access block (returned ptr) m = done (returned ptr, m)
access block (marks h extra) m = done (
  exchanges h,
  record m { headers = update m.headers h (record (m.headers h) { extra_info = extra }) },
)
access block (exchanges h) m = done (
  checks h (m.headers h).alloc_size,
  record m { headers = update m.headers h (record (m.headers h) { alloc_size = 0 }) },
)
access block (checks h real) m = do
  crash_assert (ltb 0 real)
  if ltb max_alloc_size real
      then done (frees h, m)
      else (do l ← look (m.table real) (pushes h); done (l, m))
access block (frees h) m =
    done (ended, record m { freed = h ∷ m.freed; given = update m.given h 0 })
access block (pushes h i) m = done (uncounts i, with_list m i (h ∷ (m.pools i).free_list))
access block (uncounts i) m = done (ended, with_count m i ((m.pools i).alloc_count -ℤ pos 1))
access block ended m = done (ended, m)

pub data Place : Type 0 where
  outside : Place
  inside : Local → Place

-- Whether a thread has the header at `k` in its hands.
abbrev pub has : ℕ → Local → ℕ
has k (asserts real i h) = if h == k then 1 else 0
has k (counts real i h) = if h == k then 1 else 0
has k (attaches real h) = if h == k then 1 else 0
has k (returned ptr) = if detach_mem_alloc_info ptr == k then 1 else 0
has k (marks h extra) = if h == k then 1 else 0
has k (exchanges h) = if h == k then 1 else 0
has k (checks h real) = if h == k then 1 else 0
has k (frees h) = if h == k then 1 else 0
has k (pushes h i) = if h == k then 1 else 0
has k _ = 0

abbrev pub owns : ℕ → Place → ℕ
owns k outside = 0
owns k (inside l) = has k l

-- `live h`: a client holds the block with its header at `h`.
pub record System : Type 0 where
  pub live : ℕ → Bool
  pub pool : MemoryPool
  pub threads : List Place

-- One access of one thread, where the others have `o k` times the header at `k`. A client asks for
-- a size that the pool serves, and gives back a block that it holds. `_aligned_malloc` returns a
-- block that nobody has.
pub data Act (o : ℕ → ℕ) (live : ℕ → Bool) (m : MemoryPool)
    : Place → (ℕ → Bool) → MemoryPool → Place → Type 0 where
  allocates :
      (size : ℕ)
      → IsServed (size + header_size)
      → size + header_size < long_limit
      → Act o live m outside live m (inside (looks (size + header_size)))
  deallocates :
      (ptr : ℕ) (extra : ℤ)
      → live (detach_mem_alloc_info ptr) ≡ true
      → Act o live m outside
          (update live (detach_mem_alloc_info ptr) false)
          m
          (inside (marks (detach_mem_alloc_info ptr) extra))
  accesses :
      (block : ℕ) {l l' : Local} {m' : MemoryPool}
      → (asks l ≡ true → IsFresh live m block × (o block ≡ 0))
      → access block l m ≡ done (l', m')
      → Act o live m (inside l) live m' (inside l')
  returns :
      (ptr : ℕ)
      → Act o live m
          (inside (returned ptr))
          (update live (detach_mem_alloc_info ptr) true)
          m
          outside
  ends : Act o live m (inside ended) live m outside

pub data Step : System → System → Type 0 where
  step :
      (before after : List Place) {live live' : ℕ → Bool} {m m' : MemoryPool} {p p' : Place}
      → Act (λ k. total (owns k) before + total (owns k) after) live m p live' m' p'
      → Step
          (record { live = live; pool = m; threads = before ++ p ∷ after })
          (record { live = live'; pool = m'; threads = before ++ p' ∷ after })

pub data Reach (s : System) : System → Type 0 where
  here : Reach s s
  next : {t u : System} → Reach s t → Step t u → Reach s u

-- A pool that nobody has used, and `n` threads.
abbrev pub fresh : ℕ → MemoryPool → System
fresh n m = record { live = λ _. false; pool = m; threads = replicate n outside }
