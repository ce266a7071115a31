-- ===== src/MemoryPool/Concurrent/Relies.antt =====
-- What a thread in MemoryPool/Concurrent relies on, which the others leave alone.
use windows_iocp_network.Base.{ℕ, ◌<◌, ◌≡◌, Bool, true, arith, mem}
use windows_iocp_network.MemoryPool.{MemoryPool, detach_mem_alloc_info}
use windows_iocp_network.MemoryPool.Inv.{free_of, size_of, IsServed, IsFresh}
use windows_iocp_network.MemoryPool.Concurrent.{
  Local, looks, pops, asserts, mallocs, mallocs_big, counts, attaches, returned, marks, exchanges,
  checks, frees, pushes, uncounts, ended, has,
}

-- What a thread at a place relies on: the block in its hands is neither free nor a client's.
abbrev pub At : (ℕ → Bool) → MemoryPool → Local → Type 0
At live m (looks real) = IsServed real
At live m (pops real i) = IsServed real
At live m (asserts real i h) = IsFresh live m h × IsServed real × (size_of m h ≡ 0)
At live m (mallocs real i) = IsServed real
At live m (mallocs_big real) = IsServed real
At live m (counts real i h) = IsFresh live m h × IsServed real
At live m (attaches real h) = IsFresh live m h × IsServed real
At live m (returned ptr) =
    IsFresh live m (detach_mem_alloc_info ptr) × IsServed (size_of m (detach_mem_alloc_info ptr))
At live m (marks h extra) = IsFresh live m h × IsServed (size_of m h)
At live m (exchanges h) = IsFresh live m h × IsServed (size_of m h)
At live m (checks h real) = IsFresh live m h × IsServed real × (size_of m h ≡ 0)
At live m (frees h) = IsFresh live m h
At live m (pushes h i) = IsFresh live m h × (size_of m h ≡ 0)
At live m (uncounts i) = Unit
At live m ended = Unit

-- For the header at `k` nothing is worse than before.
pub record IsSame (live live' : ℕ → Bool) (m m' : MemoryPool) (k : ℕ) : Type 0 where
  pub free : (j : ℕ) → mem k (free_of m' j) ≡ true → mem k (free_of m j) ≡ true
  pub lives : live' k ≡ live k
  pub size : size_of m' k ≡ size_of m k

pub Fresh-same :
    {live live' : ℕ → Bool} {m m' : MemoryPool} {k : ℕ}
    → IsSame live live' m m' k
    → IsFresh live m k
    → IsFresh live' m' k
Fresh-same {k} s f = record {
  place = f.place;
  not_free = λ j. ground (arith, s.free j, f.not_free j);
  not_live = ground (arith, s.lives, f.not_live);
}

pub At-same :
    {live live' : ℕ → Bool} {m m' : MemoryPool} (l : Local)
    → ((k : ℕ) → 0 < has k l → IsSame live live' m m' k)
    → At live m l
    → At live' m' l
At-same (looks real) s a = a
At-same (pops real i) s a = a
At-same (asserts real i h) s (f, a, e) =
    let same = s h (ground arith) in (Fresh-same same f, a, ground (arith, same.size, e))
At-same (mallocs real i) s a = a
At-same (mallocs_big real) s a = a
At-same (counts real i h) s (f, a) = (Fresh-same (s h (ground arith)) f, a)
At-same (attaches real h) s (f, a) = (Fresh-same (s h (ground arith)) f, a)
At-same (returned ptr) s (f, a) =
    let same = s (detach_mem_alloc_info ptr) (ground arith) in (Fresh-same same f, rw same.size a)
At-same (marks h extra) s (f, a) =
    let same = s h (ground arith) in (Fresh-same same f, rw same.size a)
At-same (exchanges h) s (f, a) =
    let same = s h (ground arith) in (Fresh-same same f, rw same.size a)
At-same (checks h real) s (f, a, e) =
    let same = s h (ground arith) in (Fresh-same same f, a, ground (arith, same.size, e))
At-same (frees h) s f = Fresh-same (s h (ground arith)) f
At-same (pushes h i) s (f, a) =
    let same = s h (ground arith) in (Fresh-same same f, ground (arith, same.size, a))
At-same (uncounts i) s a = tt
At-same ended s a = tt
