-- ===== src/ObjectPool.antt =====
-- The object pool of WindowsIocpNetwork-WIN-study/WindowsIocpNetwork-WIN-study/
-- 211110_ObjectPool_test.cpp (win-iocp/win-iocp/ObjectPool.hpp and its copies hold the same two
-- operators). Each operator is one step here; ObjectPool/Concurrent has their
-- accesses.
pub mod Chain
pub mod Slots
pub mod Bag
pub mod Used
pub mod History
pub mod Concurrent
mod Tests
use windows_iocp_network.Base.{
  ℕ, zero, suc, ◌+◌, ◌-◌, ◌*◌, ◌/◌, ◌%◌, ◌^◌, ◌&&◌, Bool, List, [], ◌∷◌, ltb, ◌==◌, if◌then◌else◌,
  Outcome, done, crash_assert, ◌>>=◌, ◌>>◌,
}

-- `sizeof(uint8_t*)`.
abbrev pub pointer_size : ℕ
pointer_size = 4

-- `memory p` is the pointer that the bytes from `p` on hold, for any address; 0 is null.
pub record ObjectPool : Type 0 where
  pub memory : ℕ → ℕ
  pub free_list : ℕ
  pub total_alloc_count : ℕ
  pub current_use_count : ℕ

-- The word at `q` after `value` was written at `p`, where the two overlap: the bytes of both, the
-- low ones first.
unfoldable pub torn : ℕ → ℕ → ℕ → ℕ → ℕ
torn old p value q =
    if ltb q p
    then old % 256 ^ (p - q) + value % 256 ^ (pointer_size - (p - q)) * 256 ^ (p - q)
    else value % 256 ^ pointer_size / 256 ^ (q - p)
      + old / 256 ^ (pointer_size - (q - p)) * 256 ^ (pointer_size - (q - p))

-- `*reinterpret_cast<uint8_t**>(p) = value`, which changes every word that shares a byte with it.
abbrev pub write : (ℕ → ℕ) → ℕ → ℕ → ℕ → ℕ
write memory p value q =
    if q == p
    then value
    else (if ltb q (p + pointer_size) && ltb p (q + pointer_size)
        then torn (memory q) p value q
        else memory q)

-- The `for` loop of `operator new`, for the rounds that are left: `*ppCurr = pNext`.
unfoldable pub link : ℕ → ℕ → ℕ → (ℕ → ℕ) → ℕ → ℕ
link size zero p memory = memory
link size (suc rounds) p memory = link size rounds (p + size) (write memory p (p + size))

-- `sizeof(Container)` and ALLOC_COUNT.
module _ (size alloc_count : ℕ) where
  -- The `if (!mFreeList)` block; `chunk` is what `new uint8_t[]` returned, whose bytes are what
  -- they were.
  unfoldable pub refill : ℕ → ObjectPool → ObjectPool
  unfolding link
  refill chunk s =
      if s.free_list == 0
      then record s {
        memory = link size (alloc_count - 1) chunk s.memory;
        free_list = chunk;
        total_alloc_count = s.total_alloc_count + alloc_count;
      }
      else s

  unfoldable pub operator_new : ℕ → ObjectPool → ℕ × ObjectPool
  unfolding refill
  operator_new chunk s =
      let s' = refill chunk s in
      (
        s'.free_list,
        record s' {
          free_list = s'.memory s'.free_list;
          current_use_count = s'.current_use_count + 1;
        },
      )

  -- Some calls in a row: the objects, in order.
  unfoldable pub news : ℕ → ℕ → ObjectPool → List ℕ × ObjectPool
  news zero chunk s = ([], s)
  news (suc n) chunk s =
      let (p, s') = operator_new chunk s in let (ps, s'') = news n chunk s' in (p ∷ ps, s'')

unfoldable pub operator_delete : ℕ → ObjectPool → Outcome ObjectPool
operator_delete obj s = do
  crash_assert (ltb 0 s.current_use_count)
  done (record s {
    memory = write s.memory obj s.free_list;
    free_list = obj;
    current_use_count = s.current_use_count - 1;
  })
