-- ===== src/MemoryPool.antt =====
-- win-iocp/win-iocp/MemoryPool.hpp (and the same pool in the study program
-- 211110_MemoryPool_test.cpp). An address is a number, 0 is null. `_aligned_malloc` is not part of
-- the program: what it returns is the argument `block` of each call that may call it.
pub mod Table
pub mod Inv
pub mod Allocate
pub mod Deallocate
pub mod Reuse
pub mod Calls
pub mod Extents
pub mod Concurrent
mod Tests
use windows_iocp_network.Base.{
  ℕ, zero, suc, ◌+◌, ◌-◌, ◌≡◌, Bool, true, false, Option, none, some, List, [], ◌∷◌, ltb, ◌==◌,
  if◌then◌else◌, Outcome, done, crash, null_access, out_of_range, crash_assert, ◌>>=◌, ◌>>◌, ℤ, pos,
  negsuc, ◌+ℤ◌, ◌-ℤ◌, add_size, sub_size, long_limit,
}

-- `MemAllocInfo` without its list link. `mAllocSize` is never negative.
pub record MemAllocInfo : Type 0 where
  pub alloc_size : ℕ
  pub extra_info : ℤ

-- `sizeof(MemAllocInfo)`, as its comment says.
abbrev pub header_size : ℕ
header_size = 16

-- `Config::MAX_ALLOC_SIZE`.
abbrev pub max_alloc_size : ℕ
max_alloc_size = 4096

abbrev pub Headers : Type 0
Headers = ℕ → MemAllocInfo

abbrev pub update {ℓ} : {A : Type ℓ} → (ℕ → A) → ℕ → A → ℕ → A
update f k a n = if n == k then a else f n

unfoldable pub attach_mem_alloc_info : ℕ → ℕ → Headers → Outcome (ℕ × Headers)
attach_mem_alloc_info zero size h = crash null_access
attach_mem_alloc_info (suc b) size h =
    done
      (suc b + header_size, update h (suc b) (record { alloc_size = size; extra_info = negsuc 0 }))

abbrev pub detach_mem_alloc_info : ℕ → ℕ
detach_mem_alloc_info ptr = sub_size ptr header_size

-- How many bytes `_aligned_malloc` was asked for when it returned an address, 0 where it has not or
-- the block has gone back to `_aligned_free`.
abbrev pub Given : Type 0
Given = ℕ → ℕ

-- The interlocked list is its addresses, the last pushed first.
pub record SmallSizeMemoryPool : Type 0 where
  pub free_list : List ℕ
  pub alloc_size : ℕ
  pub alloc_count : ℤ

abbrev pub new_pool : ℕ → SmallSizeMemoryPool
new_pool size = record { free_list = []; alloc_size = size; alloc_count = pos 0 }

-- The block that `Pop` takes, the list that is left, and CRASH_ASSERT(mem->mAllocSize == 0).
abbrev pub pop_free : List ℕ → ℕ → Headers → Outcome (ℕ × List ℕ)
pop_free [] block h = done (block, [])
pop_free (mem ∷ rest) block h = do crash_assert ((h mem).alloc_size == 0); done (mem, rest)

-- `_aligned_malloc(bytes, MEMORY_ALLOCATION_ALIGNMENT)`, which returns `block`.
abbrev pub aligned_malloc : ℕ → ℕ → Given → Given
aligned_malloc bytes block given = update given block bytes

-- `Pop` asks for `mAllocSize` bytes if its list is empty.
abbrev pub pop_given : List ℕ → ℕ → ℕ → Given → Given
pop_given [] bytes block given = aligned_malloc bytes block given
pop_given (mem ∷ rest) bytes block given = given

unfoldable pub pop :
    SmallSizeMemoryPool → ℕ → Headers → Given → Outcome (ℕ × SmallSizeMemoryPool × Given)
pop p block h given = do
  (mem, rest) ← pop_free p.free_list block h
  done (
    mem,
    record p { free_list = rest; alloc_count = p.alloc_count +ℤ pos 1 },
    pop_given p.free_list p.alloc_size block given,
  )

unfoldable pub push : SmallSizeMemoryPool → ℕ → SmallSizeMemoryPool
push p ptr = record p { free_list = ptr ∷ p.free_list; alloc_count = p.alloc_count -ℤ pos 1 }

-- `mSmallSizeMemoryPoolTable` as a function of the index. The constructor makes one pool for a
-- size, so a pointer to a pool is the pool's size.
abbrev pub PoolTable : Type 0
PoolTable = ℕ → Option ℕ

-- `for (j = recent + 1; j <= i; ++j) table[j] = pool`, for the rounds that are left.
unfoldable pub fill : ℕ → ℕ → ℕ → PoolTable → PoolTable
fill zero j pool t = t
fill (suc rounds) j pool t = fill rounds (j + 1) pool (update t j (some pool))

-- `for (; i < limit; i += step)`: the values of `recent` and of the table after the loop; `none` if
-- the fuel ran out.
unfoldable pub stripe : ℕ → ℕ → ℕ → ℕ → ℕ → PoolTable → Option (ℕ × PoolTable)
unfolding fill
stripe zero limit width i recent t = none
stripe (suc fuel) limit width i recent t = elim (ltb i limit) [
  | true ↦ stripe fuel limit width (i + width) i (fill (i - recent) (recent + 1) i t)
  | false ↦ some (recent, t)
]

abbrev pub and_then :
    Option (ℕ × PoolTable) → (ℕ → PoolTable → Option (ℕ × PoolTable)) → Option (ℕ × PoolTable)
and_then none f = none
and_then (some (recent, t)) f = f recent t

-- The three loops of the constructor, from a table of null pointers.
unfoldable pub build_table : ℕ → Option (ℕ × PoolTable)
unfolding stripe
build_table fuel =
    and_then
      (and_then (stripe fuel 1024 32 32 0 (λ _. none))
        (λ recent t. stripe fuel 2048 128 1024 recent t))
      (λ recent t. stripe fuel 4096 256 2048 recent t)

pub record MemoryPool : Type 0 where
  pub table : PoolTable
  pub pools : ℕ → SmallSizeMemoryPool
  pub headers : Headers
  pub freed : List ℕ  -- the blocks given to `_aligned_free`
  pub given : Given

-- A call through the table: a size that an `int` cannot hold is a negative index.
unfoldable pub pop_block : ℕ → ℕ → MemoryPool → Option ℕ → Outcome (ℕ × MemoryPool)
unfolding pop
pop_block size block m none = crash null_access
pop_block size block m (some i) = do
  (mem, p, given) ← pop (m.pools i) block m.headers m.given
  done (mem, record m { pools = update m.pools i p; given = given })

-- The header, from the pool of its size or from `_aligned_malloc`.
unfoldable pub get_block : ℕ → ℕ → MemoryPool → Outcome (ℕ × MemoryPool)
unfolding pop_block
get_block real block m =
    if ltb max_alloc_size real
    then done (block, record m { given = aligned_malloc real block m.given })
    else pop_block real block m (m.table real)

-- `return AttachMemAllocInfo(header, realAllocSize)`.
unfoldable pub finish : ℕ → ℕ × MemoryPool → Outcome (ℕ × MemoryPool)
unfolding attach_mem_alloc_info
finish real (header, m) = do
  (ptr, h) ← attach_mem_alloc_info header real m.headers
  done (ptr, record m { headers = h })

unfoldable pub allocate : ℕ → ℕ → MemoryPool → Outcome (ℕ × MemoryPool)
unfolding get_block finish
allocate size block m =
    let real = add_size size header_size in
    if ltb real long_limit
    then (do r ← get_block real block m; finish real r)
    else crash out_of_range

unfoldable pub push_block : ℕ → MemoryPool → Option ℕ → Outcome MemoryPool
unfolding push
push_block header m none = crash null_access
push_block header m (some i) =
    done (record m { pools = update m.pools i (push (m.pools i) header) })

unfoldable pub deallocate : ℕ → ℤ → MemoryPool → Outcome MemoryPool
unfolding push_block
deallocate ptr extra m =
    let header = detach_mem_alloc_info ptr in
    let real = (m.headers header).alloc_size in
    let m' : MemoryPool = record m {
      headers = update m.headers header (record { alloc_size = 0; extra_info = extra });
    } in
    do
      crash_assert (ltb 0 real)
      if ltb max_alloc_size real
          then done (record m' { freed = header ∷ m'.freed; given = update m'.given header 0 })
          else push_block header m' (m'.table real)

-- The constructor; the bytes that will be headers hold anything. `none`: the fuel ran out.
unfoldable pub construct : ℕ → Headers → Option MemoryPool
construct fuel h = elim (build_table fuel) [
  | none ↦ none
  | some (recent, t) ↦
      some (record { table = t; pools = new_pool; headers = h; freed = []; given = λ _. 0 })
]
