-- ===== src/StlAllocator.antt =====
-- win-iocp/win-iocp/XTL.hpp, `STLAllocator`, and `xnew` and `xdelete` of win-iocp/win-iocp/
-- MemoryPool.hpp, over the memory pool. Constructors and destructors of the elements do not touch
-- it.
pub mod Roundtrip
use windows_iocp_network.Base.{ℕ, ◌*◌, ◌%◌, word_mod, pos, negsuc, Outcome}
use windows_iocp_network.MemoryPool
use windows_iocp_network.MemoryPool.{MemoryPool}

-- `sizeof(T)`, and what `_aligned_malloc` returns if it is asked.
module _ (size_of : ℕ) where
  -- `n * sizeof(T)` wraps.
  unfoldable pub allocate : ℕ → ℕ → MemoryPool → Outcome (ℕ × MemoryPool)
  allocate n block m = MemoryPool.allocate (n * size_of % word_mod) block m

  unfoldable pub xnew : ℕ → MemoryPool → Outcome (ℕ × MemoryPool)
  xnew block m = MemoryPool.allocate size_of block m

  unfoldable pub xdelete : ℕ → MemoryPool → Outcome MemoryPool
  xdelete object m = MemoryPool.deallocate object (pos size_of) m

-- `Deallocate(ptr, -1599)`: the source names its parameter `p`.
unfoldable pub deallocate : ℕ → ℕ → MemoryPool → Outcome MemoryPool
deallocate p n m = MemoryPool.deallocate p (negsuc 1598) m
