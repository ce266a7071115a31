-- ===== src/MemoryPool/Inv.antt =====
-- Who owns which block of MemoryPool.hpp: the free lists or the clients, never both.
use windows_iocp_network.Base.{
  ℕ, ◌+◌, ◌≤◌, ◌<◌, ◌≡◌, refl, Bool, true, false, some, List, [], ◌⊎◌, mem, Distinct, word_mod,
}
use windows_iocp_network.MemoryPool.{
  Given, MemoryPool, Headers, header_size, max_alloc_size, construct, new_pool,
}
use windows_iocp_network.MemoryPool.Table.{size_class, build_table_lem}

abbrev pub free_of : MemoryPool → ℕ → List ℕ
free_of m i = (m.pools i).free_list

abbrev pub size_of : MemoryPool → ℕ → ℕ
size_of m h = (m.headers h).alloc_size

-- An address that a header can stand at: not null, and its block does not wrap.
abbrev pub IsPlace : ℕ → Type 0
IsPlace h = (0 < h) × (h + header_size < word_mod)

-- A size that a pool serves, or one that goes to `_aligned_malloc`.
abbrev pub IsServed : ℕ → Type 0
IsServed n = (0 < n) × ((n ≤ 3840) ⊎ (max_alloc_size < n))

-- `live h` says that a client holds the block with its header at `h`.
pub record IsValid (live : ℕ → Bool) (m : MemoryPool) : Type 0 where
  pub table : (n : ℕ) → m.table n ≡ size_class n
  pub clear : (i h : ℕ) → mem h (free_of m i) ≡ true → size_of m h ≡ 0
  pub placed : (i h : ℕ) → mem h (free_of m i) ≡ true → IsPlace h
  pub distinct : (i : ℕ) → Distinct (free_of m i)
  pub apart : (i j h : ℕ) → mem h (free_of m i) ≡ true → mem h (free_of m j) ≡ true → i ≡ j
  pub sized : (h : ℕ) → live h ≡ true → IsServed (size_of m h)
  pub live_placed : (h : ℕ) → live h ≡ true → IsPlace h

-- What `_aligned_malloc` promises: a block that nobody owns.
pub record IsFresh (live : ℕ → Bool) (m : MemoryPool) (block : ℕ) : Type 0 where
  pub place : IsPlace block
  pub not_free : (i : ℕ) → mem block (free_of m i) ≡ false
  pub not_live : live block ≡ false

-- A block on its way to a client: its header stands at `h`.
abbrev pub Took : (ℕ → Bool) → ℕ → MemoryPool → Type 0
Took live h m = IsValid live m × IsFresh live m h

pub construct-IsValid :
    (fuel : ℕ) (h : Headers)
    → 32 ≤ fuel
    → (m : MemoryPool) × (construct fuel h ≡ some m)
      × IsValid (λ _. false) m
      × ((i : ℕ) → free_of m i ≡ [])
unfolding construct
construct-IsValid fuel h e =
    let (t, built, same) = build_table_lem fuel e in
    (
      record { table = t; pools = new_pool; headers = h; freed = []; given = λ _. 0 },
      rw (built, construct) refl,
      record {
        table = same;
        clear = λ i a q. cc;
        placed = λ i a q. cc;
        distinct = λ i. tt;
        apart = λ i j a q. cc;
        sized = λ a q. cc;
        live_placed = λ a q. cc;
      },
      λ i. refl,
    )

-- What `_aligned_malloc` was asked for is another matter.
pub given-Took :
    {live : ℕ → Bool} {m : MemoryPool} (h : ℕ) (given : Given)
    → Took live h m
    → Took live h (record m { given = given })
given-Took h given (v, f) = (
  record {
    table = v.table;
    clear = v.clear;
    placed = v.placed;
    distinct = v.distinct;
    apart = v.apart;
    sized = v.sized;
    live_placed = v.live_placed;
  },
  record { place = f.place; not_free = f.not_free; not_live = f.not_live },
)
