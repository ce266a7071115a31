-- ===== src/CircularBuffer/Inv.antt =====
-- The representation invariant of CircularBuffer.hpp, and that every operation keeps it.
use windows_iocp_network.Base.{
  ℕ, ◌+◌, ◌≤◌, ◌<◌, ◌≡◌, refl, ◌⊎◌, Option, none, some, List, arith, length, replicate, word_mod,
}
use windows_iocp_network.Memory.{slice, length-write_at}
use windows_iocp_network.CircularBuffer.{
  CircularBuffer, construct, buffer_reset, remove_a, remove_b, move_to_front, compact, remove,
  get_free_space_size, get_buffer, put,
}

-- Region B is closed, or starts the block, ends before region A, and region A holds something.
abbrev pub BRegion : Option ℕ → ℕ → ℕ → ℕ → Type 0
BRegion none b_size a a_size = b_size ≡ 0
BRegion (some p) b_size a a_size = (p ≡ 0) × (b_size ≤ a) × (0 < a_size)

pub record IsValid (c : CircularBuffer) : Type 0 where
  pub storage : length c.buffer ≡ c.capacity
  pub block_end : c.buffer_end ≡ c.capacity
  pub small : c.capacity < word_mod
  pub a_in : c.a_region_pointer + c.a_region_size ≤ c.capacity
  pub b_in : BRegion c.b_region_pointer c.b_region_size c.a_region_pointer c.a_region_size
  pub a_empty : c.a_region_size ≡ 0 → c.a_region_pointer ≡ 0

pub construct-IsValid :
    (n : ℕ) (block : List ℕ) → n < word_mod → length block ≡ n → IsValid (construct n block)
unfolding construct
construct-IsValid n block h e = ground arith

pub buffer_reset-IsValid : {c : CircularBuffer} → IsValid c → IsValid (buffer_reset c)
unfolding buffer_reset
buffer_reset-IsValid {c} v = ground (arith, length-write_at 0 (replicate c.capacity 0) c.buffer)

length-move_to_front :
    (buf : List ℕ) (p : Option ℕ) (n : ℕ) → length (move_to_front buf p n) ≡ length buf
unfolding move_to_front
length-move_to_front buf none n = refl
length-move_to_front buf (some p) n = ground (arith, length-write_at 0 (slice p n buf) buf)

-- What holds between the steps of `Remove`: region A may be empty anywhere, and region B may have
-- left the start of the block, if region A is empty.
abbrev pub BLoose : Option ℕ → ℕ → ℕ → ℕ → Type 0
BLoose none b_size a a_size = b_size ≡ 0
BLoose (some p) b_size a a_size = (p + b_size ≤ a) × (0 < a_size → p ≡ 0)

pub record IsLoose (c : CircularBuffer) : Type 0 where
  pub storage : length c.buffer ≡ c.capacity
  pub block_end : c.buffer_end ≡ c.capacity
  pub small : c.capacity < word_mod
  pub a_in : c.a_region_pointer + c.a_region_size ≤ c.capacity
  pub b_in : BLoose c.b_region_pointer c.b_region_size c.a_region_pointer c.a_region_size

pub remove_a-IsLoose :
    {c : CircularBuffer} (n : ℕ) → n < word_mod → IsValid c → IsLoose (remove_a c n).0
unfolding remove_a
remove_a-IsLoose {c} n h v = ground arith

pub remove_a-rest :
    {c : CircularBuffer} (n : ℕ)
    → n < word_mod
    → IsValid c
    → ((remove_a c n).1 ≡ 0) ⊎ ((remove_a c n).0.a_region_size ≡ 0)
unfolding remove_a
remove_a-rest {c} n h v = ground arith

pub remove_b-IsLoose :
    {c : CircularBuffer} (n : ℕ)
    → IsLoose c
    → (n ≡ 0) ⊎ (c.a_region_size ≡ 0)
    → IsLoose (remove_b c n)
unfolding remove_b
remove_b-IsLoose {c} n v r = ground arith

compact-IsValid : {c : CircularBuffer} → IsLoose c → IsValid (compact c)
unfolding compact
compact-IsValid {c} v =
    ground (arith, length-move_to_front c.buffer c.b_region_pointer c.b_region_size)

-- `Remove` of fewer than 2^32 bytes, also of more than are stored, keeps a buffer well formed.
pub remove-IsValid : {c : CircularBuffer} (n : ℕ) → n < word_mod → IsValid c → IsValid (remove c n)
unfolding remove
remove-IsValid {c} n h v =
    let s = remove_a c n in
    compact-IsValid (remove_b-IsLoose s.1 (remove_a-IsLoose n h v) (remove_a-rest n h v))

pub get_free_space_size-IsValid :
    {c : CircularBuffer} → IsValid c → IsValid (get_free_space_size c).1
unfolding get_free_space_size
get_free_space_size-IsValid v = ground arith

-- `n` bytes at the write position lie inside the block and do not reach region A, if region B is
-- open.
pub record HasRoom (c : CircularBuffer) (n : ℕ) : Type 0 where
  pub in_block : get_buffer c + n ≤ c.capacity
  pub apart : (get_buffer c + n ≤ c.a_region_pointer) ⊎ (c.b_region_pointer ≡ none)

-- On a well-formed buffer, the room that `GetFreeSpaceSize` reports lies at the write position
-- `GetBuffer`, inside the block, and ends before region A if region B is open.
pub get_free_space_size-HasRoom :
    {c : CircularBuffer} → IsValid c → HasRoom (get_free_space_size c).1 (get_free_space_size c).0
unfolding get_free_space_size get_buffer
get_free_space_size-HasRoom v = ground arith

pub put-IsValid :
    {c : CircularBuffer} (src : List ℕ) → IsValid c → HasRoom c (length src) → IsValid (put c src)
unfolding put
put-IsValid {c} src v r = ground (arith, length-write_at (get_buffer c) src c.buffer)
