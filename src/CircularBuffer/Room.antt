-- ===== src/CircularBuffer/Room.antt =====
-- How much room CircularBuffer.hpp reports, and what a write into it leaves alone.
use windows_iocp_network.Base.{
  ℕ, ◌+◌, ◌≤◌, ◌<◌, ◌≡◌, inl, inr, none, List, [], arith, length, Option-cases, word_mod,
}
use windows_iocp_network.Memory.{region, slice-write_at_below, slice-write_at_above}
use windows_iocp_network.CircularBuffer.{
  CircularBuffer, get_free_space_size, get_stored_size, get_contiguious_bytes, get_buffer_start,
  put,
}
use windows_iocp_network.CircularBuffer.Inv.{IsValid, HasRoom}
use windows_iocp_network.CircularBuffer.Refine.{contents, get_stored_size_lem}

-- On a well-formed buffer the room and what is stored fit in the capacity; while region B is closed
-- the room is at least half of what is not stored; an empty buffer offers its whole capacity.
pub get_free_space_size_bounds :
    {c : CircularBuffer}
    → IsValid c
    → let n = (get_free_space_size c).0 in
      (n + length (contents c) ≤ c.capacity)
      × (c.b_region_pointer ≡ none → c.capacity ≤ n + n + length (contents c))
      × (contents c ≡ [] → n ≡ c.capacity)
unfolding get_free_space_size get_stored_size
get_free_space_size_bounds {c} v = ground (arith, get_stored_size_lem v)

-- A send in flight is safe from writers: on a well-formed buffer that stores some, storing more
-- bytes changes neither the address of the oldest bytes, nor the bytes that a send of them covers,
-- nor shrinks that region.
pub put_keeps_contiguious :
    {c : CircularBuffer} (src : List ℕ)
    → IsValid c
    → HasRoom c (length src)
    → 0 < get_contiguious_bytes c
    → (get_buffer_start (put c src) ≡ get_buffer_start c)
      × (get_contiguious_bytes c ≤ get_contiguious_bytes (put c src))
      × (region (get_buffer_start c) (get_contiguious_bytes c) (put c src).buffer
          ≡ region (get_buffer_start c) (get_contiguious_bytes c) c.buffer)
unfolding put get_contiguious_bytes get_buffer_start
put_keeps_contiguious {c} src v r pos = elim (Option-cases c.b_region_pointer) [
  | inl e ↦ ground (
    arith,
    slice-write_at_below c.a_region_pointer c.a_region_size (c.a_region_pointer + c.a_region_size)
        src c.buffer,
  )
  | inr (p, e) ↦ ground (
    arith,
    slice-write_at_above c.a_region_pointer c.a_region_size (p + c.b_region_size) src c.buffer,
  )
]

-- The query that may open region B keeps them too.
pub get_free_space_size_keeps_contiguious :
    {c : CircularBuffer}
    → IsValid c
    → let c' = (get_free_space_size c).1 in
      (get_buffer_start c' ≡ get_buffer_start c)
      × (get_contiguious_bytes c' ≡ get_contiguious_bytes c)
      × (c'.buffer ≡ c.buffer)
unfolding get_free_space_size get_contiguious_bytes get_buffer_start
get_free_space_size_keeps_contiguious {c} v = ground arith

pub get_contiguious_bytes-lt : {c : CircularBuffer} → IsValid c → get_contiguious_bytes c < word_mod
unfolding get_contiguious_bytes
get_contiguious_bytes-lt {c} v = ground arith
