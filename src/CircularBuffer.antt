-- ===== src/CircularBuffer.antt =====
-- win-iocp/win-iocp/CircularBuffer.hpp (win-iocp-mssql-usage has the same file): the two-region
-- byte buffer. A pointer into the block is its offset from `mBuffer`.
pub mod Inv
pub mod Refine
pub mod Room
mod Tests
use windows_iocp_network.Base.{
  ℕ, ◌+◌, ◌-◌, Bool, true, false, not, Option, none, some, List, [], ◌∷◌, ◌++◌, arith, ltb, ◌==◌,
  ◌&&◌, if◌then◌else◌, length, replicate, add_size, sub_size,
}
use windows_iocp_network.Memory.{slice, write_at}

pub record CircularBuffer : Type 0 where
  pub buffer : List ℕ
  pub buffer_end : ℕ
  pub a_region_pointer : ℕ
  pub a_region_size : ℕ
  pub b_region_pointer : Option ℕ
  pub b_region_size : ℕ
  pub capacity : ℕ

-- The constructor. `new char[capacity]` leaves the bytes as they are: `block` is what they hold.
unfoldable pub construct : ℕ → List ℕ → CircularBuffer
construct capacity block = record {
  buffer = block;
  buffer_end = capacity;
  a_region_pointer = 0;
  a_region_size = 0;
  b_region_pointer = none;
  b_region_size = 0;
  capacity = capacity;
}

unfoldable pub buffer_reset : CircularBuffer → CircularBuffer
buffer_reset c = record {
  buffer = write_at 0 (replicate c.capacity 0) c.buffer;
  buffer_end = c.capacity;
  a_region_pointer = 0;
  a_region_size = 0;
  b_region_pointer = none;
  b_region_size = 0;
  capacity = c.capacity;
}

-- The first `if` of `Remove`: the buffer, and what is left of `cnt`.
unfoldable pub remove_a : CircularBuffer → ℕ → CircularBuffer × ℕ
remove_a c cnt =
    if ltb 0 c.a_region_size
    then (let n = if ltb c.a_region_size cnt then c.a_region_size else cnt in
        (
          record c {
            a_region_size = sub_size c.a_region_size n;
            a_region_pointer = c.a_region_pointer + n;
          },
          sub_size cnt n,
        ))
    else (c, cnt)

-- `mBRegionPointer += n`. (A null pointer stays null here; `CircularBuffer.Inv.IsValid` rules it
-- out.)
abbrev pub advance : Option ℕ → ℕ → Option ℕ
advance none n = none
advance (some p) n = some (p + n)

-- The second `if` of `Remove`.
unfoldable pub remove_b : CircularBuffer → ℕ → CircularBuffer
remove_b c cnt =
    if ltb 0 cnt && ltb 0 c.b_region_size
    then (let n = if ltb c.b_region_size cnt then c.b_region_size else cnt in
        record c {
          b_region_size = sub_size c.b_region_size n;
          b_region_pointer = advance c.b_region_pointer n;
        })
    else c

-- `memmove(mBuffer, mBRegionPointer, mBRegionSize)`, if the pointer is not `mBuffer` itself. (A
-- move from a null pointer moves nothing here; `CircularBuffer.Inv.IsValid` rules it out.)
unfoldable pub move_to_front : List ℕ → Option ℕ → ℕ → List ℕ
move_to_front buf none n = buf
move_to_front buf (some p) n = if p == 0 then buf else write_at 0 (slice p n buf) buf

-- The third `if` of `Remove`.
unfoldable pub compact : CircularBuffer → CircularBuffer
unfolding move_to_front
compact c =
    if c.a_region_size == 0
    then (if ltb 0 c.b_region_size
        then record c {
          buffer = move_to_front c.buffer c.b_region_pointer c.b_region_size;
          a_region_pointer = 0;
          a_region_size = c.b_region_size;
          b_region_pointer = none;
          b_region_size = 0;
        }
        else record c {
          b_region_pointer = none;
          b_region_size = 0;
          a_region_pointer = 0;
          a_region_size = 0;
        })
    else c

unfoldable pub remove : CircularBuffer → ℕ → CircularBuffer
remove c len = let (c', cnt) = remove_a c len in compact (remove_b c' cnt)

unfoldable pub allocate_b : CircularBuffer → CircularBuffer
allocate_b c = record c { b_region_pointer = some 0 }

unfoldable pub get_a_free_space : CircularBuffer → ℕ
get_a_free_space c = sub_size (sub_size c.buffer_end c.a_region_pointer) c.a_region_size

unfoldable pub get_space_before_a : CircularBuffer → ℕ
get_space_before_a c = c.a_region_pointer

unfoldable pub b_free_space : Option ℕ → CircularBuffer → ℕ
b_free_space none c = 0
b_free_space (some p) c = sub_size (sub_size c.a_region_pointer p) c.b_region_size

unfoldable pub get_b_free_space : CircularBuffer → ℕ
unfolding b_free_space
get_b_free_space c = b_free_space c.b_region_pointer c

-- `p != nullptr`
abbrev pub is_set : Option ℕ → Bool
is_set none = false
is_set (some p) = true

-- The query may open region B: it returns the space and the buffer that it leaves.
unfoldable pub get_free_space_size : CircularBuffer → ℕ × CircularBuffer
unfolding allocate_b get_a_free_space get_space_before_a get_b_free_space
get_free_space_size c =
    if is_set c.b_region_pointer
    then (get_b_free_space c, c)
    else (if ltb (get_a_free_space c) (get_space_before_a c)
        then (get_b_free_space (allocate_b c), allocate_b c)
        else (get_a_free_space c, c))

unfoldable pub get_stored_size : CircularBuffer → ℕ
get_stored_size c = add_size c.a_region_size c.b_region_size

unfoldable pub get_contiguious_bytes : CircularBuffer → ℕ
get_contiguious_bytes c = if ltb 0 c.a_region_size then c.a_region_size else c.b_region_size

-- Where the next byte goes.
abbrev pub write_position : Option ℕ → CircularBuffer → ℕ
write_position none c = c.a_region_pointer + c.a_region_size
write_position (some p) c = p + c.b_region_size

unfoldable pub get_buffer : CircularBuffer → ℕ
get_buffer c = write_position c.b_region_pointer c

unfoldable pub commit : CircularBuffer → ℕ → CircularBuffer
commit c len =
    if is_set c.b_region_pointer
    then record c { b_region_size = add_size c.b_region_size len }
    else record c { a_region_size = add_size c.a_region_size len }

-- The oldest byte; a null pointer if the buffer never stored one.
unfoldable pub get_buffer_start : CircularBuffer → Option ℕ
get_buffer_start c = if ltb 0 c.a_region_size then some c.a_region_pointer else c.b_region_pointer

-- What the callers do with the room that `GetFreeSpaceSize` reports: `memcpy` to `GetBuffer()`,
-- or a receive into it, and `Commit`.
unfoldable pub put : CircularBuffer → List ℕ → CircularBuffer
unfolding get_buffer commit
put c src = commit (record c { buffer = write_at (get_buffer c) src c.buffer }) (length src)
