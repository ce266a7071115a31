-- ===== src/CircularBuffer/Tests.antt =====
-- CircularBuffer.hpp on concrete buffers.
use windows_iocp_network.Base.{ℕ, ◌<◌, ◌≡◌, refl, none, some, List, [], ◌∷◌, arith, inl}
use windows_iocp_network.CircularBuffer.{
  CircularBuffer, remove_a, remove_b, compact, remove, get_free_space_size, get_contiguious_bytes,
  get_buffer, put,
}
use windows_iocp_network.CircularBuffer.Inv.{IsValid, HasRoom, put-IsValid}
use windows_iocp_network.CircularBuffer.Refine.{contents, remove_refines, put_refines}

abbrev block : List ℕ
block = 3 ∷ 0 ∷ 0 ∷ 0 ∷ 0 ∷ 1 ∷ 2 ∷ 0 ∷ []

-- Region A holds 1 and 2 at offset 5, region B holds 3 at offset 0.
abbrev wrapped : CircularBuffer
wrapped = record {
  buffer = block;
  buffer_end = 8;
  a_region_pointer = 5;
  a_region_size = 2;
  b_region_pointer = some 0;
  b_region_size = 1;
  capacity = 8;
}

wrapped-IsValid : IsValid wrapped
wrapped-IsValid = omega arith

wrapped-HasRoom : HasRoom wrapped 3
unfolding get_buffer
wrapped-HasRoom = record { in_block = omega arith; apart = inl (omega arith) }

contents-wrapped : contents wrapped ≡ 1 ∷ 2 ∷ 3 ∷ []
contents-wrapped = refl

-- Taking the two bytes of region A moves region B into its place.
remove-wrapped : remove wrapped 2 ≡ record wrapped {
  a_region_pointer = 0;
  a_region_size = 1;
  b_region_pointer = none;
  b_region_size = 0;
}
unfolding remove remove_a remove_b compact
remove-wrapped = refl

-- Region A may grow by 1 only, so the query opens region B, which may grow by 5.
opens_b :
    (get_free_space_size (record wrapped { b_region_pointer = none; b_region_size = 0 })).0 ≡ 5
unfolding get_free_space_size
opens_b = refl

put-IsValid_example : IsValid (put wrapped (4 ∷ 5 ∷ 6 ∷ []))
put-IsValid_example = put-IsValid (4 ∷ 5 ∷ 6 ∷ []) wrapped-IsValid wrapped-HasRoom

remove_refines_example : contents (remove wrapped 2) ≡ 3 ∷ []
remove_refines_example = remove_refines 2 (omega arith) wrapped-IsValid

put_refines_example : contents (put wrapped (4 ∷ 5 ∷ 6 ∷ [])) ≡ 1 ∷ 2 ∷ 3 ∷ 4 ∷ 5 ∷ 6 ∷ []
put_refines_example = put_refines (4 ∷ 5 ∷ 6 ∷ []) wrapped-IsValid wrapped-HasRoom

two_bytes : 0 < get_contiguious_bytes wrapped
unfolding get_contiguious_bytes
two_bytes = omega arith
