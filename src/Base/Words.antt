-- ===== src/Base/Words.antt =====
-- The machine words of the Win32 build: `size_t`, `DWORD` and `long` have 32 bits.
use Prim.Native.Nat.{ℕ, ◌+◌, ◌-◌, ◌%◌, ◌^◌}

abbrev pub word_mod : ℕ
word_mod = 2 ^ 32

-- Unsigned addition and subtraction wrap.
abbrev pub add_size : ℕ → ℕ → ℕ
add_size a b = (a + b) % word_mod

abbrev pub sub_size : ℕ → ℕ → ℕ
sub_size a b = (a + word_mod - b) % word_mod

-- The first value that a signed `long` or `int` cannot hold.
abbrev pub long_limit : ℕ
long_limit = 2 ^ 31
