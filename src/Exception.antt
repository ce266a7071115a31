-- ===== src/Exception.antt =====
-- win-iocp/win-iocp/Exception.hpp (win-iocp-mssql-usage has the same file): the filter that writes
-- a crash dump. CRASH_ASSERT, the other function of the file, is in Base/Results.
use windows_iocp_network.Base.{
  ℕ, ◌≡◌, ◌==◌, arith, Bool, true, false, Option, List, [], ◌∷◌, if◌then◌else◌,
}

-- What `CreateFileA` returns.
pub data FileHandle : Type 0 where
  null invalid : FileHandle
  opened : ℕ → FileHandle

-- The calls on the dump file, in order: `MiniDumpWriteDump` with the file, the type of the dump and
-- the exception (null, or where `mdei.ExceptionPointers` points), and `CloseHandle`; or the
-- message.
pub data Act : Type 0 where
  writes_dump : ℕ → ℕ → Option ℕ → Act
  closes : ℕ → Act
  prints_error : Act

pub data Disposition : Type 0 where
  continue_search execute_handler : Disposition

abbrev pub dump : ℕ → Option ℕ → FileHandle → List Act
dump dump_type info null = prints_error ∷ []
dump dump_type info invalid = prints_error ∷ []
dump dump_type info (opened file) = writes_dump file dump_type info ∷ closes file ∷ []

-- `dump_type` is the sum of the six flags of DbgHelp.h; `debugger` what `IsDebuggerPresent` says,
-- and `file` what `CreateFileA` returns, if it is called. `info` is null or an address.
unfoldable pub exception_filter : ℕ → Bool → FileHandle → Option ℕ → Disposition × List Act
exception_filter dump_type debugger file info =
    if debugger then (continue_search, []) else (execute_handler, dump dump_type info file)

-- Whether the file with that handle is open, from `before`, after some calls.
abbrev is_open : ℕ → Bool → List Act → Bool
is_open h before [] = before
is_open h before (closes file ∷ acts) = is_open h (if file == h then false else before) acts
is_open h before (writes_dump file t info ∷ acts) = is_open h before acts
is_open h before (prints_error ∷ acts) = is_open h before acts

-- Without a debugger the filter closes the dump file that `CreateFileA` opened.
exception_filter-closes :
    (dump_type file : ℕ) (info : Option ℕ)
    → is_open file true (exception_filter dump_type false (opened file) info).1 ≡ false
unfolding exception_filter
exception_filter-closes dump_type file info = ground arith
