-- ===== src/Lib.antt =====
-- A model of the repository windows-iocp-network: an echo server on Windows completion ports and
-- the containers, locks and memory pools that it is made of.
--
-- The parts, from the bottom:
--
-- * CircularBuffer (win-iocp/win-iocp/CircularBuffer.hpp): the byte buffer of a session. Receives
--   write behind what is stored (`GetFreeSpaceSize`, `GetBuffer`, `Commit`), sends read the oldest
--   bytes (`GetBufferStart`, `GetContiguiousBytes`, `Remove`). One function per method; pointers
--   into the block are offsets. CircularBuffer.Inv is the representation invariant,
--   CircularBuffer.Refine reads a buffer as a queue of bytes, CircularBuffer.Room is about room and
--   about bytes in flight. Memory holds `memcpy` and `memmove` on a block.
-- * SpinLock (win-iocp/win-iocp/FastSpinLock.hpp): SpinLock has the flag word and the moves of one
--   thread by its program counter; SpinLock.System interleaves the threads; SpinLock.Exclusion,
--   SpinLock.Overflow and SpinLock.Stuck are about the write lock, the width of the count of
--   writers, and the loops of `EnterLock` and `EnterReadLock`. SpinLock.Progress is about a thread
--   that waits in `EnterWriteLock`. SpinLock.Exclusive makes it the lock of a guard.
-- * Guard (`FastSpinlockGuard` of win-iocp/win-iocp/FastSpinLock.hpp, and `std::lock_guard`): threads
--   whose calls run between a guard's constructor and destructor, one access at a time, over an
--   interface for the lock (`Lock`, `IsExclusive`) and for the calls (`Body`). Guard.Atomic has the
--   calls as one step each, Guard.Inside who is inside, Guard.Committed what the data is meanwhile,
--   Guard.Refine relates the interleavings to the calls. Two locks fill the interface:
--   SpinLock, and Mutex (`std::mutex`).
-- * MemoryPool (win-iocp/win-iocp/MemoryPool.hpp): the table of sizes (MemoryPool.Table), the
--   ownership invariant (MemoryPool.Inv), how many bytes `_aligned_malloc` was asked for at each
--   address (the field `given`), `Allocate`, `Deallocate`, the two together
--   (MemoryPool.Reuse), and any history of them over the address space (MemoryPool.Calls,
--   MemoryPool.Extents). MemoryPool.Concurrent has the accesses of the two on many threads, without
--   a lock: MemoryPool.Concurrent.Relies is what a thread in the middle of a call counts on,
--   .Keeps is about one access, .Threads about the other threads, .Safe about any interleaving.
-- * ObjectPool (WindowsIocpNetwork-WIN-study/WindowsIocpNetwork-WIN-study/211110_ObjectPool_test.cpp,
--   and win-iocp/win-iocp/ObjectPool.hpp): `operator new` and `operator delete`. ObjectPool.Chain
--   has the free list, ObjectPool.Slots a fresh chunk and what follows its last slot,
--   ObjectPool.History any history of calls, with slots as a bag (ObjectPool.Bag) and the objects in
--   use as a list (ObjectPool.Used). ObjectPool.Concurrent has the accesses of the two
--   operators; ObjectPool.Concurrent.Held runs them under one mutex (ObjectPool.hpp),
--   ObjectPool.Concurrent.Race under two (the study program). Memory is a
--   pointer-sized word at each address, and a write changes all words that share a byte with it; so a
--   slot must have room for a pointer, of 4 bytes.
-- * Session (win-iocp/win-iocp-mssql-usage/Session.hpp and OverlappedIOContext.hpp): a session with
--   a send buffer that is flushed by a worker. Session.Context has the I/O contexts,
--   Session.Requests one type of the calls that make a context, Session.Refs the contexts and the
--   reference count, Session.Store and Session.Stream what becomes of the bytes that are sent. Session.Concurrent has the accesses of
--   `PostSend`, `FlushSend` and `SendCompletion` under their guard; Session.Concurrent.Alone relates
--   them to the methods as one step, Session.Concurrent.Stream to the stream of bytes.
--   Session.Lifetime has the reference count on many threads, Session.Drain a flush and its
--   completion as one round, Session.Echo the bytes that `EchoBack` passes from one buffer to the
--   other (no caller in the repository fills the first of the two).
-- * ClientSession (win-iocp/win-iocp/ClientSession.hpp): a session that echoes, with one buffer.
-- * IocpManager (win-iocp/win-iocp/IocpManager.hpp): one turn of `IoWorkerThread`, which completes
--   an operation of a ClientSession. IocpManager.Worker is about all turns, IocpManager.Lifetime
--   about any sequence of turns, IocpManager.Phases about those in which the kernel transfers no more
--   bytes than an operation has room for.
-- * LockOrderChecker (win-iocp/win-iocp/LockOrderChecker.hpp): the stack of the locks that a thread
--   holds, against a list (LockOrderChecker.Stack). The spin lock does not call it yet.
-- * SessionManager (win-iocp/win-iocp/SessionManager.hpp): the list of unused ClientSessions, and the
--   accept loop (SessionManager.Accept); SessionManager.Concurrent has the accesses under the mutex,
--   SessionManager.Concurrent.Returned the sessions that threads return.
-- * WorkerThread (win-iocp/win-iocp-mssql-usage/WorkerThread.hpp): `DoIocpJob`, which completes an
--   operation of a Session (WorkerThread.Job).
-- * Server (win-iocp/win-iocp/IocpManager.hpp and EduEchoServer.cpp): the set-up, the accept loop and
--   the end of the program, `_tmain` or an I/O thread whose wait times out (Server.Main).
-- * WorkerPool (win-iocp/win-iocp-mssql-usage/IocpManager.hpp): the completion port, the pointers to
--   extension functions, and the table of worker threads (WorkerPool.Startup).
-- * ServerSession (win-iocp/win-iocp-mssql-usage/ServerSession.hpp): `ConnectRequest`.
-- * Player, PlayerManager (win-iocp/win-iocp/Player.hpp, PlayerManager.hpp, PlayerWideEvent.hpp): a
--   player and the buffs that run out (Player.Buffs), the map of players (PlayerManager.Registry, and
--   access by access under its lock PlayerManager.Concurrent),
--   and the events for all players (PlayerManager.Events). IntMap is `std::map<int, T>`.
-- * Timer (win-iocp/win-iocp/Timer.hpp): the jobs of a worker by their time (Timer.Due).
-- * GrandCentralExecutor (win-iocp/win-iocp/GrandCentralExecutor.hpp): `DoDispatch` on many threads
--   (GrandCentralExecutor.Threads).
-- * StlAllocator (win-iocp/win-iocp/XTL.hpp): the allocator of containers, over MemoryPool.
--
-- Exception (win-iocp/win-iocp/Exception.hpp) is the filter that writes a crash dump.
--
-- Base has the shared notation, numbers and lists, and the result of code that asserts: `done`, or
-- `crash` with the fault. A failed CRASH_ASSERT, a read through null and a mutex that its owner locks
-- again end the process; an `int` that overflows, which C++ leaves undefined, is a fault too, except in
-- `mSendPendingCount`, which is an integer without bounds (0 or 1 as long as one send at a time is
-- in flight, as Session.Stream counts them).
--
-- `size_t`, `long` and `DWORD` have 32 bits (Win32), and sums and differences of sizes wrap. The
-- header of a block has 16 bytes. A reference count is below 2^31 or the code asserts.
-- The loops of the constructor of MemoryPool take fuel, and 32 rounds are enough; `EnterLock` and
-- `EnterReadLock`, whose loops have no exit, take fuel too (SpinLock.Stuck). So does the loop of
-- `AcceptSessions`, for which one round is enough, or no amount is, and that of `DoTimerJob`, with the
-- same alternative.
-- The accept loop of `_tmain` takes fuel, and never ends; a worker's turn is modelled, not its loop,
-- and beside `_tmain` only that a wait of a worker times out (Server.io_waits).
-- The other loops are by recursion on what they run over.
--
-- What Winsock answers, what `new` and `_aligned_malloc` return, what a completion port dequeues:
-- these are arguments of the methods that ask. In the components code under a lock is one step, and so
-- is a critical section of a std::mutex; its accesses are in Session.Concurrent,
-- PlayerManager.Concurrent, ObjectPool.Concurrent and SessionManager.Concurrent, and Guard.Refine
-- relates the two. Interlocked lists are lists. `Allocate` and `Deallocate` take no lock: they are one
-- step in MemoryPool, and several in MemoryPool.Concurrent. An allocated I/O context stands for its
-- operation, also where the source has a comment in place of the call (AcceptEx, DisconnectEx, and the
-- receive of zero bytes).
--
-- Not modelled: functions whose bodies are comments (`DoSync`, `DoSyncAfter`, `GCEDispatch`), the
-- type aliases of XTL.hpp and the type trait, the contents of a crash dump, thread locals, the accept
-- of a session manager that is declared nowhere (win-iocp-mssql-usage), the project files, and
-- the copies of a class that is modelled (in win-iocp-mssql-usage, and the memory pool of
-- WindowsIocpNetwork-WIN-study).
pub mod Base
pub mod Exception
pub mod Guard
pub mod Mutex
pub mod Memory
pub mod CircularBuffer
pub mod Session
pub mod SpinLock
pub mod MemoryPool
pub mod ObjectPool
pub mod ClientSession
pub mod IocpManager
pub mod SessionManager
pub mod WorkerThread
pub mod LockOrderChecker
pub mod IntMap
pub mod Player
pub mod PlayerManager
pub mod GrandCentralExecutor
pub mod Timer
pub mod Server
pub mod WorkerPool
pub mod StlAllocator
pub mod ServerSession
