-- ===== src/Lib.antt =====
-- corekit, a C++ toolkit of small components behind abstract interfaces: a model of its components,
-- and what they guarantee.
--
-- The program's parts: api (status codes and results, which every part returns), ipc (a channel of
-- messages in shared memory), concurrent (queues, maps, sets and a ring buffer behind a mutex),
-- memory (allocators, object and slab pools), task (a thread pool and a task graph), log, json, xml
-- and io. The parts meet in api::Status and, for storage, in the global allocator.
--
-- Files, and the code they model:
--   Base          numbers, lists, tests; Base/Bits holds the laws of `&` and `|` that the codes and
--                 the sizes need.
--   Api/Status    include/corekit/api/status.hpp and src/api/status.cpp: StatusCode, ErrorModule,
--                 Status, Result, PackErrorCode, the names and the catalog. Api/Codes is about it.
--   Ipc/Bytes     memcpy, memset and the 32-bit header fields, on a memory from addresses to bytes.
--   Ipc/Text      ToString, for the text of kBufferTooSmall.
--   Ipc/Layout    src/ipc/shared_memory_channel.cpp: NextPow2, FrameBytes, TotalBytes, Offset,
--                 ContiguousFrom, UsedBytes.
--   Ipc/Channel   src/ipc/shared_memory_channel.hpp: the state of a SharedMemoryChannel. `shared` is
--                 the mapped region (SharedHeader and the ring), the rest is local to a process.
--   Ipc/Send      TryWriteOneToShared, ProcessIoOnce, TrySend.
--   Ipc/Recv      TryRecv (its loop is `recv_loop`), GetStats.
--   Ipc/Open      OpenServer, OpenClient, ValidateOptions, MapAsServer, MapAsClient, Close.
--   Ipc/Link      a server that sends and a client that receives on one region, as steps.
--   Ipc/Geometry, Frames, Image, Write, Append, Read, Flush, Ready, Opened, Stall, Overflow and
--   Link/Fifo hold the theory of these definitions; Ipc/Frames says which messages a ring holds.
--   Concurrent    src/concurrent: Concurrent/Ring is BasicRingBufferImpl, Concurrent/Bounded the
--                 queue it implements, Concurrent/Window and Fifo its laws; Concurrent/Queue is
--                 BasicMutexQueueImpl and Concurrent/Order its law; Concurrent/Map is
--                 BasicConcurrentMapImpl, Concurrent/Finite, Calls and Agree its laws.
--   Memory        src/memory: Memory/System is SystemAllocator with its size table and counters,
--                 Memory/Live its laws; Memory/ObjectPool is BasicObjectPoolImpl, Memory/Clients the
--                 histories of calls on it, Memory/Count, Pooled, Undo, Owned and Slips its laws.
--                 Memory/Backends, Global and Config are the other allocator classes and
--                 GlobalAllocator, its ConfigureFromFile in Config; Memory/Held, Books and
--                 Reconfigured are about them.
--   Task          src/task: Task/Graph is SimpleTaskGraph (src/task/simple_task_graph.cpp) with the
--                 calls that build it, on Task/Table (std::map and std::set); Task/Validate is
--                 BuildIndegree and Validate, Task/Run is Run, RunWithExecutor and RunInternal.
--                 Task/Formed, History, Sorted, Degree, Built, Release, Kahn, Topological and Accepted are
--                 the theory of the graph, Task/Levels, Log, Executed and Answers that of a run.
--   Pool          src/task/thread_pool_executor.cpp: Pool/State is ThreadPoolExecutor, Pool/Submit the
--                 calls of its clients, Pool/Work PickNextTaskIndexLocked, MarkTaskDone and the
--                 sections of WorkerLoop and of the queued callables, as steps; Pool/Chunks and
--                 Parallel are ParallelFor. Pool/Places, Sound, Clients, Taken, Worked, Inside and
--                 Safe hold the invariant, Pool/Picked, Wrapped, Expired and Canceled are about single
--                 calls.
--
-- State is passed explicitly, a call returns its result and the new state, and an atomic or locked
-- section is one step. Numbers are natural numbers with the wrap-around written out: 64-bit
-- indices and counters are taken modulo 2^64, 32-bit sizes modulo 2^32. The theory of the channel
-- asks for indices below 2^63, which a history of calls reaches only after 2^63 bytes of traffic.
-- The loop of TryRecv runs on fuel: each round moves the read index on by at least one byte, so
-- write_index + 1 rounds are enough, and an open channel never runs out. The loops of Validate and
-- RunInternal run on as much fuel as there are nodes: each round takes a node off the ready queue, and
-- no node gets there twice. The loop of ParallelFor needs as many rounds as there are indices, if its
-- sums fit 64 bits.
--
-- A call on the channel is one step: the other side's accesses are not interleaved inside it. The
-- platform's answers (IShmBackend, posix_memalign, a throwing copy of an element) are arguments, and so
-- are the outcomes of callables and, for a graph, the answers of its executor. The thread pool's workers
-- and clients are interleaved in any order, section by section, but the
-- sections of one SubmitEx are taken together; waits with a limit of time are left out.
--
-- Not modelled: I/O and platform code (file, shm backends, C entry points), which only passes calls
-- on; the copies of other libraries in 3party, and the XML and JSON adapters of them. The slab pool, the
-- system pool in front of it, the concurrent set and the log manager are left for later.
pub mod Api
pub mod Base
pub mod Concurrent
pub mod Ipc
pub mod Memory
pub mod Pool
pub mod Task
