-- ===== src/Lib.antt =====
-- A model of the RDMA transfer engine in csrc/engine, with the properties that make it correct.
--
-- The engine copies memory between two machines. A context (RDMAContext) owns a network port with
-- four queue pairs. Its client registers regions of memory under keys, exchanges a description
-- with the peer as JSON and connects, and then submits batches of assignments: copy so many bytes
-- between two offsets of a key's regions. A batch is cut into pieces of at most 4096 assignments,
-- each piece becomes a shared object in the queue of one queue pair, a dispatching thread per
-- queue pair turns the front of its queue into work requests while the window of outstanding
-- requests has room, and a polling thread handles the completions of the hardware: it calls the
-- callback of the assignment and gives the window back.
--
-- The files, and what they model:
--
--   Prelude: names of the libraries, lists, machine words, maps with strings for keys, and the
--     result of a call that can fault (an exception, a failed assertion, or what C++ leaves
--     undefined).
--   Json: the calls of csrc/utils/json.hpp, a copy of another project, as a record of
--     operations with laws; Json/Tree has one value of it, and Json/Table what both transports
--     need to exchange their tables of regions.
--   MemoryPool: csrc/engine/rdma/memory_pool.h and .cpp; RDMAMemoryPool is MemoryPool, its
--     maps are association lists.
--   RdmaInfo: csrc/engine/rdma/rdma_config.h; rdma_info is RdmaInfo.
--   Assignment: csrc/engine/assignment.h and .cpp.
--   Store: csrc/engine/rdma/rdma_assignment.h and .cpp; a heap of assignments with their
--     reference counts stands for the shared pointers, and a destroyed object leaves an empty
--     place, so that a use after free is a fault.
--   Context: csrc/engine/rdma/rdma_context.h, with Context/Submit for submit and
--     Context/Connect for connect of rdma_context.cpp.
--   WorkRequest: post_send, post_recv and post_read_batch of rdma_context.cpp.
--   Dispatch: a round of the inner loop of wq_dispatch_handle; Dispatch/Thread has the thread
--     as a whole.
--   Completion: the inner loop of cq_poll_handle; Completion/Thread has the thread as a whole.
--   System: one queue pair with its client, both threads, the hardware and whatever else works
--     on the heap, as a step relation; the steps are stretches of code between which another
--     thread can run. Some are coarser than the code: a round posts the requests of the front,
--     adds to the window and takes the front off the queue in one step, and a completion calls
--     the callback, reads the size of the batch and gives the window back in one. System/Fifo
--     is what it promises, a queue that serves in order within a window.
--   Machine: a context with all its queue pairs, which share one polling thread; each of them
--     by itself is a queue pair of System, and what that can do it can do in its context
--     (Machine/Lift).
--   Monitor: a mutex with a condition variable, as callback_info and qp_management have them,
--     with the threads that use it as a parameter. Store/Done is the wait of one client for an
--     assignment, Store/Crowd that of several, Dispatch/Wakeup the dispatching thread's wait
--     for work, and Dispatch/Wakeup/Stop stop_future at that wait.
--   Context/Init, Context/Lifecycle: init, launch_future and stop_future of rdma_context.cpp;
--     Context/Destroy: the destructor of rdma_context.h, when the threads have ended.
--   Gids: csrc/utils/ibv_helper.h and .cpp, the search of a port's GID.
--   Scheduler: csrc/engine/rdma/rdma_scheduler.h and .cpp, and csrc/utils/utils.cpp.
--   Nvlink: csrc/engine/nvlink, the pool and the copies of the NVLink transport.
--   Logging: csrc/utils/logging.h, which messages are logged.
--   Bench: bench/cpp. Bench/Transfer is transfer_bench.cpp and Bench/Scheduling is
--     scheduler_bench.cpp, each with a module Session for its two processes; Bench/Devices is
--     how the latter shares its devices, Bench/Memory the buffers and Bench/Wire the messages
--     of both.
--   Samples: values for the tests, which stand in the modules whose names end in Tests.
--
-- The verbs library is outside of the repository: what its calls return is an argument of the
-- definitions that make them. The hardware of System completes its requests in order, and takes
-- nothing of a list that the library refuses. In Monitor one thread waits on each condition
-- variable, in Store/Crowd any number on one. The request that stop_future posts to wake the
-- polling thread is a Boolean in Context/Lifecycle, and not among the requests of System. Memory
-- orders and the log entries of the engine are not modelled. The loop that cuts a batch runs on
-- fuel, the number of assignments, which is enough since each round takes at least one; its index
-- is taken to fit an int. JSON objects are walked in an order that is not specified; the results
-- do not depend on it.
--
-- The search of a GID runs on fuel too: one round more than there are GIDs is enough. So do the
-- rounds of the benchmarks: one more than the clock gives before the deadline is enough. In the
-- benchmarks the bytes of the buffers, the clock, the sockets and what the other threads do while
-- a wait lasts are parameters.
--
-- Not modelled: json.hpp and pybind_json.hpp, which are copies of other projects; the Python
-- binding, which declares the classes to Python, and the Python packages; the macros around
-- CUDA's return codes; the placeholders for offloading and topology; the figures that the
-- benchmarks print.
pub mod Prelude
pub mod Json
pub mod MemoryPool
pub mod RdmaInfo
pub mod Assignment
pub mod Store
pub mod Context
pub mod WorkRequest
pub mod Dispatch
pub mod Completion
pub mod System
pub mod Samples
pub mod Gids
pub mod Scheduler
pub mod Nvlink
pub mod Machine
pub mod Monitor
pub mod Logging
pub mod Bench
