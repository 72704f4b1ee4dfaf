-- ===== src/Bench/Scheduling.antt =====
-- bench/cpp/scheduler_bench.cpp: several schedulers on each side, for each NUMA socket as many as
-- there are threads.
pub mod Loop
pub mod Session
pub mod Pairing
mod Tests
mod SessionTests
use dlslime.Prelude.{
  ℕ, zero, suc, ◌+◌, ◌*◌, ◌/◌, ◌^◌, Bool, true, false, String, str_eq, ◌++ₛ◌, to_string, Option,
  none, some, List, [], ◌∷◌, ◌++◌, length, get_elem?, set, Result, ok, err, or_fault, ◌>>=◌, ltb,
  add64, null_dereference, out_of_bounds, no_end, if◌then◌else◌,
}
use dlslime.Assignment.{read, AssignmentBatch}
use dlslime.MemoryPool.{RegMr}
use dlslime.RdmaInfo.{Gid, RdmaInfo}
use dlslime.Store.{Store, release, wait_all}
use dlslime.Context.Init.{Verbs}
use dlslime.Context.Connect.{Answers}
use dlslime.Scheduler.{Scheduler, new_scheduler, register_memory_region, submit_assignment}
use dlslime.Bench.Memory.{Block, used_size, zeroed, fill_from, check_from}
use dlslime.Bench.Transfer.{assert, batch_from, release_all}

pub record Flags : Type 0 where
  pub mode : String
  pub device_name : String
  pub ib_port : ℕ
  pub link_type : String
  pub num_thread : ℕ  -- uint32_t
  pub target_endpoint : String
  pub initiator_endpoint : String
  pub buffer_size : ℕ
  pub block_size : ℕ
  pub batch_size : ℕ
  pub concurrent_num : ℕ
  pub duration : ℕ
  pub numa_affinity : Bool

abbrev pub default_flags : Flags
default_flags = record {
  mode = "";
  device_name = "";
  ib_port = 1;
  link_type = "RoCE";
  num_thread = 2;
  target_endpoint = "10.130.8.139:8000";
  initiator_endpoint = "10.130.8.138:8001";
  buffer_size = 2048000 * 160 + 1;
  block_size = 204800;
  batch_size = 160;
  concurrent_num = 20;
  duration = 10;
  numa_affinity = true;
}

-- What is outside: the verbs library as each scheduler sees it, with its regions and answers, NUMA with
-- its nodes and its memory, the clock in nanoseconds, the threads and the hardware, and the text of
-- JSON values. `fuel`, `gid` and `unset` are as for the other benchmark.
pub record World (Json : Type 0) : Type 0 where
  pub verbs : ℕ → ℕ → Verbs
  pub devices : Option (List String)
  pub reg_mr : RegMr
  pub answers : ℕ → ℕ → Answers
  pub fuel : ℕ
  pub gid : Gid
  pub unset : RdmaInfo
  pub nodes : ℕ
  pub numa_alloc_onnode : ℕ → ℕ → Option Block
  pub clock : ℕ → ℕ
  -- The schedulers and the store as the wait for one of the assignments ends.
  pub serve :
      List Scheduler → Store → List (List (Option ℕ)) → List (Option ℕ) → List Scheduler × Store
  -- The bytes of the buffer of a socket after the reads.
  pub memory : ℕ → Block → List ℕ
  pub dump : Json → String
  pub parse : String → Option Json

unfoldable pub memory_allocate_initiator : Flags → Option Block → Result Block
unfolding zeroed
memory_allocate_initiator f block = do
  large ← assert (ltb (used_size f.batch_size f.block_size) f.buffer_size)
  data_block ← or_fault null_dereference block
  ok (zeroed f.buffer_size data_block)

unfoldable pub memory_allocate_target : Flags → Option Block → Result Block
memory_allocate_target f block = do
  large ← assert (ltb (used_size f.batch_size f.block_size) f.buffer_size)
  data_block ← or_fault null_dereference block
  ok (record data_block { bytes = fill_from f.buffer_size 0 data_block.bytes })

unfoldable pub check_initiator_copied : Flags → List ℕ → Result Bool
check_initiator_copied f bytes = check_from (used_size f.batch_size f.block_size) 0 bytes

-- The loop over the sockets that fills `data`, from socket `i` on.
unfoldable pub allocate_all : (ℕ → Result Block) → ℕ → ℕ → Result (List Block)
allocate_all allocate zero i = ok []
allocate_all allocate (suc n) i = do
  block ← allocate i
  blocks ← allocate_all allocate n (i + 1)
  ok (block ∷ blocks)

abbrev pub key_of : ℕ → String
key_of socket_id = "buffer_" ++ₛ to_string socket_id

module _ {Json : Type 0} (w : World Json) (f : Flags) where
  -- The loop over `qpi` for one socket; `sch_id` is the number of the next scheduler.
  unfoldable pub socket_schedulers : ℕ → Block → List String → ℕ → ℕ → Result (List Scheduler)
  socket_schedulers socket_id block sch_devices zero sch_id = ok []
  socket_schedulers socket_id block sch_devices (suc n) sch_id = do
    made ← new_scheduler (w.verbs sch_id) w.fuel w.gid w.unset sch_devices
    rdma_sch ← register_memory_region w.reg_mr made (key_of socket_id) block.addr f.buffer_size
    rest ← socket_schedulers socket_id block sch_devices n (sch_id + 1)
    ok (rdma_sch ∷ rest)

  -- The loop over the sockets, with their devices and buffers.
  unfoldable pub all_schedulers : ℕ → List (List String) → List Block → Result (List Scheduler)
  unfolding socket_schedulers
  all_schedulers socket_id [] blocks = ok []
  all_schedulers socket_id (sch_devices ∷ parts) [] = err out_of_bounds
  all_schedulers socket_id (sch_devices ∷ parts) (block ∷ blocks) = do
    here ← socket_schedulers socket_id block sch_devices f.num_thread (socket_id * f.num_thread)
    rest ← all_schedulers (socket_id + 1) parts blocks
    ok (here ++ rest)
