-- ===== src/Bench/Transfer.antt =====
-- bench/cpp/transfer_bench.cpp: one context on each side.
pub mod Session
pub mod Rounds
pub mod Copies
pub mod Checked
pub mod Ends
mod Tests
pub mod RoundsTests
mod SessionTests
use dlslime.Prelude.{
  ℕ, zero, suc, ◌+◌, ◌*◌, ◌^◌, Bool, true, false, String, str_eq, ◌++ₛ◌, Option, none, some, List,
  [], ◌∷◌, ◌++◌, ℤ, pos, Result, ok, err, or_fault, ◌>>=◌, ltb, u8, u64, add64, assertion_failed,
  null_dereference, json_error, no_end, if◌then◌else◌,
}
use dlslime.Json.{JsonLib}
use dlslime.Assignment.{read, AssignmentBatch, new_assignment}
use dlslime.MemoryPool.{RegMr}
use dlslime.RdmaInfo.{Gid, RdmaInfo}
use dlslime.Store.{Store, empty_store, release}
use dlslime.Store.Dump.{wait}
use dlslime.Context.{Context, new_context, register_memory_region, endpoint_info}
use dlslime.Context.Init.{Verbs, init}
use dlslime.Context.Lifecycle.{launch_future, stop_future}
use dlslime.Context.Submit.{submit}
use dlslime.Context.Connect
use dlslime.Context.Connect.{Answers}
use dlslime.Bench.Memory.{Block, used_size, zeroed, fill_from, check_from}
use dlslime.Bench.Wire.{Wire, send, recv, c_str}

pub record Flags : Type 0 where
  pub mode : String
  pub device_name : String
  pub ib_port : ℕ  -- uint32_t
  pub link_type : String
  pub initiator_endpoint : String
  pub target_endpoint : String
  pub buffer_size : ℕ
  pub block_size : ℕ
  pub batch_size : ℕ
  pub duration : ℕ
  pub concurrent_num : ℕ

abbrev pub default_flags : Flags
default_flags = record {
  mode = "target";
  device_name = "mlx5_bond_0";
  ib_port = 1;
  link_type = "RoCE";
  initiator_endpoint = "";
  target_endpoint = "";
  buffer_size = 10 * 2 ^ 30 + 1;
  block_size = 2048000;
  batch_size = 160;
  duration = 10;
  concurrent_num = 20;
}

-- What is outside: the verbs library with its regions and answers, `malloc`, the readings of the clock
-- in nanoseconds, the threads and the hardware, and the text of JSON values. `fuel` bounds the search
-- of a GID and the rounds; `gid` and `unset` are what the memory holds.
pub record World (Json : Type 0) : Type 0 where
  pub verbs : Verbs
  pub reg_mr : RegMr
  pub answers : Answers
  pub fuel : ℕ
  pub gid : Gid
  pub unset : RdmaInfo
  pub malloc : ℕ → Option Block
  pub clock : ℕ → ℕ
  -- The context and the store as the wait for an assignment ends, with the client's pointers.
  pub serve : Context → Store → List (Option ℕ) → ℕ → Context × Store
  -- The bytes of the initiator's buffer after the reads.
  pub memory : Block → List ℕ
  pub dump : Json → String
  pub parse : String → Option Json

abbrev pub assert : Bool → Result {0} Unit
assert true = ok tt
assert false = err assertion_failed

-- The buffer must be larger than what a batch takes of it.
unfoldable pub memory_allocate_initiator : Flags → Option Block → Result Block
unfolding zeroed
memory_allocate_initiator f block = do
  large ← assert (ltb (used_size f.batch_size f.block_size) f.buffer_size)
  data_block ← or_fault null_dereference block
  ok (zeroed f.buffer_size data_block)

unfoldable pub memory_allocate_target : Flags → Option Block → Result Block
memory_allocate_target f block = do
  large ← assert (ltb (used_size f.batch_size f.block_size) f.buffer_size)
  data_block ← or_fault null_dereference block
  ok (record data_block { bytes = fill_from f.buffer_size 0 data_block.bytes })

unfoldable pub check_initiator_copied : Flags → List ℕ → Result Bool
check_initiator_copied f bytes = check_from (used_size f.batch_size f.block_size) 0 bytes

-- The assignments of a batch, from index `i` on. The index is an `int` in the source: a batch is taken
-- to hold fewer than 2^31.
unfoldable pub batch_from : String → ℕ → ℕ → ℕ → AssignmentBatch
batch_from key block_size zero i = []
batch_from key block_size (suc n) i =
    new_assignment key (u64 (i * block_size)) (u64 (i * block_size)) block_size
    ∷ batch_from key block_size n (i + 1)

-- The loop of the initiator: the context, the heap of assignments, and the two totals.
pub record Running : Type 0 where
  pub context : Context
  pub store : Store
  pub total_bytes : ℕ  -- uint64_t
  pub total_trips : ℕ  -- uint64_t

-- `n` submissions; `batch` are the assignments so far.
unfoldable pub submit_all :
    Flags → ℕ → Running → List (Option ℕ) → Result (Running × List (Option ℕ))
submit_all f zero r batch = ok (r, batch)
submit_all f (suc n) r batch = do
  s ← submit r.context r.store read (batch_from "buffer" f.block_size f.batch_size 0) none
  submit_all f n
      (record {
        context = s.context;
        store = s.store;
        total_bytes = add64 r.total_bytes (used_size f.batch_size f.block_size);
        total_trips = add64 r.total_trips 1;
      })
      (batch ++ (s.result ∷ []))

-- The vector of shared pointers ends.
unfoldable pub release_all : List (Option ℕ) → Store → Store
release_all [] s = s
release_all (none ∷ ids) s = release_all ids s
release_all (some id ∷ ids) s = release_all ids (release s id)

module _ {Json : Type 0} (w : World Json) where
  unfoldable pub served : Running → List (Option ℕ) → Option ℕ → Running
  served r batch none = r
  served r batch (some id) =
      let (c, s) = w.serve r.context r.store batch id in record r { context = c; store = s }

  -- The loop over the assignments that are left to wait for, of all those in `batch`.
  unfoldable pub wait_each : List (Option ℕ) → List (Option ℕ) → Running → Result Running
  unfolding served
  wait_each batch [] r = ok r
  wait_each batch (id ∷ ids) r = do
    let r' = served r batch id
    s ← wait r'.store id
    wait_each batch ids r'

  unfoldable pub round : Flags → Running → Result Running
  unfolding wait_each
  round f r = do
    (submitted, batch) ← submit_all f f.concurrent_num r []
    waited ← wait_each batch batch submitted
    ok (record waited { store = release_all batch waited.store })

  abbrev pub deadline : Flags → ℕ
  deadline f = w.clock 0 + f.duration * 10 ^ 9

  -- The rounds until the deadline; `k` counts the readings of the clock.
  unfoldable pub rounds : Flags → ℕ → ℕ → Running → Result Running
  unfolding round
  rounds f zero k r = err no_end
  rounds f (suc fuel) k r = elim (ltb (w.clock k) (deadline f)) [
    | true ↦ round f r >>= λ r'. rounds f fuel (k + 1) r'
    | false ↦ ok r
  ]
