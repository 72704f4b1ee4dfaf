-- ===== src/Bench/Scheduling/Loop.antt =====
-- bench/cpp/scheduler_bench.cpp: the initiator's loop until the deadline.
use dlslime.Prelude.{
  ℕ, zero, suc, ◌+◌, ◌*◌, ◌^◌, Bool, true, false, Option, List, [], ◌∷◌, ◌++◌, get_elem?, set,
  Result, ok, err, or_fault, ◌>>=◌, ltb, add64, out_of_bounds, no_end,
}
use dlslime.Assignment.{read, AssignmentBatch}
use dlslime.Store.{Store, wait_all}
use dlslime.Scheduler.{Scheduler, submit_assignment}
use dlslime.Bench.Memory.{used_size}
use dlslime.Bench.Transfer.{batch_from, release_all}
use dlslime.Bench.Scheduling.{Flags, World, key_of}

-- The schedulers, the heap of assignments, and the two totals.
pub record Running : Type 0 where
  pub schedulers : List Scheduler
  pub store : Store
  pub total_bytes : ℕ  -- uint64_t
  pub total_trips : ℕ  -- uint64_t

-- The assignments of the submissions so far, each with those that it holds.
abbrev pub Batch : Type 0
Batch = List (List (Option ℕ))

module _ (f : Flags) where
  unfoldable pub batch_of : ℕ → AssignmentBatch
  batch_of socket_id = batch_from (key_of socket_id) f.block_size f.batch_size 0

  unfoldable pub submit_one : ℕ → ℕ → Running → Batch → Result (Running × Batch)
  unfolding batch_of
  submit_one socket_id qpi r batch = do
    let i = socket_id * f.num_thread + qpi
    s ← or_fault out_of_bounds (get_elem? r.schedulers i)
    made ← submit_assignment s r.store read (batch_of socket_id)
    ok (
      record {
        schedulers = set r.schedulers i made.scheduler;
        store = made.store;
        total_bytes = add64 r.total_bytes (used_size f.batch_size f.block_size);
        total_trips = add64 r.total_trips 1;
      },
      batch ++ (made.rdma_assignment_batch ∷ []),
    )

  -- The loop over `qpi`, for `n` more.
  unfoldable pub submit_threads : ℕ → ℕ → ℕ → Running → Batch → Result (Running × Batch)
  unfolding submit_one
  submit_threads socket_id zero qpi r batch = ok (r, batch)
  submit_threads socket_id (suc n) qpi r batch = do
    (r', batch') ← submit_one socket_id qpi r batch
    submit_threads socket_id n (qpi + 1) r' batch'

  -- The loop over the sockets, for `n` more.
  unfoldable pub submit_sockets : ℕ → ℕ → Running → Batch → Result (Running × Batch)
  unfolding submit_threads
  submit_sockets zero socket_id r batch = ok (r, batch)
  submit_sockets (suc n) socket_id r batch = do
    (r', batch') ← submit_threads socket_id f.num_thread 0 r batch
    submit_sockets n (socket_id + 1) r' batch'

  -- The loop over `concurrent_id`, for `n` more.
  unfoldable pub submit_all : ℕ → ℕ → Running → Batch → Result (Running × Batch)
  unfolding submit_sockets
  submit_all nsockets zero r batch = ok (r, batch)
  submit_all nsockets (suc n) r batch = do
    (r', batch') ← submit_sockets nsockets 0 r batch
    submit_all nsockets n r' batch'

-- The vector of scheduler assignments ends.
unfoldable pub release_batch : Batch → Store → Store
release_batch [] s = s
release_batch (ids ∷ batch) s = release_batch batch (release_all ids s)

-- A wait that ends.
abbrev pub or_no_end : Bool → Result {0} Unit
or_no_end true = ok tt
or_no_end false = err no_end

module _ {Json : Type 0} (w : World Json) (f : Flags) where
  unfoldable pub served : Running → Batch → List (Option ℕ) → Running
  served r batch ids =
      let (ss, s) = w.serve r.schedulers r.store batch ids in
      record r { schedulers = ss; store = s }

  -- The loop over the assignments that are left to wait for, of all those in `batch`.
  unfoldable pub wait_each : Batch → Batch → Running → Result Running
  unfolding served
  wait_each batch [] r = ok r
  wait_each batch (ids ∷ left) r = do
    let r' = served r batch ids
    finished ← wait_all r'.store ids
    ended ← or_no_end finished
    wait_each batch left r'

  unfoldable pub round : ℕ → Running → Result Running
  unfolding wait_each submit_all
  round nsockets r = do
    (submitted, batch) ← submit_all f nsockets f.concurrent_num r []
    waited ← wait_each batch batch submitted
    ok (record waited { store = release_batch batch waited.store })

  abbrev pub deadline : ℕ
  deadline = w.clock 0 + f.duration * 10 ^ 9

  -- The rounds until the deadline; `k` counts the readings of the clock.
  unfoldable pub rounds : ℕ → ℕ → ℕ → Running → Result Running
  unfolding round
  rounds nsockets zero k r = err no_end
  rounds nsockets (suc fuel) k r = elim (ltb (w.clock k) deadline) [
    | true ↦ round nsockets r >>= λ r'. rounds nsockets fuel (k + 1) r'
    | false ↦ ok r
  ]
