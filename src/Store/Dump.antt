-- ===== src/Store/Dump.antt =====
-- csrc/engine/rdma/rdma_assignment.cpp: the members of `RDMAAssignment` and `RDMASchedulerAssignment`
-- that wait, ask and print.
mod Tests
use dlslime.Prelude.{
  ℕ, zero, suc, ◌+◌, Bool, true, false, String, ◌++ₛ◌, to_string, Option, none, some, List, [], ◌∷◌,
  Result, ok, err, ◌>>=◌, null_dereference, out_of_bounds, runtime_error, no_end, if◌then◌else◌,
}
use dlslime.Assignment
use dlslime.Assignment.{AssignmentBatch}
use dlslime.Store.{Store, RdmaAssignment, find, query}

-- `RDMAAssignment::wait` through a shared pointer, once the other threads have done their work: null
-- is dereferenced, and an assignment that is not finished is waited for without end.
unfoldable pub wait : Store → Option ℕ → Result Store
wait s none = err null_dereference
wait s (some id) = do finished ← query s id; elim finished [ true ↦ ok s | false ↦ err no_end ]

-- `RDMAAssignment::query` through a shared pointer.
unfoldable pub query_shared : Store → Option ℕ → Result Bool
query_shared s none = err null_dereference
query_shared s (some id) = query s id

-- The loop of `RDMAAssignment::dump` over the first assignments of the array.
unfoldable pub dump_batch : ℕ → AssignmentBatch → String → Result String
dump_batch zero batch text = ok text
dump_batch (suc n) [] text = err out_of_bounds
dump_batch (suc n) (a ∷ batch) text = dump_batch n batch (text ++ₛ Assignment.dump a ++ₛ "\n")

unfoldable pub dump : RdmaAssignment → Result String
unfolding dump_batch
dump a = dump_batch a.batch_size a.batch ""

-- What `RDMAAssignment::print` writes.
unfoldable pub print : RdmaAssignment → Result String
unfolding dump
print a = do text ← dump a; ok (text ++ₛ "\n")

-- `RDMASchedulerAssignment::query` is not implemented.
unfoldable pub scheduler_query : Store → List (Option ℕ) → Result Bool
scheduler_query s ids = err runtime_error

-- The loop of `RDMASchedulerAssignment::dump`, from index `i` on.
unfoldable pub dump_all : Store → ℕ → List (Option ℕ) → String → Result String
unfolding dump
dump_all s i [] text = ok text
dump_all s i (none ∷ ids) text = err null_dereference
dump_all s i (some id ∷ ids) text = do
  a ← find s id
  inner ← dump a
  dump_all s (i + 1) ids
      (text ++ₛ ("RDMAAssignment_" ++ₛ to_string i ++ₛ " (\n") ++ₛ inner ++ₛ ")\n")

unfoldable pub scheduler_dump : Store → List (Option ℕ) → Result String
unfolding dump_all
scheduler_dump s ids = do text ← dump_all s 0 ids "Scheduler Assignment: {\n"; ok (text ++ₛ "}")

-- What `RDMASchedulerAssignment::print` writes.
unfoldable pub scheduler_print : Store → List (Option ℕ) → Result String
unfolding scheduler_dump
scheduler_print s ids = do text ← scheduler_dump s ids; ok (text ++ₛ "\n")
