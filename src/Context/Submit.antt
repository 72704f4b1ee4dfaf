-- ===== src/Context/Submit.antt =====
-- `RDMAContext::submit` of csrc/engine/rdma/rdma_context.cpp: a batch is cut into pieces, and each
-- piece becomes an assignment in the queue of one queue pair.
pub mod Split
pub mod Enqueue
use dlslime.Prelude.{
  ℕ, zero, suc, ◌+◌, ◌/◌, Option, none, some, List, [], ◌∷◌, ◌++◌, length, take, drop, get_elem?,
  set, Result, ok, or_fault, ◌>>=◌, out_of_bounds, ltb, if◌then◌else◌,
}
use dlslime.Assignment.{OpCode, AssignmentBatch}
use dlslime.RdmaInfo.{max_send_wr}
use dlslime.Store.{Store, Callback, ignore, new_rdma_assignment, make_shared, acquire, release}
use dlslime.Context.{Qp, Context, select_qpi}

-- `int split_step = MAX_SEND_WR / 2`
abbrev pub split_step : ℕ
split_step = max_send_wr / 2

-- The loop of `split`, from index `i` on; the fuel bounds its rounds. The index is an `int` in the
-- source: a batch is taken to hold fewer than 2^31 - 4096 assignments.
unfoldable pub split_from : ℕ → ℕ → ℕ → AssignmentBatch → List AssignmentBatch
split_from step zero i batch = []
split_from step (suc fuel) i batch =
    let rest = split_from step fuel (i + step) batch in
    if ltb i (length batch) then take step (drop i batch) ∷ rest else []

-- Every round takes at least one assignment, so as many rounds as there are assignments are enough.
unfoldable pub split : AssignmentBatch → List AssignmentBatch
split batch = split_from split_step (length batch) 0 batch

-- The last piece gets the caller's callback, the others an empty function.
abbrev pub split_callback : List AssignmentBatch → Option Callback → Option Callback
split_callback [] callback = callback
split_callback (piece ∷ rest) callback = some ignore

abbrev pub release_held : Store → Option ℕ → Store
release_held s none = s
release_held s (some id) = release s id

-- The store, the queue, and what the variable `rdma_assignment` holds.
pub record Enqueued : Type 0 where
  pub store : Store
  pub queue : List ℕ
  pub held : Option ℕ

-- The loop over the pieces. The variable lets go of the object before, and the queue copies it.
unfoldable pub enqueue : OpCode → Option Callback → List AssignmentBatch → Enqueued → Enqueued
enqueue opcode callback [] e = e
enqueue opcode callback (piece ∷ rest) e =
    let (made, id) =
      make_shared e.store (new_rdma_assignment opcode piece (split_callback rest callback)) in
    enqueue opcode callback rest (record {
      store = acquire (release_held made e.held) id;
      queue = e.queue ++ (id ∷ []);
      held = some id;
    })

pub record Submitted : Type 0 where
  pub context : Context
  pub store : Store
  pub result : Option ℕ

-- The result is the pointer to the last piece's assignment, and null where there is no piece.
unfoldable pub submit :
    Context → Store → OpCode → AssignmentBatch → Option Callback → Result Submitted
submit c s opcode batch callback = do
  let pieces = split batch
  let (c', qpi) = select_qpi c
  q ← or_fault out_of_bounds (get_elem? c'.qp_management qpi)
  let e = enqueue opcode callback pieces (record { store = s; queue = q.assign_queue; held = none })
  ok (record {
    context = record c' {
      qp_management = set c'.qp_management qpi (record q { assign_queue = e.queue });
    };
    store = e.store;
    result = e.held;
  })
