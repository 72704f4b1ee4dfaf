-- ===== src/Machine/Tests.antt =====
-- A context with two submissions, on two of its queue pairs.
use dlslime.Prelude.{
  pos, arith, ℕ, ◌+◌, ◌≤◌, ◌<◌, ◌≡◌, refl, none, some, [], ◌∷◌, get_elem?, ok, zero, suc, replicate,
  length, ◌++◌,
}
use dlslime.Assignment.{read}
use dlslime.RdmaInfo.{max_send_wr}
use dlslime.Store.{
  RdmaAssignment, new_rdma_assignment, empty_store, make_shared, acquire, release, put, cell, find,
}
use dlslime.Context.{Qp, select_qpi}
use dlslime.Context.Submit.{split, split_from, enqueue, submit, Submitted}
use dlslime.Context.Submit.Enqueue.{places}
use dlslime.System.Hardware.{total}
use dlslime.System.Order.{OnlyReads, Accepted}
use dlslime.Machine.{Machine, MachineReach, new_lane, qp_at, submits, here, next, update}
use dlslime.Machine.Runs.{IsNew, Runs, Reach-Runs}
use dlslime.Samples.{context, qp, first}
use dlslime.System.Alive.{Alive}
use dlslime.System.Delivers.{Waited}

abbrev fresh : Machine
fresh = record { context = context; store = empty_store; lanes = λ k. new_lane }

replicated : (n k : ℕ) (a q : Qp) → get_elem? (replicate n a) k ≡ some q → q ≡ a
replicated zero k a q h = cc
replicated (suc n) zero a q h = cc
replicated (suc n) (suc k) a q h = replicated n k a q h

fresh-IsNew : IsNew fresh
fresh-IsNew = record {
  lanes = λ k. refl;
  queues = λ k q found. let e = replicated 4 k qp q found in rw e (refl, refl);
}

abbrev reads_on : Machine → ℕ → Submitted → Machine
reads_on m qpi r = record m {
  context = r.context;
  store = r.store;
  lanes = update m.lanes qpi (record (m.lanes qpi) {
    submitted =
        (m.lanes qpi).submitted ++ places (length m.store.cells) (length (split (first ∷ [])));
  });
}

abbrev object : RdmaAssignment
object = new_rdma_assignment read (first ∷ []) none

abbrev once : Submitted
once = record {
  context = record context {
    last_qp_selection = pos 0;
    qp_management = record qp { assign_queue = 0 ∷ [] } ∷ qp ∷ qp ∷ qp ∷ [];
  };
  store = record { cells = some (record { refs = 2; object = object }) ∷ []; calls = [] };
  result = some 0;
}

submitted_once : submit context empty_store read (first ∷ []) none ≡ ok once
unfolding submit select_qpi split split_from enqueue make_shared acquire release put cell
submitted_once = refl

abbrev busy : Machine
busy = reads_on fresh (select_qpi context).1 once

reach-busy : MachineReach OnlyReads Accepted fresh busy
reach-busy = next here (submits read (first ∷ []) none once refl (λ e. cc) submitted_once)

Reach-Runs_example :
    Runs OnlyReads Accepted fresh busy 0 qp
    × ((q' : Qp)
        → qp_at busy 0 ≡ some q'
        → (total (busy.lanes 0).flights + (busy.lanes 0).recvs ≤ q'.outstanding_rdma_reads)
          × (q'.outstanding_rdma_reads < max_send_wr))
Reach-Runs_example = Reach-Runs OnlyReads Accepted fresh busy fresh-IsNew reach-busy 0 qp refl

-- The read that waits is one that the client can wait for.
waited : Waited once.store 0
unfolding find cell
waited = (object, refl, refl, omega arith)
