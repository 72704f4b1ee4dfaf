-- ===== src/Machine.antt =====
-- A context at work, as csrc/engine/rdma/rdma_context.cpp composes it: clients that submit, a dispatching
-- thread for each queue pair, the hardware, and one polling thread for all of them, in any order.
pub mod Own
pub mod Project
pub mod Runs
pub mod Lift
pub mod Finish
mod Tests
use dlslime.Prelude.{
  ℕ, suc, ◌≡◌, ◌≢◌, Bool, true, false, Option, none, some, List, [], ◌∷◌, ◌++◌, length, get_elem?,
  set, ok, ◌==◌, if◌then◌else◌,
}
use dlslime.Assignment.{OpCode, AssignmentBatch}
use dlslime.Store.{Store, Callback}
use dlslime.Context.{Qp, Context, select_qpi}
use dlslime.Context.Submit.{split, submit}
use dlslime.Context.Submit
use dlslime.Context.Submit.Enqueue.{places}
use dlslime.WorkRequest.{CallbackInfoWithQpi}
use dlslime.Dispatch.{Round, dispatch_front}
use dlslime.Completion.{Polled, Wc, handle_wc}
use dlslime.System.{
  System, Phase, waiting, draining, ended, Flight, flights_after, recvs_after, Extends,
}

-- What belongs to one queue pair besides its `qp_management`: where its thread stands, what the hardware
-- has of it, and the record of its assignments.
pub record Lane : Type 0 where
  pub phase : Phase
  pub flights : List Flight
  pub recvs : ℕ
  pub submitted : List ℕ
  pub finished : List ℕ

pub record Machine : Type 0 where
  pub context : Context
  pub store : Store
  pub lanes : ℕ → Lane

abbrev pub update : (ℕ → Lane) → ℕ → Lane → ℕ → Lane
update lanes k lane i = if k == i then lane else lanes i

abbrev pub qp_at : Machine → ℕ → Option Qp
qp_at m k = get_elem? m.context.qp_management k

abbrev pub with_qp : Context → ℕ → Qp → Context
with_qp c k q = record c { qp_management = set c.qp_management k q }

abbrev pub new_lane : Lane
new_lane = record { phase = waiting; flights = []; recvs = 0; submitted = []; finished = [] }

module _ (Op : OpCode → Type 0) (Ret : ℕ → Type 0) where
  pub data MachineStep (m : Machine) : Machine → Type 0 where
    submits :
        (opcode : OpCode) (batch : AssignmentBatch) (callback : Option Callback)
        (r : Submit.Submitted)
        → Op opcode
        → (m.lanes (select_qpi m.context).1).phase ≢ draining
        → submit m.context m.store opcode batch callback ≡ ok r
        → MachineStep m (record m {
          context = r.context;
          store = r.store;
          lanes =
              update m.lanes (select_qpi m.context).1 (record (m.lanes (select_qpi m.context).1) {
                submitted =
                    (m.lanes (select_qpi m.context).1).submitted
                    ++ places (length m.store.cells) (length (split batch));
              });
        })
    wakes :
        (k : ℕ) (q : Qp)
        → qp_at m k ≡ some q
        → (m.lanes k).phase ≡ waiting
        → q.assign_queue ≢ []
        → q.stop_wq_future ≡ false
        → MachineStep m
            (record m { lanes = update m.lanes k (record (m.lanes k) { phase = draining }) })
    stops :
        (k : ℕ) (q : Qp)
        → qp_at m k ≡ some q
        → (m.lanes k).phase ≡ waiting
        → q.stop_wq_future ≡ true
        → MachineStep m
            (record m { lanes = update m.lanes k (record (m.lanes k) { phase = ended }) })
    dispatches :
        (k : ℕ) (q : Qp) (ret : ℕ) (r : Round)
        → qp_at m k ≡ some q
        → Ret ret
        → (m.lanes k).phase ≡ draining
        → q.assign_queue ≢ []
        → dispatch_front m.context.memory_pool k q m.store ret ≡ ok r
        → MachineStep m (record {
          context = with_qp m.context k r.qp;
          store = r.store;
          lanes = update m.lanes k (record (m.lanes k) {
            flights = flights_after r.action (m.lanes k).flights;
            recvs = recvs_after r.action (m.lanes k).recvs;
          });
        })
    drains :
        (k : ℕ) (q : Qp)
        → qp_at m k ≡ some q
        → (m.lanes k).phase ≡ draining
        → q.assign_queue ≡ []
        → MachineStep m
            (record m { lanes = update m.lanes k (record (m.lanes k) { phase = waiting }) })
    asks_to_stop :
        (k : ℕ) (q : Qp)
        → qp_at m k ≡ some q
        → MachineStep m
            (record m { context = with_qp m.context k (record q { stop_wq_future = true }) })
    -- The hardware completes the oldest request of a queue pair, and the polling thread, which all of
    -- them share, handles the completion.
    completes :
        (k : ℕ) (c : CallbackInfoWithQpi) (slots : ℕ) (rest : List Flight) (succeeded : Bool)
        (r : Polled)
        → (m.lanes k).flights ≡ record { wr_id = some c; slots = slots } ∷ rest
        → handle_wc
            (record { qps = m.context.qp_management; store = m.store })
            (record { succeeded = succeeded; wr_id = some c })
          ≡ ok r
        → MachineStep m (record {
          context = record (m.context) { qp_management = r.qps };
          store = r.store;
          lanes = update m.lanes k (record (m.lanes k) {
            flights = rest;
            finished = (m.lanes k).finished ++ (c.info ∷ []);
          });
        })
    completes_silently :
        (k slots : ℕ) (rest : List Flight)
        → (m.lanes k).flights ≡ record { wr_id = none; slots = slots } ∷ rest
        → MachineStep m
            (record m { lanes = update m.lanes k (record (m.lanes k) { flights = rest }) })
    receives :
        (k n : ℕ)
        → (m.lanes k).recvs ≡ suc n
        → MachineStep m (record m { lanes = update m.lanes k (record (m.lanes k) { recvs = n }) })
    elsewhere : (store : Store) → Extends m.store store → MachineStep m (record m { store = store })

  pub data MachineReach (m : Machine) : Machine → Type 0 where
    here : MachineReach m m
    next : {n k : Machine} → MachineReach m n → MachineStep n k → MachineReach m k
