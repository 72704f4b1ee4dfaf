-- ===== src/System.antt =====
-- A queue pair at work: the client that submits, the thread of `wq_dispatch_handle`, the hardware,
-- and the thread of `cq_poll_handle`, in any order. The three loops of
-- csrc/engine/rdma/rdma_context.cpp are cut into the steps between which the others can run.
pub mod Inv
pub mod Hardware
pub mod Rounds
pub mod Capacity
pub mod Room
pub mod Order
pub mod Fifo
pub mod Progress
pub mod Distinct
pub mod Fresh
pub mod Alive
pub mod Delivers
pub mod Finish
pub mod Lifetime
pub mod Silent
pub mod Large
mod Tests
mod LifetimeTests
mod SilentTests
use dlslime.Prelude.{
  ℕ, zero, suc, ◌+◌, ◌≤◌, ◌<◌, ◌≡◌, ◌≢◌, Bool, true, false, Option, none, some, List, [], ◌∷◌, ◌++◌,
  length, Result, ok, if◌then◌else◌, ℤ, pos, negsuc,
}
use dlslime.Assignment.{OpCode, AssignmentBatch}
use dlslime.MemoryPool.{MemoryPool}
use dlslime.Store.{Store, RdmaAssignment, Callback, find}
use dlslime.Store.Frame.{SameShape}
use dlslime.Context.{Qp}
use dlslime.Context.Submit.{split, enqueue}
use dlslime.Context.Submit.Enqueue.{places}
use dlslime.WorkRequest.{SendWr, RecvWr, CallbackInfoWithQpi}
use dlslime.Dispatch.{Action, posted, posted_recv, overflow, unknown, full, Round, dispatch_front}
use dlslime.Completion.{complete, refund}

-- A signalled request that the hardware has not completed, with the slots of the send queue that
-- become free with it: its own and those of the requests before it that are not signalled.
pub record Flight : Type 0 where
  pub wr_id : Option CallbackInfoWithQpi
  pub slots : ℕ

-- The requests of a list, posted after `waiting` requests that are not signalled.
abbrev pub flights_of : ℕ → List SendWr → List Flight
flights_of waiting [] = []
flights_of waiting (wr ∷ wrs) =
    if wr.signaled
    then record { wr_id = wr.wr_id; slots = suc waiting } ∷ flights_of 0 wrs
    else flights_of (suc waiting) wrs

-- Where the dispatching thread stands: at the wait for work, in the inner loop, which holds the
-- lock of the queue, or at its end.
pub data Phase : Type 0 where
  waiting : Phase
  draining : Phase
  ended : Phase

-- `flights` and `recvs` are the hardware's: requests under way, oldest first, and receives under
-- way. `submitted` and `finished` are a record of the places of assignments, for the statements.
pub record System : Type 0 where
  pub qp : Qp
  pub store : Store
  pub phase : Phase
  pub flights : List Flight
  pub recvs : ℕ
  pub submitted : List ℕ
  pub finished : List ℕ

-- What the hardware takes over. The verbs library takes nothing of a list that it refuses.
abbrev pub flights_after : Action → List Flight → List Flight
flights_after (posted wrs (pos n)) flights = flights ++ flights_of 0 wrs
flights_after (posted wrs (negsuc n)) flights = flights
flights_after (posted_recv wr code) flights = flights
flights_after overflow flights = flights
flights_after unknown flights = flights
flights_after full flights = flights

abbrev pub recvs_after : Action → ℕ → ℕ
recvs_after (posted_recv wr (pos n)) recvs = suc recvs
recvs_after (posted_recv wr (negsuc n)) recvs = recvs
recvs_after (posted wrs code) recvs = recvs
recvs_after overflow recvs = recvs
recvs_after unknown recvs = recvs
recvs_after full recvs = recvs

-- Other queue pairs, clients and threads work on the store too: they add objects, and take away
-- pointers to those that are there, but change no shape.
pub record Extends (s s' : Store) : Type 0 where
  pub grows : length s.cells ≤ length s'.cells
  pub shapes :
      (id : ℕ) (b : RdmaAssignment)
      → id < length s.cells
      → find s' id ≡ ok b
      → (a : RdmaAssignment) × (find s id ≡ ok a) × SameShape a b

-- `Op` says which opcodes the client submits, `Ret` what the verbs library may return.
module _ (p : MemoryPool) (qpi : ℕ) (Op : OpCode → Type 0) (Ret : ℕ → Type 0) where
  abbrev pub submitted_system : System → OpCode → AssignmentBatch → Option Callback → System
  submitted_system s opcode batch callback =
      let e =
        enqueue opcode callback (split batch)
          (record { store = s.store; queue = s.qp.assign_queue; held = none }) in
      record s {
        qp = record (s.qp) { assign_queue = e.queue };
        store = e.store;
        submitted = s.submitted ++ places (length s.store.cells) (length (split batch));
      }

  abbrev pub after_round : System → Round → System
  after_round s r = record s {
    qp = r.qp;
    store = r.store;
    flights = flights_after r.action s.flights;
    recvs = recvs_after r.action s.recvs;
  }

  pub data Step (s : System) : System → Type 0 where
    -- `submit` takes the lock of the queue, which the inner loop does not give up.
    submits :
        (opcode : OpCode) (batch : AssignmentBatch) (callback : Option Callback)
        → Op opcode
        → s.phase ≢ draining
        → Step s (submitted_system s opcode batch callback)
    -- `has_runnable_event_.wait` returns and the thread goes into the inner loop.
    wakes :
        s.phase ≡ waiting
        → s.qp.assign_queue ≢ []
        → s.qp.stop_wq_future ≡ false
        → Step s (record s { phase = draining })
    -- The thread sees that it has to stop.
    stops : s.phase ≡ waiting → s.qp.stop_wq_future ≡ true → Step s (record s { phase = ended })
    dispatches :
        (ret : ℕ) (r : Round)
        → Ret ret
        → s.phase ≡ draining
        → s.qp.assign_queue ≢ []
        → dispatch_front p qpi s.qp s.store ret ≡ ok r
        → Step s (after_round s r)
    -- The inner loop ends; the test of the outer loop is made by the next step.
    drains : s.phase ≡ draining → s.qp.assign_queue ≡ [] → Step s (record s { phase = waiting })
    -- `stop_future` sets the flag.
    asks_to_stop : Step s (record s { qp = record (s.qp) { stop_wq_future = true } })
    -- The hardware completes its oldest request, and the polling thread handles the completion.
    completes :
        (c : CallbackInfoWithQpi) (slots : ℕ) (rest : List Flight) (succeeded : Bool)
        (store : Store) (batch_size : ℕ)
        → s.flights ≡ record { wr_id = some c; slots = slots } ∷ rest
        → complete s.store c.info succeeded ≡ ok (store, batch_size)
        → Step s (record s {
          qp = refund s.qp batch_size;
          store = store;
          flights = rest;
          finished = s.finished ++ (c.info ∷ []);
        })
    -- A request without a callback: the polling thread does nothing.
    completes_silently :
        (slots : ℕ) (rest : List Flight)
        → s.flights ≡ record { wr_id = none; slots = slots } ∷ rest
        → Step s (record s { flights = rest })
    receives : (n : ℕ) → s.recvs ≡ suc n → Step s (record s { recvs = n })
    elsewhere : (store : Store) → Extends s.store store → Step s (record s { store = store })

  pub data Reach (s : System) : System → Type 0 where
    here : Reach s s
    next : {t u : System} → Reach s t → Step t u → Reach s u

-- A new queue pair, with nothing submitted and nothing under way.
pub record IsInitial (s : System) : Type 0 where
  pub queue : s.qp.assign_queue ≡ []
  pub outstanding : s.qp.outstanding_rdma_reads ≡ 0
  pub flights : s.flights ≡ []
  pub recvs : s.recvs ≡ 0
  pub submitted : s.submitted ≡ []
  pub finished : s.finished ≡ []
