-- ===== src/Dispatch/Wakeup.antt =====
-- The dispatching thread at its wait for work: `has_runnable_event_` with `assign_queue_mutex_` in
-- `submit` and `wq_dispatch_handle` of csrc/engine/rdma/rdma_context.cpp.
pub mod Stop
pub mod Guards
mod Tests
use dlslime.Prelude.{
  ℕ, ◌≡◌, ◌≢◌, refl, sym, ap, ◌∙◌, Bool, true, false, not, ◌||◌, Option, none, List, [], ◌∷◌, ok,
}
use dlslime.Assignment.{OpCode, AssignmentBatch}
use dlslime.MemoryPool.{MemoryPool}
use dlslime.Store.{Callback}
use dlslime.Context.Submit.{split, enqueue}
use dlslime.Dispatch.{Round, dispatch_front}
use dlslime.Dispatch.Thread.{Shared, is_empty, shared_of}
use dlslime.Monitor.{
  Monitor, Threads, MonitorReach, parked, passed, away, locked, changed, new_monitor,
}
use dlslime.Monitor.Sound.{IsQuiet, Reach-owed, Reach-passes}

-- The shared state, and whether the thread is past the test of `stop_wq_future_` after the wait, in the
-- inner loop.
pub record Worker : Type 0 where
  pub shared : Shared
  pub open shared use {qp, store}
  pub draining : Bool

-- The predicate of the wait.
abbrev pub has_work : Worker → Bool
has_work w = not (is_empty w.qp.assign_queue) || w.qp.stop_wq_future

is_empty_lem : (ids : List ℕ) → ids ≢ [] → is_empty ids ≡ false
is_empty_lem [] h = absurd (h refl)
is_empty_lem (id ∷ ids) h = refl

has_work_lem : (w : Worker) → w.qp.assign_queue ≢ [] → has_work w ≡ true
has_work_lem w h = rw (is_empty_lem w.qp.assign_queue h) refl

module _ (p : MemoryPool) (qpi : ℕ) where
  -- With the lock after the wait: the test of `stop_wq_future_`, and the rounds of the inner loop.
  pub data Works (w : Worker) : Worker → Type 0 where
    begins :
        w.draining ≡ false → w.qp.stop_wq_future ≡ false → Works w (record w { draining = true })
    rounds :
        (ret : ℕ) (r : Round)
        → w.draining ≡ true
        → w.qp.assign_queue ≢ []
        → dispatch_front p qpi w.qp w.store ret ≡ ok r
        → Works w (record w { shared = shared_of r })

  -- The lock is given back where the thread returns and at the end of the inner loop.
  pub data Leaves (w : Worker) : Worker → Type 0 where
    returns : w.draining ≡ false → w.qp.stop_wq_future ≡ true → Leaves w w
    drained : w.draining ≡ true → w.qp.assign_queue ≡ [] → Leaves w (record w { draining = false })

  abbrev pub submitted : Worker → OpCode → AssignmentBatch → Option Callback → Worker
  submitted w opcode batch callback =
      let e =
        enqueue opcode callback (split batch)
          (record { store = w.store; queue = w.qp.assign_queue; held = none }) in
      record w {
        shared = record { qp = record (w.qp) { assign_queue = e.queue }; store = e.store };
      }

  pub data Submits (w : Worker) : Worker → Type 0 where
    submits :
        (opcode : OpCode) (batch : AssignmentBatch) (callback : Option Callback)
        → Submits w (submitted w opcode batch callback)

  -- Whatever else happens leaves the queue and the flag alone.
  pub record Quiet (w w' : Worker) : Type 0 where
    pub queue : w'.qp.assign_queue ≡ w.qp.assign_queue
    pub flag : w'.qp.stop_wq_future ≡ w.qp.stop_wq_future
    pub place : w'.draining ≡ w.draining

  -- `clients` says whether somebody submits, `spurious` whether a wait may end by itself.
  abbrev pub workers : Type 0 → Type 0 → Threads Worker
  workers clients spurious = record {
    ready = has_work;
    arrive = λ w. w.qp.stop_wq_future ≡ false;
    work = Works;
    leave = Leaves;
    change = λ w w'. clients × Submits w w';
    quiet = Quiet;
    spurious = spurious;
  }

  pub workers-IsQuiet : (clients spurious : Type 0) → IsQuiet (workers clients spurious)
  workers-IsQuiet clients spurious w w' q h =
      (λ i. not (is_empty (sym q.queue i)) || sym q.flag i) ∙ h

  -- No submission goes unnoticed: whenever an assignment stands in the queue, the dispatching thread is
  -- not left in its wait for work, unless whoever submits is still about to notify it; and once the
  -- submission goes on to give the lock back, the thread comes to the end of its wait, with nothing else
  -- to happen, as long as it is not asked to stop.
  pub submission-noticed :
      (clients spurious : Type 0) (w : Worker) (m : Monitor Worker)
      → MonitorReach (workers clients spurious) (new_monitor w) m
      → m.shared.qp.assign_queue ≢ []
      → m.shared.qp.stop_wq_future ≡ false
      → (m.waiter ≡ parked → m.holder ≡ changed)
        × (m.holder ≢ locked
            → (n : Monitor Worker) × MonitorReach (workers clients spurious) m n
              × (n.waiter ≡ passed)
              × (n.shared ≡ m.shared))
  submission-noticed clients spurious w m r some_left running =
      let t = workers clients spurious in
      let quiet = workers-IsQuiet clients spurious in
      let ready : has_work m.shared ≡ true = has_work_lem m.shared some_left in
      (
        λ waits. Reach-owed t w m quiet r waits ready,
        λ going. Reach-passes t w m quiet r ready going (λ gone. running),
      )
