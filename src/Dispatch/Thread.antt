-- ===== src/Dispatch/Thread.antt =====
-- `RDMAContext::wq_dispatch_handle` of csrc/engine/rdma/rdma_context.cpp as a whole: the dispatching
-- thread of a queue pair from its start to its end.
pub mod Drain
mod Tests
use dlslime.Prelude.{
  ℕ, Bool, true, false, not, List, [], ◌∷◌, ℤ, pos, negsuc, Result, ok, ◌>>=◌, if◌then◌else◌,
}
use dlslime.MemoryPool.{MemoryPool}
use dlslime.Store.{Store}
use dlslime.Context.{Qp}
use dlslime.Dispatch.{Round, dispatch_front}

-- The part of the state that the thread shares with the others. In the inner loop the thread holds
-- the lock of the queue, so that nothing comes in there.
pub record Shared : Type 0 where
  pub qp : Qp
  pub store : Store

-- One round of the inner loop: what the verbs library returns, and what the other threads do before
-- the next one.
pub record Turn : Type 0 where
  pub ret : ℕ
  pub others : Shared → Shared

-- How the inner loop stands after the given rounds.
pub data DrainState : Type 0 where
  emptied : Shared → DrainState
  busy : Shared → DrainState

-- One round of the outer loop: what the other threads do until the wait for work ends, and the rounds
-- of the inner loop.
pub record Wake : Type 0 where
  pub others : Shared → Shared
  pub turns : List Turn

-- How the thread stands after the given rounds: the function has returned, it waits for work, or it is
-- in the inner loop.
pub data ThreadState : Type 0 where
  ends : ℤ → Shared → ThreadState
  waits : Shared → ThreadState
  drains : Shared → ThreadState

abbrev pub is_empty : List ℕ → Bool
is_empty [] = true
is_empty (id ∷ ids) = false

abbrev pub shared_of : Round → Shared
shared_of r = record { qp = r.qp; store = r.store }

module _ (p : MemoryPool) (qpi : ℕ) where
  -- `while (!assign_queue_.empty())`. A round that finds the window full leaves the front where it is
  -- and looks at it again.
  unfoldable pub drain : List Turn → Shared → Result DrainState
  drain [] sh = ok (if is_empty sh.qp.assign_queue then emptied sh else busy sh)
  drain (turn ∷ turns) sh = elim (is_empty sh.qp.assign_queue) [
    | true ↦ ok (emptied sh)
    | false ↦ dispatch_front p qpi sh.qp sh.store turn.ret >>= λ r.
        drain turns (turn.others (shared_of r))
  ]

  -- The outer loop: it ends where `stop_wq_future_` is set before or after the wait.
  unfoldable pub work_loop : List Wake → Shared → Result ThreadState
  unfolding drain
  work_loop [] sh = ok (waits sh)
  work_loop (wake ∷ wakes) sh =
      let sh' = wake.others sh in
      if sh.qp.stop_wq_future
      then ok (ends (pos 0) sh)
      else if sh'.qp.stop_wq_future
      then ok (ends (pos 0) sh')
      else (drain wake.turns sh' >>= λ state. elim state [
        | emptied after ↦ work_loop wakes after
        | busy after ↦ ok (drains after)
      ])

  unfoldable pub wq_dispatch_handle : Bool → List Wake → Shared → Result ThreadState
  unfolding work_loop
  wq_dispatch_handle connected wakes sh =
      if not connected then ok (ends (negsuc 0) sh) else work_loop wakes sh
