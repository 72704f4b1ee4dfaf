-- ===== src/Completion/Thread.antt =====
-- `RDMAContext::cq_poll_handle` of csrc/engine/rdma/rdma_context.cpp as a whole: the polling thread
-- from its start to its end.
mod Tests
use dlslime.Prelude.{
  Bool, true, false, not, List, [], ◌∷◌, ℤ, pos, negsuc, Result, ok, ◌>>=◌, if◌then◌else◌,
}
use dlslime.Completion.{Polled, Poll, PollState, drained, returned, polling, poll_loop}

-- One round of the outer loop: `stop_cq_future_` as it reads it, whether `ibv_get_cq_event` and
-- `ibv_req_notify_cq` succeed, and what is polled.
pub record Event : Type 0 where
  pub stop : Bool
  pub got : Bool
  pub notified : Bool
  pub polls : List Poll

-- How the thread stands after the given rounds: the function has returned, it waits for an event, or
-- it still polls.
pub data ThreadState : Type 0 where
  ends : ℤ → Polled → ThreadState
  waits : Polled → ThreadState
  polls_on : Polled → ThreadState

-- The outer loop.
unfoldable pub event_loop : Polled → List Event → Result ThreadState
event_loop p [] = ok (waits p)
event_loop p (e ∷ events) =
    if e.stop
    then ok (ends (pos 0) p)
    else if not e.got
    then ok (ends (negsuc 0) p)
    else if not e.notified
    then ok (ends (negsuc 0) p)
    else (poll_loop p e.polls >>= λ state. elim state [
      | drained q ↦ event_loop q events
      | returned q ↦ ok (ends (pos 0) q)
      | polling q ↦ ok (polls_on q)
    ])

unfoldable pub cq_poll_handle : Bool → Polled → List Event → Result ThreadState
unfolding event_loop
cq_poll_handle connected p events =
    if not connected then ok (ends (negsuc 0) p) else event_loop p events
