-- ===== src/Completion.antt =====
-- `RDMAContext::cq_poll_handle` of csrc/engine/rdma/rdma_context.cpp: what the context does with the
-- work completions that it polls.
pub mod Single
pub mod Rounds
pub mod Thread
mod Tests
use dlslime.Prelude.{
  ℕ, zero, suc, ◌+◌, ◌-◌, ◌%◌, Bool, true, false, Option, none, some, List, [], ◌∷◌, get_elem?, set,
  Result, ok, err, or_fault, ◌>>=◌, assertion_failed, out_of_bounds, sub32, if◌then◌else◌, ℤ, pos,
  negsuc, u64_mod, leb,
}
use dlslime.Assignment.{OpCode, read, send, recv, other}
use dlslime.Store.{Store, RdmaAssignment, CallbackInfo, find, invoke}
use dlslime.Context.{Qp}
use dlslime.WorkRequest.{CallbackInfoWithQpi}
use dlslime.Dispatch.{success, failed}

-- `ibv_wc`: whether its status is IBV_WC_SUCCESS, and the `wr_id` of its request.
pub record Wc : Type 0 where
  pub succeeded : Bool
  pub wr_id : Option CallbackInfoWithQpi

abbrev pub status_code : Bool → ℕ
status_code true = success
status_code false = failed

-- The queue pairs of the context and the store.
pub record Polled : Type 0 where
  pub qps : List Qp
  pub store : Store

-- The `switch` over the opcode; the default aborts.
unfoldable pub deliver : Store → ℕ → ℕ → OpCode → Result Store
deliver s id code (other n) = err assertion_failed
deliver s id code read = invoke s id code
deliver s id code send = invoke s id code
deliver s id code recv = invoke s id code

-- `outstanding_rdma_reads_.fetch_sub(batch_size)`
unfoldable pub refund : Qp → ℕ → Qp
refund q n = record q { outstanding_rdma_reads = sub32 q.outstanding_rdma_reads n }

-- The callback with the status, then the size of the batch that it stands for. The pointer leads
-- into the assignment, which may be gone.
unfoldable pub complete : Store → ℕ → Bool → Result (Store × ℕ)
unfolding deliver
complete s id succeeded = do
  a ← find s id
  s' ← deliver s id (status_code succeeded) a.callback_info.opcode
  b ← find s' id
  ok (s', b.callback_info.batch_size)

-- The body of the loop over the completions.
unfoldable pub handle_wc : Polled → Wc → Result Polled
unfolding complete refund
handle_wc p wc = elim wc.wr_id [
  | none ↦ ok p
  | some c ↦ do
    (s, batch_size) ← complete p.store c.info wc.succeeded
    q ← or_fault out_of_bounds (get_elem? p.qps c.qpi)
    ok (record { qps = set p.qps c.qpi (refund q batch_size); store = s })
]

-- `for (i = 0; i < nr_poll; ++i)`: a count above the completions that were written reads past them.
unfoldable pub handle_wcs : ℕ → Polled → List Wc → Result Polled
handle_wcs zero p wcs = ok p
handle_wcs (suc n) p [] = err out_of_bounds
handle_wcs (suc n) p (wc ∷ wcs) = do q ← handle_wc p wc; handle_wcs n q wcs

-- What `ibv_poll_cq` returns, an `int`, converted to `size_t nr_poll`.
abbrev pub nr_poll_of : ℤ → ℕ
nr_poll_of (pos n) = n
nr_poll_of (negsuc n) = u64_mod - suc n

-- One call of `ibv_poll_cq`, with the value of `stop_cq_future_` that the round reads.
pub record Poll : Type 0 where
  pub stop : Bool
  pub ret : ℤ
  pub wcs : List Wc

-- How the inner loop stands after the given polls: the completion queue is drained, the function
-- has returned 0, or the loop goes on polling.
pub data PollState : Type 0 where
  drained : Polled → PollState
  returned : Polled → PollState
  polling : Polled → PollState

-- The inner loop. Its test `nr_poll < 0` is of an unsigned number and never holds.
unfoldable pub poll_loop : Polled → List Poll → Result PollState
poll_loop p [] = ok (polling p)
poll_loop p (poll ∷ polls) = elim (nr_poll_of poll.ret) [
  | zero ↦ ok (drained p)
  | suc n ↦ elim poll.stop [
    | true ↦ ok (returned p)
    | false ↦ handle_wcs (suc n) p poll.wcs >>= λ q. poll_loop q polls
  ]
]
