-- ===== src/Dispatch.antt =====
-- `RDMAContext::wq_dispatch_handle` of csrc/engine/rdma/rdma_context.cpp: one round of the inner
-- loop, which takes the front of a queue pair's assignment queue to the hardware.
pub mod Window
pub mod Outcomes
pub mod Reports
pub mod Served
pub mod Forward
pub mod Thread
pub mod Wakeup
use dlslime.Prelude.{
  ℕ, ◌+◌, Bool, true, false, Option, none, some, List, [], ◌∷◌, length, Result, ok, err, ◌>>=◌, ltb,
  size_of_int, u64, if◌then◌else◌, ℤ, out_of_bounds,
}
use dlslime.Assignment.{OpCode, read, send, recv, other}
use dlslime.MemoryPool.{MemoryPool}
use dlslime.RdmaInfo.{max_send_wr}
use dlslime.Store.{Store, RdmaAssignment, find, invoke, acquire, release}
use dlslime.Context.{Qp}
use dlslime.WorkRequest.{SendWr, RecvWr, post_send, post_recv, post_read_batch}

-- CALLBACK_STATUS
abbrev pub success : ℕ
success = 0

abbrev pub assignment_batch_overflow : ℕ
assignment_batch_overflow = 400

abbrev pub unknown_opcode : ℕ
unknown_opcode = 401

abbrev pub failed : ℕ
failed = 403

-- What a round hands to the verbs library, with the code of the call, or why it hands over nothing.
pub data Action : Type 0 where
  posted : List SendWr → ℤ → Action
  posted_recv : RecvWr → ℤ → Action
  overflow : Action
  unknown : Action
  full : Action

pub record Round : Type 0 where
  pub qp : Qp
  pub store : Store
  pub action : Action

-- `assign_queue_.pop()`
abbrev pop : Qp → List ℕ → Qp
pop q rest = record q { assign_queue = rest }

-- The `switch` over the opcode. `ret` is what the verbs library returns.
unfoldable pub post : MemoryPool → ℕ → Qp → Store → ℕ → RdmaAssignment → ℕ → OpCode → Result Round
post p qpi q s id a ret send = do
  (q', wr, code) ← post_send p q a ret
  ok (record { qp = q'; store = s; action = posted (wr ∷ []) code })
post p qpi q s id a ret recv = do
  (q', wr, code) ← post_recv p q a ret
  ok (record { qp = q'; store = s; action = posted_recv wr code })
post p qpi q s id a ret read = do
  (q', wrs, code) ← post_read_batch p qpi q id a ret
  ok (record { qp = q'; store = s; action = posted wrs code })
post p qpi q s id a ret (other n) = do
  s' ← invoke s id unknown_opcode
  ok (record { qp = q; store = s'; action = unknown })

-- `batch_size + outstanding_rdma_reads_ < MAX_SEND_WR`, as a sum of two `size_t`.
abbrev pub fits_window : ℕ → Qp → Bool
fits_window batch_size q = ltb (u64 (batch_size + size_of_int q.outstanding_rdma_reads)) max_send_wr

-- The round's tests in their order. The queue's pointer to the front goes with `pop`.
unfoldable pub dispatch :
    MemoryPool → ℕ → Qp → List ℕ → Store → ℕ → RdmaAssignment → ℕ → Result Round
dispatch p qpi q rest s id a ret =
    if ltb max_send_wr a.batch_size
    then (do
      s' ← invoke s id assignment_batch_overflow
      ok (record { qp = pop q rest; store = release s' id; action = overflow }))
    else if fits_window a.batch_size q
    then (do
      r ← post p qpi q s id a ret a.opcode
      ok (record r { qp = pop r.qp rest; store = release r.store id }))
    else ok (record { qp = q; store = s; action = full })

-- `front_assign` is a copy of the queue's pointer, and ends with the round.
unfoldable pub dispatch_queue : MemoryPool → ℕ → Qp → List ℕ → Store → ℕ → Result Round
unfolding dispatch
dispatch_queue p qpi q [] s ret = err out_of_bounds
dispatch_queue p qpi q (id ∷ rest) s ret = do
  let held = acquire s id
  a ← find held id
  r ← dispatch p qpi q rest held id a ret
  ok (record r { store = release r.store id })

unfoldable pub dispatch_front : MemoryPool → ℕ → Qp → Store → ℕ → Result Round
unfolding dispatch_queue
dispatch_front p qpi q s ret = dispatch_queue p qpi q q.assign_queue s ret
