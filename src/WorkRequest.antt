-- ===== src/WorkRequest.antt =====
-- csrc/engine/rdma/rdma_context.cpp: the work requests that `post_send`, `post_recv` and
-- `post_read_batch` hand to the verbs library for an assignment.
pub mod Batch
pub mod Posting
mod Tests
use dlslime.Prelude.{
  ℕ, suc, zero, ◌≡◌, refl, ◌+◌, ◌-◌, ◌==◌, if◌then◌else◌, Bool, true, false, Option, none, some,
  List, [], ◌∷◌, length, get_elem?, ℤ, pos, negsuc, Result, ok, err, or_fault, ◌>>=◌,
  null_dereference, out_of_bounds, add32, add64, u32, u64,
}
use dlslime.Assignment.{Assignment, AssignmentBatch}
use dlslime.MemoryPool.{MemoryPool, get_mr, get_remote_mr}
use dlslime.Store.{RdmaAssignment}
use dlslime.Context.{Qp}

pub data WrOpcode : Type 0 where
  wr_send : WrOpcode
  wr_rdma_read : WrOpcode

-- `callback_info_with_qpi_t`: the assignment whose `callback_info` it points to, and a queue pair.
pub record CallbackInfoWithQpi : Type 0 where
  pub info : ℕ
  pub qpi : ℕ

pub record Sge : Type 0 where
  pub addr : ℕ
  pub length : ℕ  -- uint32_t
  pub lkey : ℕ

-- `wr_id` is none for 0. `next` is the index of the next request in the array, none for NULL.
pub record SendWr : Type 0 where
  pub wr_id : Option CallbackInfoWithQpi
  pub opcode : WrOpcode
  pub sge : Sge
  pub signaled : Bool
  pub remote_addr : ℕ
  pub rkey : ℕ
  pub next : Option ℕ

pub record RecvWr : Type 0 where
  pub wr_id : Option CallbackInfoWithQpi
  pub sge : Sge

-- The source of an assignment in the local region of its key.
unfoldable pub local_sge : MemoryPool → Assignment → Result Sge
local_sge p a = do
  mr ← or_fault null_dereference (get_mr p a.mr_key)
  ok (record { addr = add64 mr.addr a.source_offset; length = u32 a.length; lkey = mr.lkey })

-- `outstanding_rdma_reads_.fetch_add(batch_size)`
unfoldable pub charge : Qp → ℕ → Qp
charge q n = record q { outstanding_rdma_reads = add32 q.outstanding_rdma_reads n }

-- What the verbs library returned decides between 0 and -1.
abbrev pub code_of_ret : ℕ → ℤ
code_of_ret zero = pos 0
code_of_ret (suc n) = negsuc 0

-- `ret` is what `ibv_post_send` returns.
unfoldable pub post_send : MemoryPool → Qp → RdmaAssignment → ℕ → Result (Qp × SendWr × ℤ)
unfolding local_sge charge
post_send p q a ret = do
  first ← or_fault out_of_bounds (get_elem? a.batch 0)
  sge ← local_sge p first
  let wr : SendWr = record {
    wr_id = none;
    opcode = wr_send;
    sge = sge;
    signaled = true;
    remote_addr = 0;
    rkey = 0;
    next = none;
  }
  ok (charge q a.batch_size, wr, code_of_ret ret)

-- `ret` is what `ibv_post_recv` returns.
unfoldable pub post_recv : MemoryPool → Qp → RdmaAssignment → ℕ → Result (Qp × RecvWr × ℤ)
unfolding local_sge charge
post_recv p q a ret = do
  first ← or_fault out_of_bounds (get_elem? a.batch 0)
  sge ← local_sge p first
  ok (charge q a.batch_size, record { wr_id = none; sge = sge }, code_of_ret ret)

unfoldable pub build_read_wr : MemoryPool → ℕ → CallbackInfoWithQpi → ℕ → Assignment → Sge → SendWr
build_read_wr p batch_size callback i a sge =
    let remote_mr = get_remote_mr p a.mr_key in
    let is_last = i == batch_size - 1 in
    record {
      wr_id = if is_last then some callback else none;
      opcode = wr_rdma_read;
      sge = sge;
      signaled = is_last;
      remote_addr = add64 remote_mr.addr a.target_offset;
      rkey = remote_mr.rkey;
      next = if is_last then none else some (i + 1);
    }

-- Round `i` of the loop of `post_read_batch`.
unfoldable pub read_wr : MemoryPool → ℕ → CallbackInfoWithQpi → ℕ → Assignment → Result SendWr
unfolding local_sge build_read_wr
read_wr p batch_size callback i a = do
  sge ← local_sge p a
  ok (build_read_wr p batch_size callback i a sge)

-- The loop, from round `i` on, over the assignments that are left.
unfoldable pub read_wrs :
    MemoryPool → ℕ → CallbackInfoWithQpi → ℕ → AssignmentBatch → Result (List SendWr)
read_wrs p batch_size callback i [] = ok []
read_wrs p batch_size callback i (a ∷ batch) = do
  wr ← read_wr p batch_size callback i a
  rest ← read_wrs p batch_size callback (i + 1) batch
  ok (wr ∷ rest)

-- The verbs library reads the first request of an array, which must not be empty.
unfoldable pub nonempty : List SendWr → Result (List SendWr)
nonempty [] = err out_of_bounds
nonempty (wr ∷ wrs) = ok (wr ∷ wrs)

-- `ret` is what `ibv_post_send` returns, `id` the place of the assignment in the store.
unfoldable pub post_read_batch :
    MemoryPool → ℕ → Qp → ℕ → RdmaAssignment → ℕ → Result (Qp × List SendWr × ℤ)
unfolding charge nonempty
post_read_batch p qpi q id a ret = do
  wrs ← read_wrs p a.batch_size (record { info = id; qpi = qpi }) 0 a.batch
  posted ← nonempty wrs
  ok (charge q a.batch_size, posted, code_of_ret ret)

pub charge_lem :
    (q : Qp) (n : ℕ)
    → charge q n ≡ record q { outstanding_rdma_reads = add32 q.outstanding_rdma_reads n }
unfolding charge
charge_lem q n = refl
