-- ===== src/Bench/Transfer/Tests.antt =====
-- A benchmark of two blocks of four bytes.
use Prim.Native.Nat.{◌<◌}
use dlslime.Prelude.{
  ℕ, ◌+◌, ◌≡◌, refl, true, false, none, some, List, [], ◌∷◌, get_elem?, ok, err, arith, lookup, pos,
  assertion_failed, replicate,
}
use dlslime.Assignment.{Assignment, new_assignment, read}
use dlslime.MemoryPool.{MemoryPool, get_mr, get_remote_mr}
use dlslime.Store.{RdmaAssignment, new_rdma_assignment}
use dlslime.WorkRequest.{SendWr, wr_rdma_read, post_read_batch, read_wrs}
use dlslime.WorkRequest
use dlslime.Bench.Memory.{Block, zeroed, fill_from, check_from}
use dlslime.Bench.Transfer.{
  Flags, default_flags, memory_allocate_initiator, memory_allocate_target, batch_from,
  check_initiator_copied,
}
use dlslime.Bench.Transfer.Copies.{batch_from-InBounds}
use dlslime.Bench.Transfer.Checked.{check_initiator_copied-AllRead}
use dlslime.Samples.{qp}

abbrev tiny : Flags
tiny = record default_flags { buffer_size = 9; block_size = 4; batch_size = 2; concurrent_num = 3 }

abbrev fresh : Block
fresh = record { addr = 1000; bytes = replicate 9 77 }

allocated :
    memory_allocate_initiator tiny (some fresh) ≡ ok (record fresh { bytes = replicate 9 0 })
unfolding memory_allocate_initiator zeroed
allocated = refl

batch_from-InBounds_example :
    (a : Assignment) × (get_elem? (batch_from "buffer" 4 2 0) 1 ≡ some a)
    × (a.source_offset ≡ 4)
    × (a.target_offset ≡ 4)
    × (a.source_offset + a.length < 9)
    × (a.target_offset + a.length < 9)
batch_from-InBounds_example =
    batch_from-InBounds tiny (some fresh) (record fresh { bytes = replicate 9 0 }) 1 allocated
      (omega arith) (omega arith)

abbrev filled : List ℕ
filled = 0 ∷ 1 ∷ 2 ∷ 3 ∷ 4 ∷ 5 ∷ 6 ∷ 7 ∷ 8 ∷ []

abbrev registered : MemoryPool
registered = record {
  pd = some 1;
  mrs = ("buffer", record { addr = 1000; length = 9; lkey = 7; rkey = 8 }) ∷ [];
  remote_mrs = ("buffer", record { addr = 9000; length = 9; rkey = 18 }) ∷ [];
}

abbrev work : RdmaAssignment
work =
    new_rdma_assignment read (new_assignment "buffer" 0 0 4 ∷ new_assignment "buffer" 4 4 4 ∷ [])
      none

abbrev requests : List SendWr
requests =
    record {
      wr_id = none;
      opcode = wr_rdma_read;
      sge = record { addr = 1000; length = 4; lkey = 7 };
      signaled = false;
      remote_addr = 9000;
      rkey = 18;
      next = some 1;
    }
    ∷ record {
      wr_id = some (record { info = 0; qpi = 3 });
      opcode = wr_rdma_read;
      sge = record { addr = 1004; length = 4; lkey = 7 };
      signaled = true;
      remote_addr = 9004;
      rkey = 18;
      next = none;
    }
    ∷ []

requests_posted :
    post_read_batch registered 3 qp 0 work 0
    ≡ ok (record qp { outstanding_rdma_reads = 2 }, requests, pos 0)
unfolding post_read_batch read_wrs get_mr get_remote_mr lookup WorkRequest.read_wr
    WorkRequest.local_sge WorkRequest.build_read_wr WorkRequest.charge WorkRequest.nonempty
    batch_from
requests_posted = refl

target_filled : memory_allocate_target tiny (some fresh) ≡ ok (record fresh { bytes = filled })
unfolding memory_allocate_target fill_from
target_filled = refl

buffer_known :
    get_mr registered "buffer" ≡ some (record { addr = 1000; length = 9; lkey = 7; rkey = 8 })
unfolding get_mr lookup
buffer_known = refl

remote_there : (get_remote_mr registered "buffer").addr ≡ 9000
unfolding get_remote_mr lookup
remote_there = refl

check_initiator_copied-AllRead_example : check_initiator_copied tiny filled ≡ ok true
unfolding get_remote_mr lookup batch_from
check_initiator_copied-AllRead_example =
    check_initiator_copied-AllRead tiny fresh (record fresh { bytes = filled }) registered
      (record { addr = 1000; length = 9; lkey = 7; rkey = 8 }) 3 qp
      (record qp { outstanding_rdma_reads = 2 }) 0 work 0 requests (pos 0) filled target_filled refl
      buffer_known refl requests_posted ((λ k h. refl), ((λ k h. refl), tt)) (omega arith)
      (omega arith) (omega arith)

-- A buffer that is still zero does not pass.
check_zero : check_initiator_copied tiny (replicate 9 0) ≡ err assertion_failed
unfolding check_initiator_copied check_from
check_zero = refl
