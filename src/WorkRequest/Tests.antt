-- ===== src/WorkRequest/Tests.antt =====
-- The requests of a batch of two reads.
use dlslime.Prelude.{◌≡◌, refl, none, [], ◌∷◌, List, length, ok, arith, pos}
use dlslime.Assignment.{read}
use dlslime.MemoryPool.{get_mr}
use dlslime.Prelude.{lookup}
use dlslime.Store.{new_rdma_assignment, RdmaAssignment}
use dlslime.WorkRequest.{SendWr, post_read_batch}
use dlslime.WorkRequest.Batch.{AllKnown, AreReadsOf, post_read_batch-AreReadsOf}
use dlslime.Samples.{pool, qp, first, second, region}

both_known : AllKnown pool (first ∷ second ∷ [])
unfolding get_mr lookup
both_known = ((region, refl), ((region, refl), tt))

abbrev two_reads : RdmaAssignment
two_reads = new_rdma_assignment read (first ∷ second ∷ []) none

post_read_batch-AreReadsOf_example :
    (wrs : List SendWr) × (post_read_batch pool 3 qp 0 two_reads 0
      ≡ ok (record qp { outstanding_rdma_reads = 2 }, wrs, pos 0))
    × (length wrs ≡ 2)
    × AreReadsOf pool 2 (record { info = 0; qpi = 3 }) 0 (first ∷ second ∷ []) wrs
post_read_batch-AreReadsOf_example =
    post_read_batch-AreReadsOf pool 3 qp 0 two_reads 0 both_known refl (omega arith)
