-- ===== src/Dispatch/Thread/Tests.antt =====
-- The ends of the dispatching thread, and a queue that it serves.
use dlslime.Prelude.{◌≤◌, arith, ◌≡◌, refl, lookup, true, false, none, [], ◌∷◌, ok, pos, negsuc}
use dlslime.Assignment.{read}
use dlslime.MemoryPool.{get_mr, get_remote_mr}
use dlslime.Store.{new_rdma_assignment, make_shared, empty_store, find, cell, acquire, release, put}
use dlslime.WorkRequest.{
  local_sge, charge, build_read_wr, read_wr, read_wrs, nonempty, post_read_batch,
}
use dlslime.Dispatch.{post, dispatch, dispatch_queue, dispatch_front}
use dlslime.Dispatch.Thread.{Shared, Turn, busy, ends, waits, drain, work_loop, wq_dispatch_handle}
use dlslime.Dispatch.Thread.{emptied}
use dlslime.Dispatch.Thread.Drain.{IsRead, drain-emptied}
use dlslime.Samples.{pool, qp, first, second, region}

abbrev shared : Shared
unfolding make_shared
shared = record {
  qp = record qp { assign_queue = 0 ∷ [] };
  store = (make_shared empty_store (new_rdma_assignment read (first ∷ second ∷ []) none)).0;
}

abbrev turn : Turn
turn = record { ret = 0; others = λ sh. sh }

not_connected : wq_dispatch_handle pool 0 false [] shared ≡ ok (ends (negsuc 0) shared)
unfolding wq_dispatch_handle
not_connected = refl

-- The queue's pointer is the last one, so that the object goes with it.
serves :
    wq_dispatch_handle pool 0 true
      (record { others = λ sh. sh; turns = turn ∷ turn ∷ [] } ∷ [])
      shared
    ≡ ok (
        waits (record {
          qp = record qp { outstanding_rdma_reads = 2 };
          store = record { cells = none ∷ []; calls = [] };
        }))
unfolding wq_dispatch_handle work_loop drain dispatch_front dispatch_queue dispatch post
    post_read_batch read_wrs read_wr local_sge build_read_wr charge nonempty get_mr get_remote_mr
    lookup find cell acquire release put make_shared
serves = refl

-- A queue pair with no room keeps the thread in the inner loop.
no_room :
    drain pool 0
      (turn ∷ turn ∷ [])
      (record shared { qp = record (shared.qp) { outstanding_rdma_reads = 8190 } })
    ≡ ok (busy (record shared { qp = record (shared.qp) { outstanding_rdma_reads = 8190 } }))
unfolding drain dispatch_front dispatch_queue dispatch find cell acquire release put make_shared
no_room = refl

stops :
    wq_dispatch_handle pool 0 true
      (record {
        others = λ sh. record sh { qp = record (sh.qp) { stop_wq_future = true } };
        turns = turn ∷ [];
      }
        ∷ [])
      shared
    ≡ ok (ends (pos 0) (record shared { qp = record (shared.qp) { stop_wq_future = true } }))
unfolding wq_dispatch_handle work_loop shared
stops = refl

shared-IsRead : IsRead pool shared.store 0 2
unfolding get_mr lookup make_shared cell shared
shared-IsRead = record {
  held = record { refs = 1; object = new_rdma_assignment read (first ∷ second ∷ []) none };
  here = refl;
  opcode = refl;
  size = refl;
  long = refl;
  some_work = omega arith;
  known = ((region, refl), ((region, refl), tt));
}

drain-emptied_example :
    (sh' : Shared) × (drain pool 0 (turn ∷ []) shared ≡ ok (emptied sh'))
    × (sh'.qp.assign_queue ≡ [])
    × (sh'.qp.outstanding_rdma_reads ≤ 2)
unfolding shared
drain-emptied_example =
    drain-emptied pool 0 ((0, 2) ∷ []) (turn ∷ []) shared refl (shared-IsRead, tt) ((λ h. h), tt)
      (omega arith) (omega arith)
      (record { queue = λ sh. refl; count = λ sh. omega arith; cells = λ sh id h. refl }, tt)
