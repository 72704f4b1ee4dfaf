-- ===== src/System/Tests.antt =====
-- A run of one queue pair: two reads are submitted, dispatched and completed.
use dlslime.Prelude.{
  lookup, ◌+◌, ◌≤◌, ◌<◌, ◌≡◌, ◌≢◌, refl, true, false, none, some, List, [], ◌∷◌, ◌++◌, ok, arith,
  pos,
}
use dlslime.Assignment.{read}
use dlslime.MemoryPool.{get_mr, get_remote_mr}
use dlslime.RdmaInfo.{max_send_wr}
use dlslime.Store.{
  Store, RdmaAssignment, empty_store, new_rdma_assignment, make_shared, acquire, release, put, cell,
  find, call, invoke, with_callback_info,
}
use dlslime.Context.Submit.{split_from, split, enqueue}
use dlslime.WorkRequest.{
  SendWr, wr_rdma_read, local_sge, charge, build_read_wr, read_wr, read_wrs, nonempty,
  post_read_batch,
}
use dlslime.Dispatch.{Round, posted, post, dispatch, dispatch_queue, dispatch_front}
use dlslime.Completion.{deliver, complete, refund}
use dlslime.System.{
  System, waiting, draining, submitted_system, after_round, Reach, here, next, submits, wakes,
  dispatches, completes, IsInitial,
}
use dlslime.System.Hardware.{total}
use dlslime.System.Capacity.{Reach-within_capacity}
use dlslime.System.Order.{OnlyReads, Accepted, in_flight, Reach-in_order}
use dlslime.System.Room.{Reach-has_room}
use dlslime.Dispatch.{overflow, full}
use dlslime.Dispatch.Served.{Served, dispatch_front-Served}
use dlslime.Samples.{pool, qp, first, second}

abbrev pub initial : System
initial = record {
  qp = qp;
  store = empty_store;
  phase = waiting;
  flights = [];
  recvs = 0;
  submitted = [];
  finished = [];
}

pub initial-IsInitial : IsInitial initial
initial-IsInitial = record {
  queue = refl;
  outstanding = refl;
  flights = refl;
  recvs = refl;
  submitted = refl;
  finished = refl;
}

abbrev submitted : System
submitted = submitted_system pool 0 OnlyReads Accepted initial read (first ∷ second ∷ []) none

abbrev woken : System
woken = record submitted { phase = draining }

abbrev object : RdmaAssignment
object = new_rdma_assignment read (first ∷ second ∷ []) none

abbrev requests : List SendWr
requests =
    record {
      wr_id = none;
      opcode = wr_rdma_read;
      sge = record { addr = 1016; length = 64; lkey = 7 };
      signaled = false;
      remote_addr = 9000;
      rkey = 18;
      next = some 1;
    }
    ∷ record {
      wr_id = some (record { info = 0; qpi = 0 });
      opcode = wr_rdma_read;
      sge = record { addr = 1080; length = 64; lkey = 7 };
      signaled = true;
      remote_addr = 9064;
      rkey = 18;
      next = none;
    }
    ∷ []

abbrev held : Store
held = record { cells = some (record { refs = 1; object = object }) ∷ []; calls = [] }

abbrev round : Round
round = record {
  qp = record qp { outstanding_rdma_reads = 2 };
  store = held;
  action = posted requests (pos 0);
}

woken-queue : woken.qp.assign_queue ≡ 0 ∷ []
unfolding split_from split enqueue make_shared acquire release put cell
woken-queue = refl

round-made : dispatch_front pool 0 woken.qp woken.store 0 ≡ ok round
unfolding split_from split enqueue make_shared acquire release put cell dispatch_front
    dispatch_queue dispatch post post_read_batch read_wrs read_wr build_read_wr local_sge charge
    nonempty find get_mr get_remote_mr lookup
round-made = refl

abbrev flying : System
flying = after_round pool 0 OnlyReads Accepted woken round

reach-woken : Reach pool 0 OnlyReads Accepted initial woken
reach-woken =
    next (next here (submits read (first ∷ second ∷ []) none refl (λ e. cc)))
      (wakes refl (λ e. cc (woken-queue, e)) refl)

reach-flying : Reach pool 0 OnlyReads Accepted initial flying
reach-flying = next reach-woken (dispatches 0 round refl refl (λ e. cc (woken-queue, e)) round-made)

abbrev called : Store
called = record {
  cells =
      some (record {
        refs = 1;
        object = record object { callback_info = record (object.callback_info) { finished = 1 } };
      })
      ∷ [];
  calls = [];
}

called-made : complete held 0 true ≡ ok (called, 2)
unfolding complete deliver invoke find cell call with_callback_info put
called-made = refl

abbrev pub completed : System
completed = record flying {
  qp = refund flying.qp 2;
  store = called;
  flights = [];
  finished = 0 ∷ [];
}

pub reach-completed : Reach pool 0 OnlyReads Accepted initial completed
reach-completed =
    next reach-flying (completes (record { info = 0; qpi = 0 }) 2 [] true called 2 refl called-made)

Reach-within_capacity_example :
    (total flying.flights + flying.recvs ≤ flying.qp.outstanding_rdma_reads)
    × (flying.qp.outstanding_rdma_reads < max_send_wr)
Reach-within_capacity_example =
    Reach-within_capacity pool 0 OnlyReads Accepted initial flying initial-IsInitial reach-flying

Reach-in_order_example :
    (completed.submitted
      ≡ completed.finished ++ (in_flight completed.flights ++ completed.qp.assign_queue))
    × (total completed.flights ≡ completed.qp.outstanding_rdma_reads)
Reach-in_order_example = Reach-in_order pool 0 initial completed initial-IsInitial reach-completed

Reach-has_room_example : (round.action ≢ overflow) × (round.action ≢ full)
Reach-has_room_example =
    Reach-has_room pool 0 OnlyReads Accepted initial woken 0 round initial-IsInitial reach-woken
      (omega arith) round-made

dispatch_front-Served_example : Served pool 0 woken.qp woken.store 0 round
dispatch_front-Served_example =
    dispatch_front-Served pool 0 woken.qp woken.store 0 (omega arith) round-made
