-- ===== src/System/SilentTests.antt =====
-- A run of one queue pair: a message is submitted, dispatched and sent.
use dlslime.Prelude.{lookup, ◌≤◌, ◌≡◌, refl, true, none, some, [], ◌∷◌, ok, pos}
use dlslime.Assignment.{send}
use dlslime.MemoryPool.{get_mr}
use dlslime.Store.{
  RdmaAssignment, new_rdma_assignment, make_shared, acquire, release, put, cell, find,
}
use dlslime.Context.Submit.{split_from, split, enqueue}
use dlslime.WorkRequest.{wr_send, local_sge, charge, post_send}
use dlslime.Dispatch.{Round, posted, post, dispatch, dispatch_queue, dispatch_front}
use dlslime.System.{
  System, draining, submitted_system, after_round, Reach, here, next, submits, wakes, dispatches,
  completes_silently,
}
use dlslime.System.Order.{Accepted}
use dlslime.System.Silent.{NoReads, Reach-never_reports}
use dlslime.Samples.{pool, qp, first}
use dlslime.System.Tests.{initial, initial-IsInitial}

abbrev sent : System
sent = submitted_system pool 0 NoReads Accepted initial send (first ∷ []) none

abbrev sending : System
sending = record sent { phase = draining }

abbrev message : RdmaAssignment
message = new_rdma_assignment send (first ∷ []) none

abbrev send_round : Round
send_round = record {
  qp = record qp { outstanding_rdma_reads = 1 };
  store = record { cells = some (record { refs = 1; object = message }) ∷ []; calls = [] };
  action =
      posted
        (record {
          wr_id = none;
          opcode = wr_send;
          sge = record { addr = 1016; length = 64; lkey = 7 };
          signaled = true;
          remote_addr = 0;
          rkey = 0;
          next = none;
        }
          ∷ [])
        (pos 0);
}

sending-queue : sending.qp.assign_queue ≡ 0 ∷ []
unfolding split_from split enqueue make_shared acquire release put cell
sending-queue = refl

send-made : dispatch_front pool 0 sending.qp sending.store 0 ≡ ok send_round
unfolding split_from split enqueue make_shared acquire release put cell dispatch_front
    dispatch_queue dispatch post post_send local_sge charge find get_mr lookup
send-made = refl

abbrev posted_send : System
posted_send = after_round pool 0 NoReads Accepted sending send_round

reach-posted_send : Reach pool 0 NoReads Accepted initial posted_send
reach-posted_send =
    next
      (next (next here (submits send (first ∷ []) none (λ e. cc) (λ e. cc)))
        (wakes refl (λ e. cc (sending-queue, e)) refl))
      (dispatches 0 send_round refl refl (λ e. cc (sending-queue, e)) send-made)

abbrev send_done : System
send_done = record posted_send { flights = [] }

Reach-never_reports_example :
    (send_done.finished ≡ [])
    × (posted_send.qp.outstanding_rdma_reads ≤ send_done.qp.outstanding_rdma_reads)
Reach-never_reports_example =
    Reach-never_reports pool 0 Accepted initial posted_send send_done initial-IsInitial
      reach-posted_send (next here (completes_silently 1 [] refl))
