-- ===== src/Dispatch/Served.antt =====
-- A round of csrc/engine/rdma/rdma_context.cpp's `wq_dispatch_handle`, in numbers without wrap-around.
use dlslime.Prelude.{
  ℕ, zero, suc, ◌+◌, ◌≤◌, ◌<◌, ◌≡◌, refl, ap, ◌∙◌, true, none, List, [], ◌∷◌, arith, ok, ℤ, pos,
  negsuc, ◌==◌, if◌then◌else◌, add32,
}
use dlslime.Assignment.{read, send, recv, other}
use dlslime.MemoryPool.{MemoryPool}
use dlslime.Store.{Store, RdmaAssignment, find}
use dlslime.Context.{Qp}
use dlslime.WorkRequest.{SendWr, RecvWr, charge, code_of_ret}
use dlslime.WorkRequest.Batch.{AreReadsOf, read_wrs-ok-AreReadsOf}
use dlslime.Dispatch.{Action, posted, posted_recv, overflow, unknown, full, Round, dispatch_front}
use dlslime.Dispatch.Outcomes
use dlslime.Dispatch.Outcomes.{Posts, Outcome, dispatch_front-Ends}
use dlslime.Dispatch.Window.{fits_window_iff}
use dlslime.Dispatch.Reports.{Reports, dispatch_front-Reports}

-- 0 is success of the verbs library.
abbrev pub result_of : ℕ → ℤ
result_of ret = if ret == 0 then pos 0 else negsuc 0

code_of_ret-result_of : (ret : ℕ) → code_of_ret ret ≡ result_of ret
code_of_ret-result_of zero = refl
code_of_ret-result_of (suc n) = ground arith

-- What is handed over, by the opcode: one request for each part of a read, and a single one without a
-- callback for a send or a receive.
pub data Handed (p : MemoryPool) (qpi id : ℕ) (a : RdmaAssignment) (ret : ℕ) (act : Action)
    : Type 0 where
  reads :
      (wrs : List SendWr)
      → a.opcode ≡ read
      → AreReadsOf p a.batch_size (record { info = id; qpi = qpi }) 0 a.batch wrs
      → act ≡ posted wrs (result_of ret)
      → Handed p qpi id a ret act
  sends :
      (wr : SendWr)
      → a.opcode ≡ send
      → wr.wr_id ≡ none
      → wr.signaled ≡ true
      → act ≡ posted (wr ∷ []) (result_of ret)
      → Handed p qpi id a ret act
  receives :
      (wr : RecvWr)
      → a.opcode ≡ recv
      → wr.wr_id ≡ none
      → act ≡ posted_recv wr (result_of ret)
      → Handed p qpi id a ret act

Posts-Handed :
    (p : MemoryPool) (qpi id : ℕ) (a : RdmaAssignment) (ret : ℕ) (act : Action)
    → Posts p qpi id a ret act
    → Handed p qpi id a ret act
Posts-Handed p qpi id a ret act (Outcomes.reads wrs o runs e) =
    reads wrs o (read_wrs-ok-AreReadsOf p a.batch_size _ 0 a.batch runs)
      (e ∙ ap (posted wrs) (code_of_ret-result_of ret))
Posts-Handed p qpi id a ret act (Outcomes.sends wr o unmarked signaled e) =
    sends wr o unmarked signaled (e ∙ ap (posted (wr ∷ [])) (code_of_ret-result_of ret))
Posts-Handed p qpi id a ret act (Outcomes.receives wr o unmarked e) =
    receives wr o unmarked (e ∙ ap (posted_recv wr) (code_of_ret-result_of ret))

-- The four ways, with 8192 slots in the send queue.
pub data Way (p : MemoryPool) (qpi : ℕ) (q : Qp) (rest : List ℕ) (id : ℕ) (a : RdmaAssignment)
    (ret : ℕ) (r : Round) : Type 0 where
  ignores :
      8192 < a.batch_size
      → r.qp ≡ record q { assign_queue = rest }
      → r.action ≡ overflow
      → Way p qpi q rest id a ret r
  waits :
      a.batch_size ≤ 8192
      → 8192 ≤ a.batch_size + q.outstanding_rdma_reads
      → r.qp ≡ q
      → r.action ≡ full
      → Way p qpi q rest id a ret r
  hands_over :
      a.batch_size + q.outstanding_rdma_reads < 8192
      → r.qp ≡ record q {
        assign_queue = rest;
        outstanding_rdma_reads = q.outstanding_rdma_reads + a.batch_size;
      }
      → Handed p qpi id a ret r.action
      → Way p qpi q rest id a ret r
  refuses :
      (n : ℕ)
      → a.batch_size + q.outstanding_rdma_reads < 8192
      → a.opcode ≡ other n
      → r.qp ≡ record q { assign_queue = rest }
      → r.action ≡ unknown
      → Way p qpi q rest id a ret r

Outcome-Way :
    (p : MemoryPool) (qpi : ℕ) (q : Qp) (rest : List ℕ) (id : ℕ) (a : RdmaAssignment) (ret : ℕ)
    (r : Round)
    → q.outstanding_rdma_reads < 8192
    → Outcome p qpi q rest id a ret r
    → Way p qpi q rest id a ret r
unfolding charge
Outcome-Way p qpi q rest id a ret r within (Outcomes.ignored large same act) =
    ignores large same act
Outcome-Way p qpi q rest id a ret r within (Outcomes.waits small no_room same act) =
    waits small (ground arith) same act
Outcome-Way p qpi q rest id a ret r within (Outcomes.posts small fits charged what) =
    let room = (fits_window_iff a.batch_size q small within).0 fits in
    let count : add32 q.outstanding_rdma_reads a.batch_size
        ≡ q.outstanding_rdma_reads + a.batch_size =
      omega arith in
    hands_over room
      (charged ∙ ap (λ n. record q { assign_queue = rest; outstanding_rdma_reads = n }) count)
      (Posts-Handed p qpi id a ret r.action what)
Outcome-Way p qpi q rest id a ret r within (Outcomes.refuses n small fits o same act) =
    refuses n ((fits_window_iff a.batch_size q small within).0 fits) o same act

pub record Served (p : MemoryPool) (qpi : ℕ) (q : Qp) (s : Store) (ret : ℕ) (r : Round)
    : Type 0 where
  pub id : ℕ
  pub rest : List ℕ
  pub assignment : RdmaAssignment
  pub front : q.assign_queue ≡ id ∷ rest
  pub found : find s id ≡ ok assignment
  pub way : Way p qpi q rest id assignment ret r
  pub reports : Reports s id assignment r.action r.store

-- A round that ends without a fault, with a count of outstanding requests within the window, has found an
-- assignment that is still there at the front of the queue, and has gone one of four ways: a batch of more
-- than 8192 is taken off the queue, nothing is posted and its callback is called with 400; one that with
-- the outstanding requests would come to 8192 or more stays where it is; a smaller one that is a read, a
-- send or a receive is taken off, its size is added to the count, and it is handed over, a read as one
-- request for each of its assignments; a smaller one with another opcode is taken off without a charge and
-- its callback is called with 401. No other call of a client's function is made and no other object
-- changes; and an assignment that is told a code in this way, has the default callback, is held by
-- another beside the queue and has been called fewer than 2^31 - 1 times is finished for those who `wait`
-- for it.
pub dispatch_front-Served :
    (p : MemoryPool) (qpi : ℕ) (q : Qp) (s : Store) (ret : ℕ) {r : Round}
    → q.outstanding_rdma_reads < 8192
    → dispatch_front p qpi q s ret ≡ ok r
    → Served p qpi q s ret r
dispatch_front-Served p qpi q s ret {r} within h =
    let e = dispatch_front-Ends p qpi q s ret h in
    record {
      id = e.id;
      rest = e.rest;
      assignment = e.assignment;
      front = e.front;
      found = e.found;
      way = Outcome-Way p qpi q e.rest e.id e.assignment ret r within e.outcome;
      reports = dispatch_front-Reports p qpi q s ret e.id e.rest e.assignment e.front e.found h;
    }
