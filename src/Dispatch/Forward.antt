-- ===== src/Dispatch/Forward.antt =====
-- A round that finds a read with room for it, and what becomes of the assignment.
use dlslime.Prelude.{
  ℕ, suc, ◌+◌, ◌-◌, ◌≤◌, ◌<◌, ◌≡◌, ap, ◌∙◌, true, false, some, List, ◌∷◌, length, arith, ok, ltb,
  add32,
}
use dlslime.Assignment.{read}
use dlslime.MemoryPool.{MemoryPool}
use dlslime.RdmaInfo.{max_send_wr}
use dlslime.Store.{Store, Cell, RdmaAssignment, cell, acquire, release, fewer}
use dlslime.Store.Frame.{cell-acquire, cell-release, find_of_cell, find-acquire}
use dlslime.Context.{Qp}
use dlslime.WorkRequest.{SendWr, code_of_ret}
use dlslime.WorkRequest.Batch.{AllKnown, AreReadsOf, post_read_batch-AreReadsOf}
use dlslime.Dispatch.{posted, fits_window, dispatch, dispatch_queue, dispatch_front, post}

-- The front of the queue is a read of registered keys that has room.
pub record IsReady (p : MemoryPool) (q : Qp) (s : Store) (id : ℕ) (rest : List ℕ) (c : Cell)
    : Type 0 where
  pub front : q.assign_queue ≡ id ∷ rest
  pub here : cell s id ≡ some c
  pub opcode : c.object.opcode ≡ read
  pub size : c.object.batch_size ≡ length c.object.batch
  pub some_work : 0 < length c.object.batch
  pub known : AllKnown p c.object.batch
  pub small : c.object.batch_size ≤ max_send_wr
  pub room : fits_window c.object.batch_size q ≡ true

-- The pointer of the queue is gone.
abbrev pub after_pop : Store → ℕ → Store
after_pop s id = release (release (acquire s id) id) id

pub cell-after_pop :
    (s : Store) (id k : ℕ) (a : RdmaAssignment)
    → cell s id ≡ some (record { refs = suc k; object = a })
    → cell (after_pop s id) id ≡ fewer k a
cell-after_pop s id k a h =
    let held : cell (acquire s id) id ≡ some (record { refs = suc k + 1; object = a }) =
      ground (arith, cell-acquire s id id) in
    let popped : cell (release (acquire s id) id) id ≡ fewer (suc k + 1 - 1) a =
      ground (arith, cell-release (acquire s id) id id) in
    let one : suc k + 1 - 1 ≡ suc k = omega arith in
    let two : suc k - 1 ≡ k = omega arith in
    let popped' : cell (release (acquire s id) id) id ≡ some (record { refs = suc k; object = a }) =
      rw one at popped in
    let last : cell (after_pop s id) id ≡ fewer (suc k - 1) a =
      ground (arith, cell-release (release (acquire s id) id) id id) in
    rw two at last

dispatch_queue-read :
    (p : MemoryPool) (qpi : ℕ) (q : Qp) (s : Store) (ret id : ℕ) (rest : List ℕ) (c : Cell)
    → IsReady p q s id rest c
    → (wrs : List SendWr) × (dispatch_queue p qpi q (id ∷ rest) s ret
        ≡ ok (record {
          qp = record q {
            outstanding_rdma_reads = add32 q.outstanding_rdma_reads (length c.object.batch);
            assign_queue = rest;
          };
          store = after_pop s id;
          action = posted wrs (code_of_ret ret);
        }))
      × AreReadsOf p (length c.object.batch) (record { info = id; qpi = qpi }) 0 c.object.batch wrs
unfolding dispatch_queue dispatch post
dispatch_queue-read p qpi q s ret id rest c h =
    let found = find-acquire s id id ∙ find_of_cell s id c h.here in
    let small : ltb max_send_wr c.object.batch_size ≡ false = ground (arith, h.small) in
    let (wrs, run, long, are_reads) =
      post_read_batch-AreReadsOf p qpi q id c.object ret h.known h.size h.some_work in
    (wrs, simp (found, small, h.room, h.opcode, run, post), are_reads)

pub dispatch_front-read :
    (p : MemoryPool) (qpi : ℕ) (q : Qp) (s : Store) (ret id : ℕ) (rest : List ℕ) (c : Cell)
    → IsReady p q s id rest c
    → (wrs : List SendWr) × (dispatch_front p qpi q s ret
        ≡ ok (record {
          qp = record q {
            outstanding_rdma_reads = add32 q.outstanding_rdma_reads (length c.object.batch);
            assign_queue = rest;
          };
          store = after_pop s id;
          action = posted wrs (code_of_ret ret);
        }))
      × AreReadsOf p (length c.object.batch) (record { info = id; qpi = qpi }) 0 c.object.batch wrs
unfolding dispatch_front
dispatch_front-read p qpi q s ret id rest c h =
    let (wrs, run, are_reads) = dispatch_queue-read p qpi q s ret id rest c h in
    (wrs, ap (λ l. dispatch_queue p qpi q l s ret) h.front ∙ run, are_reads)
