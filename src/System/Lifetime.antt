-- ===== src/System/Lifetime.antt =====
-- A read from its dispatch to its completion: it lives as long as a pointer to it does.
use dlslime.Prelude.{
  ℕ, suc, ◌<◌, ◌≡◌, ap, Bool, List, length, arith, ok, err, use_after_free, add32, sub32,
  sub32-add32,
}
use dlslime.MemoryPool.{MemoryPool}
use dlslime.RdmaInfo.{max_send_wr}
use dlslime.Store.{Store, RdmaAssignment, invoke}
use dlslime.Context.{Qp}
use dlslime.Dispatch.{Round, dispatch_front}
use dlslime.Dispatch.Forward.{IsReady, after_pop, cell-after_pop, dispatch_front-read}
use dlslime.Completion.{complete, refund, status_code}
use dlslime.Completion.Single.{complete-gone, complete-here, refund_lem, IsKnown}

module _ (p : MemoryPool) (qpi : ℕ) (q : Qp) (s : Store) (ret id : ℕ) (rest : List ℕ)
    (a : RdmaAssignment) where
  -- If only the queue holds the assignment at the front, a read with room, then the round that
  -- hands it to the hardware destroys it, and its completion, failed or not, goes through a pointer
  -- into freed memory.
  pub dispatch_front-use_after_free :
      IsReady p q s id rest (record { refs = 1; object = a })
      → (r : Round) × (dispatch_front p qpi q s ret ≡ ok r)
        × ((succeeded : Bool) → complete r.store id succeeded ≡ err use_after_free)
  dispatch_front-use_after_free h =
      let (wrs, run, are_reads) =
        dispatch_front-read p qpi q s ret id rest (record { refs = 1; object = a }) h in
      (
        _,
        run,
        λ succeeded. complete-gone (after_pop s id) id succeeded (cell-after_pop s id 0 a h.here),
      )

  -- If somebody else holds the assignment at the front, a read with room, too, then after the round
  -- that hands it to the hardware its completion calls its callback, with 0 or with the code for a
  -- failure, and gives back to the count of outstanding reads exactly what the round has taken.
  dispatch_front-complete :
      (k : ℕ)
      → IsReady p q s id rest (record { refs = suc (suc k); object = a })
      → IsKnown a.callback_info.opcode
      → a.callback_info.batch_size ≡ length a.batch
      → q.outstanding_rdma_reads < max_send_wr
      → (r : Round) × (dispatch_front p qpi q s ret ≡ ok r)
        × ((succeeded : Bool)
            → (s' : Store) × (complete r.store id succeeded ≡ ok (s', length a.batch))
              × (invoke r.store id (status_code succeeded) ≡ ok s')
              × (refund r.qp (length a.batch) ≡ record q { assign_queue = rest }))
  dispatch_front-complete k h known size within =
      let (wrs, run, are_reads) =
        dispatch_front-read p qpi q s ret id rest (record { refs = suc (suc k); object = a }) h in
      let back : sub32 (add32 q.outstanding_rdma_reads (length a.batch)) (length a.batch)
          ≡ q.outstanding_rdma_reads =
        sub32-add32 q.outstanding_rdma_reads (length a.batch) (omega arith)
          (omega (arith, h.size, h.small)) in
      (
        _,
        run,
        λ succeeded.
            let (s', done, called) =
              complete-here (after_pop s id) id succeeded (record { refs = suc k; object = a })
                (cell-after_pop s id (suc k) a h.here) known in
            (
              s',
              rw (← size) done,
              called,
              rw refund_lem
                  (ap (λ n. record q { outstanding_rdma_reads = n; assign_queue = rest }) back),
            ),
      )
