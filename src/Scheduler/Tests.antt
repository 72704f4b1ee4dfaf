-- ===== src/Scheduler/Tests.antt =====
-- A scheduler with one context.
use dlslime.Prelude.{ℕ, ◌<◌, ◌≡◌, some, refl, none, some, [], ◌∷◌, ok, negsuc, pos, arith}
use dlslime.Json.Tree.{tree_lib}
use dlslime.Assignment.{read}
use dlslime.Store.{empty_store, cell}
use dlslime.Context.Selection.{IsNext}
use dlslime.Context.Submit.{split, split_from}
use dlslime.Context.Submit.Enqueue.{Placed}
use dlslime.Context.Connect.{Answers}
use dlslime.Scheduler.{Scheduler, Submitted, submit_assignment, connect, scheduler_info}
use dlslime.Scheduler.Submission.{submit_assignment-Placed}
use dlslime.Scheduler.Exchange.{AllLinked, connect-scheduler_info}
use dlslime.Samples.{context-Compatible, context, first, second, qp}

abbrev scheduler : Scheduler
scheduler = record { rdma_ctxs = context ∷ []; last_rdma_selection = negsuc 0 }

submit_assignment-Placed_example :
    (r : Submitted) × (submit_assignment scheduler empty_store read (first ∷ second ∷ []) ≡ ok r)
    × (r.scheduler ≡ record {
      last_rdma_selection = pos 0;
      rdma_ctxs =
          record context {
            last_qp_selection = pos 0;
            qp_management = record qp { assign_queue = 0 ∷ [] } ∷ qp ∷ qp ∷ qp ∷ [];
          }
          ∷ [];
    })
    × Placed read none r.store 0 ((first ∷ second ∷ []) ∷ [])
    × ((id : ℕ) → id < 0 → cell r.store id ≡ cell empty_store id)
    × (r.rdma_assignment_batch ≡ some 0 ∷ [])
unfolding split split_from
submit_assignment-Placed_example =
    submit_assignment-Placed scheduler empty_store read (first ∷ second ∷ []) 0 0 context qp
      (IsNext.first refl refl) refl (IsNext.first refl refl) refl

abbrev all_succeed : ℕ → Answers
all_succeed i = record { rtr = λ k. 0; rts = λ k. 0; notify = λ k. 0 }

connect-scheduler_info_example :
    (s' : Scheduler) × (connect tree_lib all_succeed scheduler (scheduler_info tree_lib scheduler)
      ≡ ok s')
    × AllLinked scheduler.rdma_ctxs scheduler.rdma_ctxs s'.rdma_ctxs
connect-scheduler_info_example =
    connect-scheduler_info tree_lib all_succeed
      (λ i. record { rtr = λ k. refl; rts = λ k. refl; notify = λ k. refl }) scheduler scheduler
      (omega arith) (context-Compatible, tt)
