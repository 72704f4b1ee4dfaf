-- ===== src/Scheduler/Submission.antt =====
-- What a submission to the scheduler comes to.
use dlslime.Prelude.{
  ℕ, zero, suc, ◌<◌, ◌++◌, arith, get_elem?-lt, ◌≡◌, refl, ap, none, some, [], ◌∷◌, length,
  get_elem?, set, pos, ok, err, null_dereference,
}
use dlslime.Assignment.{OpCode, AssignmentBatch}
use dlslime.Store.{Store, cell, wait_all}
use dlslime.Context.{Context, Qp, select_qpi}
use dlslime.Context.Selection.{IsNext, next_selection-IsNext, select_qpi-IsNext}
use dlslime.Context.Submit.{split, split_from}
use dlslime.Context.Submit.Enqueue.{places, Placed, last_of, submit-Placed}
use dlslime.Scheduler.{Scheduler, Submitted, select_rdma, submit_assignment}

-- The index of the context that the choice comes to.
select_rdma-IsNext :
    (s : Scheduler) (i n : ℕ)
    → length s.rdma_ctxs ≡ n
    → i < n
    → IsNext s.last_rdma_selection n i
    → select_rdma s ≡ ok (record s { last_rdma_selection = pos i }, i)
unfolding select_rdma
select_rdma-IsNext s i zero size below turn = absurd (omega arith)
select_rdma-IsNext s i (suc n) size below turn =
    rw (size, next_selection-IsNext s.last_rdma_selection (suc n) i (omega arith) turn) refl

-- A submission goes to the context next in turn, and within it to the queue pair next in turn: the
-- first one at the first submission, then the one behind the last, and the first again behind the last
-- of them all. The pieces stand at the end of that queue pair's queue, in order, and in new places of the
-- store: the last one has the default callback and is held by the queue and by the caller, the others have
-- an empty callback and are held by the queue alone. No other queue pair, no other context and no other
-- object changes, and the caller is given the last piece. The context and the queue pair in turn are
-- supposed to be there.
pub submit_assignment-Placed :
    (s : Scheduler) (store : Store) (opcode : OpCode) (batch : AssignmentBatch) (i qpi : ℕ)
    (c : Context) (q : Qp)
    → IsNext s.last_rdma_selection (length s.rdma_ctxs) i
    → get_elem? s.rdma_ctxs i ≡ some c
    → IsNext c.last_qp_selection 4 qpi
    → get_elem? c.qp_management qpi ≡ some q
    → let n = length store.cells in
      let ids = places n (length (split batch)) in
      (r : Submitted) × (submit_assignment s store opcode batch ≡ ok r)
      × (r.scheduler ≡ record {
        last_rdma_selection = pos i;
        rdma_ctxs = set s.rdma_ctxs i (record c {
          last_qp_selection = pos qpi;
          qp_management =
              set c.qp_management qpi (record q { assign_queue = q.assign_queue ++ ids });
        });
      })
      × Placed opcode none r.store n (split batch)
      × ((id : ℕ) → id < n → cell r.store id ≡ cell store id)
      × (r.rdma_assignment_batch ≡ last_of none ids ∷ [])
unfolding submit_assignment
submit_assignment-Placed s store opcode batch i qpi c q turn found qp_turn free =
    let to = select_qpi-IsNext c qpi qp_turn in
    let there : get_elem? c.qp_management (select_qpi c).1 ≡ some q = rw to free in
    let (r, run, context, placed, old, result, named) =
      submit-Placed c store opcode batch none q there in
    let chosen =
      select_rdma-IsNext s i (length s.rdma_ctxs) refl (get_elem?-lt s.rdma_ctxs i found) turn in
    let made : r.context ≡ record c {
      last_qp_selection = pos qpi;
      qp_management = set c.qp_management qpi (record q {
        assign_queue = q.assign_queue ++ places (length store.cells) (length (split batch));
      });
    } =
      rw to at context in
    (
      record {
        scheduler = record { last_rdma_selection = pos i; rdma_ctxs = set s.rdma_ctxs i r.context };
        store = r.store;
        rdma_assignment_batch = r.result ∷ [];
      },
      simp (chosen, found, run),
      ap (λ x. record { last_rdma_selection = pos i; rdma_ctxs = set s.rdma_ctxs i x }) made,
      placed,
      old,
      ap (λ x. x ∷ []) result,
    )

-- A submission of no assignments is accepted, but it gives a null pointer to wait for, and to wait for
-- it is to follow that pointer. The context and the queue pair in turn are supposed to be there.
submit_assignment-empty :
    (s : Scheduler) (store : Store) (opcode : OpCode) (i qpi : ℕ) (c : Context) (q : Qp)
    → IsNext s.last_rdma_selection (length s.rdma_ctxs) i
    → get_elem? s.rdma_ctxs i ≡ some c
    → IsNext c.last_qp_selection 4 qpi
    → get_elem? c.qp_management qpi ≡ some q
    → (r : Submitted) × (submit_assignment s store opcode [] ≡ ok r)
      × (wait_all r.store r.rdma_assignment_batch ≡ err null_dereference)
unfolding wait_all split split_from
submit_assignment-empty s store opcode i qpi c q turn found qp_turn free =
    let (r, run, same, placed, old, ids) =
      submit_assignment-Placed s store opcode [] i qpi c q turn found qp_turn free in
    (r, run, rw ids refl)
