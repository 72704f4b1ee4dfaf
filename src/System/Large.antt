-- ===== src/System/Large.antt =====
-- What happens to a batch that `submit` has to cut.
use dlslime.Prelude.{
  ℕ, suc, ◌≤◌, ◌<◌, ◌≡◌, refl, sym, ap, subst, ◌∙◌, Bool, Option, some, List, [], ◌∷◌, ◌++◌, length,
  arith, ok, err, use_after_free, get_elem?, append-nil, get_elem?-set_self, get_elem?-lt,
}
use dlslime.Assignment.{AssignmentBatch, read}
use dlslime.MemoryPool.{MemoryPool}
use dlslime.Store.{Store, Callback, new_rdma_assignment, ignore}
use dlslime.Context.{Qp, Context, select_qpi}
use dlslime.Context.Submit.{split, split_step, Submitted, submit}
use dlslime.Context.Submit.Split.{flatten, AllFit, split-flatten}
use dlslime.Context.Submit.Enqueue.{places, Placed, submit-Placed}
use dlslime.WorkRequest.Batch.{AllKnown}
use dlslime.Dispatch.{Round, dispatch_front}
use dlslime.Dispatch.Forward.{IsReady}
use dlslime.Dispatch.Window.{fits_window_iff}
use dlslime.Completion.{complete}
use dlslime.System.Lifetime.{dispatch_front-use_after_free}

AllKnown-left : (p : MemoryPool) (xs ys : AssignmentBatch) → AllKnown p (xs ++ ys) → AllKnown p xs
AllKnown-left p [] ys k = tt
AllKnown-left p (a ∷ xs) ys (first, k) = (first, AllKnown-left p xs ys k)

-- A batch of more than 4096 assignments is cut into two pieces at least.
record IsCut (batch : AssignmentBatch) (pieces : List AssignmentBatch) : Type 0 where
  first : AssignmentBatch
  second : AssignmentBatch
  others : List AssignmentBatch
  cut : pieces ≡ first ∷ second ∷ others
  rest : AssignmentBatch
  whole : batch ≡ first ++ rest
  some_work : 0 < length first
  small : length first ≤ split_step

IsCut-of_large :
    (batch : AssignmentBatch) (pieces : List AssignmentBatch)
    → flatten pieces ≡ batch
    → AllFit split_step pieces
    → split_step < length batch
    → IsCut batch pieces
IsCut-of_large batch [] e fit h = absurd (omega (arith, ap length e))
IsCut-of_large batch (piece ∷ []) e fit h =
    absurd (omega (arith, fit, ap length (sym (append-nil piece) ∙ e)))
IsCut-of_large batch (piece ∷ next ∷ others) e fit h = record {
  first = piece;
  second = next;
  others = others;
  cut = refl;
  rest = flatten (next ∷ others);
  whole = sym e;
  some_work = fit.0;
  small = fit.1;
}

-- A batch of more than 4096 reads is not safe to submit: on a queue pair with nothing else to do, the
-- first of its pieces is destroyed when it is handed to the hardware, since no pointer to it is
-- given to the caller, and its completion goes through a pointer into freed memory.
pub submit_large-use_after_free :
    (p : MemoryPool) (c : Context) (s : Store) (batch : AssignmentBatch)
    (callback : Option Callback) (q : Qp) (ret : ℕ)
    → get_elem? c.qp_management (select_qpi c).1 ≡ some q
    → q.assign_queue ≡ []
    → q.outstanding_rdma_reads ≡ 0
    → AllKnown p batch
    → split_step < length batch
    → (r : Submitted) × (q' : Qp) × (round : Round) × (submit c s read batch callback ≡ ok r)
      × (get_elem? r.context.qp_management (select_qpi c).1 ≡ some q')
      × (dispatch_front p (select_qpi c).1 q' r.store ret ≡ ok round)
      × ((succeeded : Bool) → complete round.store (length s.cells) succeeded ≡ err use_after_free)
submit_large-use_after_free p c s batch callback q ret found idle unused known large =
    let (r, run, context, placed, old, result, turn) =
      submit-Placed c s read batch callback q found in
    let (joined, fit) = split-flatten batch in
    let k = IsCut-of_large batch (split batch) joined fit large in
    let n = length s.cells in
    let q' : Qp = record q { assign_queue = q.assign_queue ++ places n (length (split batch)) } in
    let first_placed = subst (Placed read callback r.store n) k.cut placed in
    let ready : IsReady p q' r.store n (places (suc n) (suc (length k.others)))
        (record { refs = 1; object = new_rdma_assignment read k.first (some ignore) }) =
      record {
        front =
            ap (λ l. l ++ places n (length (split batch))) idle
            ∙ ap (λ l. places n (length l)) k.cut;
        here = first_placed.0;
        opcode = refl;
        size = refl;
        some_work = k.some_work;
        known = AllKnown-left p k.first k.rest (subst (AllKnown p) k.whole known);
        small = omega (arith, k.small);
        room =
            (fits_window_iff (length k.first) q' (omega (arith, k.small)) (omega (arith, unused))).1
              (omega (arith, k.small, unused));
      } in
    let (round, dispatched, fault) =
      dispatch_front-use_after_free p (select_qpi c).1 q' r.store ret n _ _ ready in
    (
      r,
      q',
      round,
      run,
      ap (λ x. get_elem? x.qp_management (select_qpi c).1) context
          ∙ get_elem?-set_self c.qp_management (select_qpi c).1 q'
              (get_elem?-lt c.qp_management (select_qpi c).1 found),
      dispatched,
      fault,
    )
