-- ===== src/System/Fresh.antt =====
-- Every assignment is submitted once: it stands in a place of its own.
use dlslime.Prelude.{ℕ, ◌≤◌, ◌<◌, length, none, arith}
use dlslime.Assignment.{OpCode}
use dlslime.MemoryPool.{MemoryPool}
use dlslime.Context.Submit.{split, Enqueued}
use dlslime.Context.Submit.Enqueue.{places, enqueue-Leaves}
use dlslime.Dispatch.Outcomes.{dispatch_front-Ends}
use dlslime.Completion.Single.{complete-ok}
use dlslime.Store.{Store}
use dlslime.System.{
  System, Step, Reach, here, next, IsInitial, submits, wakes, stops, dispatches, drains,
  asks_to_stop, completes, completes_silently, elsewhere,
}
use dlslime.System.Inv.{All, All-append, All-map}
use dlslime.System.Distinct.{
  Distinct, Distinct-append, Holds-places, places-Distinct, places-below, All-Holds,
}

pub record IsFresh (s : System) : Type 0 where
  pub below : All (λ id. id < length s.store.cells) s.submitted
  pub distinct : Distinct s.submitted

grown :
    (s : System) (store : Store)
    → length s.store.cells ≤ length store.cells
    → IsFresh s
    → IsFresh (record s { store = store })
grown s store more v = record {
  below = All-map _ _ s.submitted (λ id h. omega arith) v.below;
  distinct = v.distinct;
}

module _ (p : MemoryPool) (qpi : ℕ) (Op : OpCode → Type 0) (Ret : ℕ → Type 0) where
  Step-IsFresh : {s t : System} → Step p qpi Op Ret s t → IsFresh s → IsFresh t
  Step-IsFresh {s} (submits opcode batch callback allowed free) v =
      let n = length s.store.cells in
      let start : Enqueued = record { store = s.store; queue = s.qp.assign_queue; held = none } in
      let made = enqueue-Leaves opcode callback (split batch) start tt in
      record {
        below =
            All-append _ s.submitted _
              (All-map _ _ s.submitted (λ id h. omega (arith, made.size)) v.below)
              (places-below n (length (split batch)) _ (omega (arith, made.size)));
        distinct =
            Distinct-append s.submitted (places n (length (split batch))) v.distinct
              (places-Distinct n (length (split batch)))
              (λ id h k. absurd (
                omega (
                  arith,
                  All-Holds _ s.submitted id v.below h,
                  Holds-places id n (length (split batch)) k,
                )));
      }
  Step-IsFresh (wakes w e f) v = record { below = v.below; distinct = v.distinct }
  Step-IsFresh (stops w f) v = record { below = v.below; distinct = v.distinct }
  Step-IsFresh {s} (dispatches ret r allowed d e h) v =
      let k = (dispatch_front-Ends p qpi s.qp s.store ret h).keeps in
      let g = grown s r.store (omega (arith, k.size)) v in
      record { below = g.below; distinct = g.distinct }
  Step-IsFresh (drains d e) v = record { below = v.below; distinct = v.distinct }
  Step-IsFresh asks_to_stop v = record { below = v.below; distinct = v.distinct }
  Step-IsFresh {s} (completes c slots rest succeeded store n e h) v =
      let (a, found, ran, size, keeps) = complete-ok s.store store c.info n succeeded h in
      let g = grown s store (omega (arith, keeps.size)) v in
      record { below = g.below; distinct = g.distinct }
  Step-IsFresh (completes_silently slots rest e) v = record {
    below = v.below;
    distinct = v.distinct;
  }
  Step-IsFresh (Step.receives n e) v = record { below = v.below; distinct = v.distinct }
  Step-IsFresh {s} (elsewhere store x) v = grown s store x.grows v

  Reach-IsFresh : {s t : System} → IsFresh s → Reach p qpi Op Ret s t → IsFresh t
  Reach-IsFresh v here = v
  Reach-IsFresh v (next r st) = Step-IsFresh st (Reach-IsFresh v r)

  IsInitial-IsFresh : (s : System) → IsInitial s → IsFresh s
  IsInitial-IsFresh s i = record { below = rw i.submitted tt; distinct = rw i.submitted tt }

  pub Reach-Distinct : (s t : System) → IsInitial s → Reach p qpi Op Ret s t → Distinct t.submitted
  Reach-Distinct s t i r = (Reach-IsFresh (IsInitial-IsFresh s i) r).distinct
