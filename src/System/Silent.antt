-- ===== src/System/Silent.antt =====
-- A queue pair that is used for sends and receives only.
use dlslime.Prelude.{
  ℕ, zero, suc, ◌≤◌, ◌≡◌, ◌≢◌, refl, sym, ap, subst, ◌∙◌, none, List, [], arith, ok,
}
use dlslime.Assignment.{OpCode, read}
use dlslime.MemoryPool.{MemoryPool}
use dlslime.Store.{RdmaAssignment}
use dlslime.Context.{Qp}
use dlslime.Dispatch.{Round, Action, dispatch_front}
use dlslime.Dispatch.Outcomes.{
  ignored, waits, posts, refuses, Posts, reads, sends, receives, dispatch_front-Ends,
}
use dlslime.System.{
  System, Flight, Step, Reach, here, next, IsInitial, submits, wakes, stops, dispatches, drains,
  asks_to_stop, completes, completes_silently, elsewhere, flights_after,
}
use dlslime.System.Inv.{All, All-append, Queued}
use dlslime.System.Rounds.{Inv, IsInitial-Inv, charged}
use dlslime.System.Capacity.{Step-Inv}

abbrev pub NoReads : OpCode → Type 0
NoReads o = o ≢ read

-- No request under way carries a callback, and none has been called by the polling thread.
pub record IsSilent (s : System) : Type 0 where
  pub inv : Inv NoReads s
  pub unmarked : All (λ (f : Flight). f.wr_id ≡ none) s.flights
  pub finished : s.finished ≡ []

module _ (p : MemoryPool) (qpi : ℕ) (Ret : ℕ → Type 0) where
  Posts-unmarked :
      (id : ℕ) (a : RdmaAssignment) (ret : ℕ) (act : Action) (flights : List Flight)
      → NoReads a.opcode
      → Posts p qpi id a ret act
      → All (λ (f : Flight). f.wr_id ≡ none) flights
      → All (λ (f : Flight). f.wr_id ≡ none) (flights_after act flights)
  Posts-unmarked id a ret act flights o (reads wrs read_op runs e) u = absurd (o read_op)
  Posts-unmarked id a zero act flights o (sends wr op m g e) u =
      rw (e, g, m) (All-append _ flights _ u (refl, tt))
  Posts-unmarked id a (suc n) act flights o (sends wr op m g e) u = rw e u
  Posts-unmarked id a zero act flights o (receives wr op m e) u = rw e u
  Posts-unmarked id a (suc n) act flights o (receives wr op m e) u = rw e u

  -- A round never lowers the count, and posts nothing with a callback.
  round-Silent :
      (s : System) (ret : ℕ) (r : Round)
      → dispatch_front p qpi s.qp s.store ret ≡ ok r
      → IsSilent s
      → All (λ (f : Flight). f.wr_id ≡ none) (flights_after r.action s.flights)
        × (s.qp.outstanding_rdma_reads ≤ r.qp.outstanding_rdma_reads)
  round-Silent s ret r h v =
      let e = dispatch_front-Ends p qpi s.qp s.store ret h in
      let (front, back) = subst (All (Queued NoReads s.store)) e.front v.inv.queued in
      let sound = front.1 e.assignment e.found in
      elim e.outcome [
        | ignored l q act ↦ absurd (omega (arith, sound.small))
        | waits l w q act ↦
            (rw act v.unmarked, omega (arith, ap (λ (k : Qp). k.outstanding_rdma_reads) q))
        | refuses n l w o q act ↦
            (rw act v.unmarked, omega (arith, ap (λ (k : Qp). k.outstanding_rdma_reads) q))
        | posts l w q what ↦ (
          Posts-unmarked e.id e.assignment ret r.action s.flights sound.allowed what v.unmarked,
          omega (
            arith,
            ap (λ (k : Qp). k.outstanding_rdma_reads) q,
            charged NoReads p qpi s e.assignment l w v.inv,
          ),
        )
      ]

  -- A step that leaves the hardware, the record and the count alone.
  same-Silent :
      {s t : System}
      → Step p qpi NoReads Ret s t
      → IsSilent s
      → t.flights ≡ s.flights
      → t.finished ≡ s.finished
      → t.qp.outstanding_rdma_reads ≡ s.qp.outstanding_rdma_reads
      → IsSilent t × (s.qp.outstanding_rdma_reads ≤ t.qp.outstanding_rdma_reads)
  same-Silent st v flights finished count = (
    record {
      inv = Step-Inv p qpi NoReads Ret st v.inv;
      unmarked = subst (All (λ (f : Flight). f.wr_id ≡ none)) (sym flights) v.unmarked;
      finished = finished ∙ v.finished;
    },
    omega arith,
  )

  Step-Silent :
      {s t : System}
      → Step p qpi NoReads Ret s t
      → IsSilent s
      → IsSilent t × (s.qp.outstanding_rdma_reads ≤ t.qp.outstanding_rdma_reads)
  Step-Silent (submits opcode batch callback allowed free) v =
      same-Silent (submits opcode batch callback allowed free) v refl refl refl
  Step-Silent (wakes w e f) v = same-Silent (wakes w e f) v refl refl refl
  Step-Silent (stops w f) v = same-Silent (stops w f) v refl refl refl
  Step-Silent {s} (dispatches ret r allowed d e h) v =
      let (unmarked, count) = round-Silent s ret r h v in
      (
        record {
          inv = Step-Inv p qpi NoReads Ret (dispatches ret r allowed d e h) v.inv;
          unmarked = unmarked;
          finished = v.finished;
        },
        count,
      )
  Step-Silent (drains d e) v = same-Silent (drains d e) v refl refl refl
  Step-Silent asks_to_stop v = same-Silent asks_to_stop v refl refl refl
  Step-Silent (completes c slots rest succeeded store n e h) v =
      let (head, others) = subst (All (λ (f : Flight). f.wr_id ≡ none)) e v.unmarked in
      absurd (cc head)
  Step-Silent (completes_silently slots rest e) v =
      let (head, others) = subst (All (λ (f : Flight). f.wr_id ≡ none)) e v.unmarked in
      (
        record {
          inv = Step-Inv p qpi NoReads Ret (completes_silently slots rest e) v.inv;
          unmarked = others;
          finished = v.finished;
        },
        omega arith,
      )
  Step-Silent (Step.receives n e) v = same-Silent (Step.receives n e) v refl refl refl
  Step-Silent (elsewhere store x) v = same-Silent (elsewhere store x) v refl refl refl

  Reach-Silent :
      {s t : System}
      → Reach p qpi NoReads Ret s t
      → IsSilent s
      → IsSilent t × (s.qp.outstanding_rdma_reads ≤ t.qp.outstanding_rdma_reads)
  Reach-Silent here v = (v, omega arith)
  Reach-Silent (next r st) v =
      let (w, low) = Reach-Silent r v in let (u, high) = Step-Silent st w in (u, omega arith)

  IsInitial-IsSilent : (s : System) → IsInitial s → IsSilent s
  IsInitial-IsSilent s i = record {
    inv = IsInitial-Inv NoReads s i;
    unmarked = rw i.flights tt;
    finished = i.finished;
  }

  -- A queue pair that is given no reads never calls a callback on a completion: what SEND and RECV
  -- are submitted for is never reported, and what they take of the window of outstanding requests
  -- never comes back, since the count does not fall from any reachable state to a later one.
  pub Reach-never_reports :
      (s t u : System)
      → IsInitial s
      → Reach p qpi NoReads Ret s t
      → Reach p qpi NoReads Ret t u
      → (u.finished ≡ []) × (t.qp.outstanding_rdma_reads ≤ u.qp.outstanding_rdma_reads)
  Reach-never_reports s t u i r more =
      let (v, low) = Reach-Silent r (IsInitial-IsSilent s i) in
      let (w, high) = Reach-Silent more v in (w.finished, high)
