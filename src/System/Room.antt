-- ===== src/System/Room.antt =====
-- When a round can refuse or put off what `submit` has queued.
use dlslime.Prelude.{ℕ, ◌<◌, ◌≡◌, ◌≢◌, subst, ok, arith}
use dlslime.Assignment.{OpCode}
use dlslime.MemoryPool.{MemoryPool}
use dlslime.Store.{RdmaAssignment}
use dlslime.Context.Submit.{split_step}
use dlslime.Dispatch.{Action, Round, overflow, full, dispatch_front}
use dlslime.Dispatch.Window.{fits_window_iff}
use dlslime.Dispatch.Outcomes.{
  Posts, reads, sends, receives, ignored, waits, posts, refuses, dispatch_front-Ends,
}
use dlslime.System.{System, Reach, IsInitial}
use dlslime.System.Inv.{All, Queued}
use dlslime.System.Capacity.{Reach-Inv}
use dlslime.System.Rounds.{IsInitial-Inv}

Posts-handed_over :
    (p : MemoryPool) (qpi id : ℕ) (a : RdmaAssignment) (ret : ℕ) (act : Action)
    → Posts p qpi id a ret act
    → (act ≢ overflow) × (act ≢ full)
Posts-handed_over p qpi id a ret act (reads wrs o runs e) = ((λ f. cc), (λ f. cc))
Posts-handed_over p qpi id a ret act (sends wr o m g e) = ((λ f. cc), (λ f. cc))
Posts-handed_over p qpi id a ret act (receives wr o m e) = ((λ f. cc), (λ f. cc))

module _ (p : MemoryPool) (qpi : ℕ) (Op : OpCode → Type 0) (Ret : ℕ → Type 0) where
  -- Whatever has been submitted to a queue pair and whatever has happened since, a round that starts
  -- while fewer than 4096 requests are counted as outstanding neither ignores the front of the queue
  -- for its size nor puts it off for lack of room: the pieces that `submit` makes are never too
  -- large, and half the window is room enough for each.
  pub Reach-has_room :
      (s t : System) (ret : ℕ) (r : Round)
      → IsInitial s
      → Reach p qpi Op Ret s t
      → t.qp.outstanding_rdma_reads < split_step
      → dispatch_front p qpi t.qp t.store ret ≡ ok r
      → (r.action ≢ overflow) × (r.action ≢ full)
  Reach-has_room s t ret r i reach low h =
      let v = Reach-Inv p qpi Op Ret (IsInitial-Inv Op s i) reach in
      let e = dispatch_front-Ends p qpi t.qp t.store ret h in
      let (front, back) = subst (All (Queued Op t.store)) e.front v.queued in
      let sound = front.1 e.assignment e.found in
      elim e.outcome [
        | ignored l q act ↦ absurd (omega (arith, sound.small))
        | waits l w q act ↦
            let fits =
              (fits_window_iff e.assignment.batch_size t.qp l v.window).1
                (omega (arith, sound.small)) in
            absurd (cc)
        | posts l w q what ↦ Posts-handed_over p qpi e.id e.assignment ret r.action what
        | refuses n l w o q act ↦ ((λ f. cc), (λ f. cc))
      ]
