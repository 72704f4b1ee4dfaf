-- ===== src/System/Progress.antt =====
-- The window never keeps a read back for ever.
use dlslime.Prelude.{ℕ, ◌≡◌, refl, sym, ap, subst, ◌∙◌, some, List, [], ◌∷◌, arith, ok}
use dlslime.MemoryPool.{MemoryPool}
use dlslime.Store.{Cell, cell}
use dlslime.Store.Frame.{find_of_cell}
use dlslime.WorkRequest.{SendWr, code_of_ret}
use dlslime.WorkRequest.Batch.{AllKnown}
use dlslime.Dispatch.{Round, posted, dispatch_front}
use dlslime.Dispatch.Window.{fits_window_iff}
use dlslime.Dispatch.Forward.{IsReady, dispatch_front-read}
use dlslime.System.{System, Reach, IsInitial}
use dlslime.System.Inv.{All, Queued}
use dlslime.System.Hardware.{total}
use dlslime.System.Order.{OnlyReads, Accepted, Exact, IsInitial-Exact, Reach-Exact}

module _ (p : MemoryPool) (qpi : ℕ) where
  pub Exact-IsReady :
      (t : System) (id : ℕ) (rest : List ℕ) (c : Cell)
      → Exact t
      → t.flights ≡ []
      → t.qp.assign_queue ≡ id ∷ rest
      → cell t.store id ≡ some c
      → AllKnown p c.object.batch
      → IsReady p t.qp t.store id rest c
  Exact-IsReady t id rest c v idle front there known =
      let (first, others) = subst (All (Queued OnlyReads t.store)) front v.inv.queued in
      let sound = first.1 c.object (find_of_cell t.store id c there) in
      let empty : t.qp.outstanding_rdma_reads ≡ 0 = sym v.count ∙ ap total idle in
      record {
        front = front;
        here = there;
        opcode = sound.allowed;
        size = sound.size;
        some_work = sound.some_work;
        known = known;
        small = omega (arith, sound.small);
        room =
            (fits_window_iff c.object.batch_size t.qp (omega (arith, sound.small)) v.inv.window).1
              (omega (arith, sound.small));
      }

  -- On a queue pair that carries accepted reads only, whenever no request is under way and an
  -- assignment of registered keys stands at the front of the queue, the next round of the dispatch
  -- loop hands it to the verbs library and takes it off the queue: the loop waits for room only while
  -- a completion is still to come.
  pub Reach-dispatches :
      (s t : System) (id ret : ℕ) (rest : List ℕ) (c : Cell)
      → IsInitial s
      → Reach p qpi OnlyReads Accepted s t
      → t.flights ≡ []
      → t.qp.assign_queue ≡ id ∷ rest
      → cell t.store id ≡ some c
      → AllKnown p c.object.batch
      → (wrs : List SendWr) × (r : Round) × (dispatch_front p qpi t.qp t.store ret ≡ ok r)
        × (r.action ≡ posted wrs (code_of_ret ret))
        × (r.qp.assign_queue ≡ rest)
  Reach-dispatches s t id ret rest c i r idle front there known =
      let v = Reach-Exact p qpi (IsInitial-Exact s i) r in
      let (wrs, run, are_reads) =
        dispatch_front-read p qpi t.qp t.store ret id rest c
          (Exact-IsReady t id rest c v idle front there known) in
      (wrs, _, run, refl, refl)
