-- ===== src/System/Capacity.antt =====
-- The send queue never gets more requests than it has room for.
use dlslime.Prelude.{
  ℕ, ◌+◌, ◌≤◌, ◌<◌, ◌≡◌, refl, sym, ap, subst, ◌∙◌, Bool, some, List, ◌∷◌, arith, ok,
}
use dlslime.Assignment.{OpCode}
use dlslime.MemoryPool.{MemoryPool}
use dlslime.RdmaInfo.{max_send_wr}
use dlslime.Store.{Store}
use dlslime.Context.{Qp}
use dlslime.Context.Submit.{split}
use dlslime.Context.Submit.Split.{split-flatten}
use dlslime.WorkRequest.{CallbackInfoWithQpi}
use dlslime.Completion.{complete, refund}
use dlslime.Completion.Single.{complete-ok, refund_lem}
use dlslime.System.{
  System, Flight, Extends, Step, Reach, here, next, IsInitial, submits, wakes, stops, dispatches,
  drains, asks_to_stop, completes, completes_silently, elsewhere,
}
use dlslime.System.Inv.{
  All, All-map, Queued, Flies, Queued-Extends, Flies-Extends, Keeps-Extends, enqueue-Extends,
  enqueue-Queued,
}
use dlslime.System.Hardware.{total}
use dlslime.System.Rounds.{Inv, IsInitial-Inv, round-Inv}

module _ (Op : OpCode → Type 0) where
  -- Another store, at the same queue pair and hardware.
  moved-Inv :
      (s : System) (store : Store)
      → Extends s.store store
      → Inv Op s
      → Inv Op (record s { store = store })
  moved-Inv s store x v = record {
    window = v.window;
    occupied = v.occupied;
    queued =
        All-map (Queued Op s.store) (Queued Op store) s.qp.assign_queue (Queued-Extends x Op)
          v.queued;
    flying = All-map (Flies s.store) (Flies store) s.flights (Flies-Extends x) v.flying;
  }

  pub complete-Inv :
      (s : System) (c : CallbackInfoWithQpi) (slots : ℕ) (rest : List Flight) (succeeded : Bool)
      (store : Store) (n : ℕ) (finished : List ℕ)
      → s.flights ≡ record { wr_id = some c; slots = slots } ∷ rest
      → complete s.store c.info succeeded ≡ ok (store, n)
      → Inv Op s
      → (n ≡ slots)
        × Inv Op
            (record s { qp = refund s.qp n; store = store; flights = rest; finished = finished })
  complete-Inv s c slots rest succeeded store n finished e h v =
      let (a, found, ran, size, keeps) = complete-ok s.store store c.info n succeeded h in
      let (head, others) = subst (All (Flies s.store)) e v.flying in
      let x = Keeps-Extends keeps in
      let same : n ≡ slots = sym size ∙ (head c refl).1 a found in
      let taken = subst (λ fs. total fs + s.recvs ≤ s.qp.outstanding_rdma_reads) e v.occupied in
      let left = ap (λ (k : Qp). k.outstanding_rdma_reads) (refund_lem s.qp n) in
      (
        same,
        record {
          window = omega (arith, v.window, left, same, taken);
          occupied = omega (arith, v.window, left, same, taken);
          queued =
              subst (λ k. All (Queued Op store) k.assign_queue) (sym (refund_lem s.qp n))
                (All-map (Queued Op s.store) (Queued Op store) s.qp.assign_queue
                  (Queued-Extends x Op) v.queued);
          flying = All-map (Flies s.store) (Flies store) rest (Flies-Extends x) others;
        },
      )

module _ (p : MemoryPool) (qpi : ℕ) (Op : OpCode → Type 0) (Ret : ℕ → Type 0) where
  pub Step-Inv : {s t : System} → Step p qpi Op Ret s t → Inv Op s → Inv Op t
  Step-Inv {s} (submits opcode batch callback allowed free) v = record {
    window = v.window;
    occupied = v.occupied;
    queued =
        enqueue-Queued Op opcode callback allowed s.store s.qp.assign_queue (split batch)
          (split-flatten batch).1 v.queued;
    flying =
        All-map (Flies s.store) _ s.flights
          (Flies-Extends
            (enqueue-Extends Op opcode callback allowed s.store s.qp.assign_queue (split batch)))
          v.flying;
  }
  Step-Inv (wakes w e f) v = record {
    window = v.window;
    occupied = v.occupied;
    queued = v.queued;
    flying = v.flying;
  }
  Step-Inv (stops w f) v = record {
    window = v.window;
    occupied = v.occupied;
    queued = v.queued;
    flying = v.flying;
  }
  Step-Inv {s} (dispatches ret r allowed d e h) v = round-Inv Op p qpi s ret r h v
  Step-Inv (drains d e) v = record {
    window = v.window;
    occupied = v.occupied;
    queued = v.queued;
    flying = v.flying;
  }
  Step-Inv asks_to_stop v = record {
    window = v.window;
    occupied = v.occupied;
    queued = v.queued;
    flying = v.flying;
  }
  Step-Inv {s} (completes c slots rest succeeded store n e h) v =
      (complete-Inv Op s c slots rest succeeded store n _ e h v).1
  Step-Inv {s} (completes_silently slots rest e) v =
      let taken = subst (λ fs. total fs + s.recvs ≤ s.qp.outstanding_rdma_reads) e v.occupied in
      let (head, others) = subst (All (Flies s.store)) e v.flying in
      record {
        window = v.window;
        occupied = omega (arith, taken);
        queued = v.queued;
        flying = others;
      }
  Step-Inv {s} (Step.receives n e) v = record {
    window = v.window;
    occupied = omega (arith, v.occupied);
    queued = v.queued;
    flying = v.flying;
  }
  Step-Inv {s} (elsewhere store x) v = moved-Inv Op s store x v

  pub Reach-Inv : {s t : System} → Inv Op s → Reach p qpi Op Ret s t → Inv Op t
  Reach-Inv v here = v
  Reach-Inv v (next r st) = Step-Inv st (Reach-Inv v r)

  -- Whatever is submitted, whatever the verbs library returns, and however the client, the two
  -- threads and the hardware are interleaved: from a new queue pair on, the requests in the send
  -- queue and the receives under way are never more than `outstanding_rdma_reads_` counts, and that
  -- count stays below the queue's size of MAX_SEND_WR requests.
  pub Reach-within_capacity :
      (s t : System)
      → IsInitial s
      → Reach p qpi Op Ret s t
      → (total t.flights + t.recvs ≤ t.qp.outstanding_rdma_reads)
        × (t.qp.outstanding_rdma_reads < max_send_wr)
  Reach-within_capacity s t i r =
      let v = Reach-Inv (IsInitial-Inv Op s i) r in (v.occupied, v.window)
