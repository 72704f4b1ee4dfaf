-- ===== src/System/Order.antt =====
-- A queue pair that is used for reads, with a verbs library that accepts them.
use dlslime.Prelude.{
  ℕ, ◌+◌, ◌≡◌, refl, sym, ap, subst, ◌∙◌, Option, none, some, List, [], ◌∷◌, ◌++◌, arith, ok,
  append_assoc,
}
use dlslime.Assignment.{OpCode, read}
use dlslime.MemoryPool.{MemoryPool}
use dlslime.Context.{Qp}
use dlslime.Context.Submit.{split, Enqueued}
use dlslime.Context.Submit.Enqueue.{enqueue-Leaves}
use dlslime.WorkRequest.{CallbackInfoWithQpi}
use dlslime.WorkRequest.Batch.{read_wrs-ok-AreReadsOf}
use dlslime.Dispatch.{Round, dispatch_front}
use dlslime.Dispatch.Outcomes.{
  ignored, waits, posts, refuses, reads, sends, receives, dispatch_front-Ends,
}
use dlslime.Completion.{refund}
use dlslime.Completion.Single.{refund_lem}
use dlslime.System.{
  System, Flight, Step, Reach, here, next, IsInitial, submits, wakes, stops, dispatches, drains,
  asks_to_stop, completes, completes_silently, elsewhere, flights_after,
}
use dlslime.System.Inv.{All, All-append, Queued}
use dlslime.System.Hardware.{total, total-append, flights_of-AreReadsOf}
use dlslime.System.Rounds.{Inv, IsInitial-Inv, charged}
use dlslime.System.Capacity.{Step-Inv, complete-Inv}

abbrev pub OnlyReads : OpCode → Type 0
OnlyReads o = o ≡ read

abbrev pub Accepted : ℕ → Type 0
Accepted ret = ret ≡ 0

abbrev cons_info : Option CallbackInfoWithQpi → List ℕ → List ℕ
cons_info none ids = ids
cons_info (some c) ids = c.info ∷ ids

-- The assignments under way, oldest first.
abbrev pub in_flight : List Flight → List ℕ
in_flight [] = []
in_flight (f ∷ fs) = cons_info f.wr_id (in_flight fs)

in_flight-append : (xs ys : List Flight) → in_flight (xs ++ ys) ≡ in_flight xs ++ in_flight ys
in_flight-append [] ys = refl
in_flight-append (f ∷ fs) ys = ground (arith, in_flight-append fs ys)

abbrev IsMarked : Flight → Type 0
IsMarked f = (c : CallbackInfoWithQpi) × (f.wr_id ≡ some c)

pub record Exact (s : System) : Type 0 where
  pub inv : Inv OnlyReads s
  pub count : total s.flights ≡ s.qp.outstanding_rdma_reads
  pub marked : All IsMarked s.flights
  pub history : s.submitted ≡ s.finished ++ (in_flight s.flights ++ s.qp.assign_queue)

pub IsInitial-Exact : (s : System) → IsInitial s → Exact s
IsInitial-Exact s i = record {
  inv = IsInitial-Inv OnlyReads s i;
  count = rw i.flights (sym i.outstanding);
  marked = rw i.flights tt;
  history = rw (i.flights, i.queue, i.finished) i.submitted;
}

-- What a round does: nothing, or the front goes from the queue to the hardware.
pub data Moves (s : System) (q : Qp) (fs : List Flight) : Type 0 where
  stays : q ≡ s.qp → fs ≡ s.flights → Moves s q fs
  goes :
      (c : CallbackInfoWithQpi) (rest : List ℕ) (n : ℕ)
      → s.qp.assign_queue ≡ c.info ∷ rest
      → q.assign_queue ≡ rest
      → q.outstanding_rdma_reads ≡ s.qp.outstanding_rdma_reads + n
      → fs ≡ s.flights ++ record { wr_id = some c; slots = n } ∷ []
      → Moves s q fs

module _ (p : MemoryPool) (qpi : ℕ) where
  pub round-Moves :
      (s : System) (r : Round)
      → dispatch_front p qpi s.qp s.store 0 ≡ ok r
      → Inv OnlyReads s
      → Moves s r.qp (flights_after r.action s.flights)
  round-Moves s r h v =
      let e = dispatch_front-Ends p qpi s.qp s.store 0 h in
      let (front, back) = subst (All (Queued OnlyReads s.store)) e.front v.queued in
      let sound = front.1 e.assignment e.found in
      elim e.outcome [
        | ignored l q act ↦ absurd (omega (arith, sound.small))
        | waits l w q act ↦ stays q (rw act)
        | refuses n l w o q act ↦ absurd (cc (sound.allowed))
        | posts l w q (sends wr o m g act) ↦ absurd (cc (sound.allowed))
        | posts l w q (receives wr o m act) ↦ absurd (cc (sound.allowed))
        | posts l w q (reads wrs o runs act) ↦
            let a = e.assignment in
            let c : CallbackInfoWithQpi = record { info = e.id; qpi = qpi } in
            goes c e.rest a.batch_size e.front (ap (λ (k : Qp). k.assign_queue) q)
              (ap (λ (k : Qp). k.outstanding_rdma_reads) q ∙ (charged OnlyReads p qpi s a l w v).0)
              (rw (
                act,
                flights_of-AreReadsOf p a.batch_size c 0 a.batch wrs (omega (arith, sound.size))
                    sound.some_work (read_wrs-ok-AreReadsOf p a.batch_size c 0 a.batch runs),
              ))
      ]

  -- The parts of `Exact` that speak of the queue and the hardware, after a move.
  Moves-Exact :
      (s : System) (q : Qp) (fs : List Flight)
      → Moves s q fs
      → Exact s
      → (total fs ≡ q.outstanding_rdma_reads)
        × All IsMarked fs
        × (s.submitted ≡ s.finished ++ (in_flight fs ++ q.assign_queue))
  Moves-Exact s q fs (stays same e) v = rw (e, same) (v.count, v.marked, v.history)
  Moves-Exact s q fs (goes c rest n front back out e) v =
      rw (e, back, out)
        (
          omega
              (arith, total-append s.flights (record { wr_id = some c; slots = n } ∷ []), v.count),
          All-append IsMarked s.flights _ v.marked ((c, refl), tt),
          v.history
              ∙ ap (λ l. s.finished ++ l)
                  (ap (λ l. in_flight s.flights ++ l) front
                    ∙ sym (append_assoc (in_flight s.flights) (c.info ∷ []) rest)
                    ∙ ap (λ l. l ++ rest)
                        (sym (
                          in_flight-append s.flights (record { wr_id = some c; slots = n } ∷ [])))),
        )

  complete-Exact :
      (s : System) (c : CallbackInfoWithQpi) (slots : ℕ) (rest : List Flight) (n : ℕ)
      → s.flights ≡ record { wr_id = some c; slots = slots } ∷ rest
      → n ≡ slots
      → Exact s
      → (total rest ≡ (refund s.qp n).outstanding_rdma_reads)
        × All IsMarked rest
        × (s.submitted
            ≡ (s.finished ++ (c.info ∷ [])) ++ (in_flight rest ++ (refund s.qp n).assign_queue))
  complete-Exact s c slots rest n e same v =
      let left = ap (λ (k : Qp). k.outstanding_rdma_reads) (refund_lem s.qp n) in
      let queue = ap (λ (k : Qp). k.assign_queue) (refund_lem s.qp n) in
      let count = subst (λ fs. total fs ≡ s.qp.outstanding_rdma_reads) e v.count in
      let (head, others) = subst (All IsMarked) e v.marked in
      (
        omega (arith, left, same, count, v.inv.window),
        others,
        v.history
            ∙ ap (λ fs. s.finished ++ (in_flight fs ++ s.qp.assign_queue)) e
            ∙ sym (append_assoc s.finished (c.info ∷ []) (in_flight rest ++ s.qp.assign_queue))
            ∙ ap (λ q. (s.finished ++ (c.info ∷ [])) ++ (in_flight rest ++ q)) (sym queue),
      )

  pub Step-Exact : {s t : System} → Step p qpi OnlyReads Accepted s t → Exact s → Exact t
  Step-Exact {s} (submits opcode batch callback allowed free) v =
      let start : Enqueued = record { store = s.store; queue = s.qp.assign_queue; held = none } in
      let made = enqueue-Leaves opcode callback (split batch) start tt in
      record {
        inv = Step-Inv p qpi OnlyReads Accepted (submits opcode batch callback allowed free) v.inv;
        count = v.count;
        marked = v.marked;
        history = rw (made.queue, v.history) (simp append_assoc);
      }
  Step-Exact (wakes w e f) v = record {
    inv = Step-Inv p qpi OnlyReads Accepted (wakes w e f) v.inv;
    count = v.count;
    marked = v.marked;
    history = v.history;
  }
  Step-Exact (stops w f) v = record {
    inv = Step-Inv p qpi OnlyReads Accepted (stops w f) v.inv;
    count = v.count;
    marked = v.marked;
    history = v.history;
  }
  Step-Exact {s} (dispatches ret r zero_ret d e h) v =
      let (count, marked, history) =
        Moves-Exact s r.qp _ (round-Moves s r (rw zero_ret at h) v.inv) v in
      record {
        inv = Step-Inv p qpi OnlyReads Accepted (dispatches ret r zero_ret d e h) v.inv;
        count = count;
        marked = marked;
        history = history;
      }
  Step-Exact (drains d e) v = record {
    inv = Step-Inv p qpi OnlyReads Accepted (drains d e) v.inv;
    count = v.count;
    marked = v.marked;
    history = v.history;
  }
  Step-Exact asks_to_stop v = record {
    inv = Step-Inv p qpi OnlyReads Accepted asks_to_stop v.inv;
    count = v.count;
    marked = v.marked;
    history = v.history;
  }
  Step-Exact {s} (completes c slots rest succeeded store n e h) v =
      let (same, inv) = complete-Inv OnlyReads s c slots rest succeeded store n _ e h v.inv in
      let (count, marked, history) = complete-Exact s c slots rest n e same v in
      record { inv = inv; count = count; marked = marked; history = history }
  Step-Exact {s} (completes_silently slots rest e) v =
      let (head, others) = subst (All IsMarked) e v.marked in absurd (cc (head.1))
  Step-Exact (Step.receives n e) v = record {
    inv = Step-Inv p qpi OnlyReads Accepted (Step.receives n e) v.inv;
    count = v.count;
    marked = v.marked;
    history = v.history;
  }
  Step-Exact (elsewhere store x) v = record {
    inv = Step-Inv p qpi OnlyReads Accepted (elsewhere store x) v.inv;
    count = v.count;
    marked = v.marked;
    history = v.history;
  }

  pub Reach-Exact : {s t : System} → Exact s → Reach p qpi OnlyReads Accepted s t → Exact t
  Reach-Exact v here = v
  Reach-Exact v (next r st) = Step-Exact st (Reach-Exact v r)

  -- A queue pair that carries reads only, whose requests the verbs library accepts, loses no
  -- assignment, serves none twice and serves them in the order of submission: at any moment those
  -- submitted are those whose callback has been called, then those under way, then those that wait
  -- in the queue. The count of outstanding reads is the number of slots under way.
  pub Reach-in_order :
      (s t : System)
      → IsInitial s
      → Reach p qpi OnlyReads Accepted s t
      → (t.submitted ≡ t.finished ++ (in_flight t.flights ++ t.qp.assign_queue))
        × (total t.flights ≡ t.qp.outstanding_rdma_reads)
  Reach-in_order s t i r = let v = Reach-Exact (IsInitial-Exact s i) r in (v.history, v.count)
