-- ===== src/Machine/Runs.antt =====
-- Every run of a context is a run of each of its queue pairs.
use dlslime.Prelude.{
  ℕ, ◌+◌, ◌≤◌, ◌<◌, ◌≡◌, refl, sym, ap, subst, ◌∙◌, some, [], length, arith, get_elem?-lt,
  get_elem?-of_lt, length-set,
}
use mathlib.Core.Option.{some-injective}
use dlslime.Assignment.{OpCode}
use dlslime.MemoryPool.{MemoryPool}
use dlslime.Context.{Qp, select_qpi}
use dlslime.Completion.Single.{handle_wc-Handled}
use dlslime.System.{System, Reach, IsInitial}
use dlslime.System
use dlslime.RdmaInfo.{max_send_wr}
use dlslime.System.Inv.{All}
use dlslime.System.Hardware.{total}
use dlslime.System.Rounds.{Inv, IsInitial-Inv}
use dlslime.System.Capacity.{Reach-Inv}
use dlslime.Machine.{
  Lane, Machine, MachineStep, MachineReach, new_lane, qp_at, submits, wakes, stops, dispatches,
  drains, asks_to_stop, completes, completes_silently, elsewhere, here, next,
}
use dlslime.Machine.Own.{IsOwn, Owned, Owned-update, round-IsOwn}
use dlslime.Machine.Project.{view, project_step, submit-Chosen}

-- No queue pair has work or requests under way.
pub record IsNew (m : Machine) : Type 0 where
  pub lanes : (k : ℕ) → m.lanes k ≡ new_lane
  pub queues :
      (k : ℕ) (q : Qp) → qp_at m k ≡ some q → (q.assign_queue ≡ []) × (q.outstanding_rdma_reads ≡ 0)

Reach-trans :
    (p : MemoryPool) (k : ℕ) (Op : OpCode → Type 0) (Ret : ℕ → Type 0) {s t u : System}
    → Reach p k Op Ret s t
    → Reach p k Op Ret t u
    → Reach p k Op Ret s u
Reach-trans p k Op Ret r System.here = r
Reach-trans p k Op Ret r (System.next l step) = System.next (Reach-trans p k Op Ret r l) step

module _ (Op : OpCode → Type 0) (Ret : ℕ → Type 0) where
  abbrev AllInv : Machine → Type 0
  AllInv m = (k : ℕ) (q : Qp) → qp_at m k ≡ some q → Inv Op (view m k q)

  Step-Owned : {m m' : Machine} → MachineStep Op Ret m m' → AllInv m → Owned m → Owned m'
  Step-Owned {m} (submits opcode batch callback r allowed free h) v own =
      Owned-update m.lanes (select_qpi m.context).1 _ own (own (select_qpi m.context).1)
  Step-Owned {m} (wakes j q f w e s) v own = Owned-update m.lanes j _ own (own j)
  Step-Owned {m} (stops j q f w s) v own = Owned-update m.lanes j _ own (own j)
  Step-Owned {m} (dispatches j q ret r f allowed d e h) v own =
      Owned-update m.lanes j _ own
        (round-IsOwn Op m.context.memory_pool j (view m j q) ret r h (v j q f) (own j))
  Step-Owned {m} (drains j q f d e) v own = Owned-update m.lanes j _ own (own j)
  Step-Owned (asks_to_stop j q f) v own = own
  Step-Owned {m} (completes j c slots rest succeeded r e h) v own =
      Owned-update m.lanes j _ own (subst (All (IsOwn j)) e (own j)).1
  Step-Owned {m} (completes_silently j slots rest e) v own =
      Owned-update m.lanes j _ own (subst (All (IsOwn j)) e (own j)).1
  Step-Owned {m} (MachineStep.receives j n e) v own = Owned-update m.lanes j _ own (own j)
  Step-Owned (elsewhere store x) v own = own

  -- The memory pool stays, and no queue pair comes or goes.
  abbrev pub Same : Machine → Machine → Type 0
  Same m m' =
      (m'.context.memory_pool ≡ m.context.memory_pool)
      × (length m'.context.qp_management ≡ length m.context.qp_management)

  Step-Same : {m m' : Machine} → MachineStep Op Ret m m' → Same m m'
  Step-Same {m} (submits opcode batch callback r allowed free h) =
      let c = submit-Chosen Op Ret m.context m.store opcode batch callback r h in
      (c.pool, ap length c.qps ∙ length-set m.context.qp_management (select_qpi m.context).1 _)
  Step-Same (wakes j q f w e s) = (refl, refl)
  Step-Same (stops j q f w s) = (refl, refl)
  Step-Same {m} (dispatches j q ret r f allowed d e h) =
      (refl, length-set m.context.qp_management j _)
  Step-Same (drains j q f d e) = (refl, refl)
  Step-Same {m} (asks_to_stop j q f) = (refl, length-set m.context.qp_management j _)
  Step-Same {m} (completes j c slots rest succeeded r e h) =
      let v = handle_wc-Handled _ r c succeeded h in
      (refl, ap length v.qps ∙ length-set m.context.qp_management c.qpi _)
  Step-Same (completes_silently j slots rest e) = (refl, refl)
  Step-Same (MachineStep.receives j n e) = (refl, refl)
  Step-Same (elsewhere store x) = (refl, refl)

  -- The queue pair `k` has run as one of System.
  abbrev pub Runs : Machine → Machine → ℕ → Qp → Type 0
  Runs m n k q =
      (q' : Qp) × (qp_at n k ≡ some q')
      × Reach m.context.memory_pool k Op Ret (view m k q) (view n k q')

  pub record Tracked (m n : Machine) : Type 0 where
    pub owned : Owned n
    pub same : Same m n
    pub runs : (k : ℕ) (q : Qp) → qp_at m k ≡ some q → Runs m n k q

  pub IsInitial-view :
      (m : Machine) (k : ℕ) (q : Qp) → IsNew m → qp_at m k ≡ some q → IsInitial (view m k q)
  IsInitial-view m k q new found =
      let l = new.lanes k in
      record {
        queue = (new.queues k q found).0;
        outstanding = (new.queues k q found).1;
        flights = ap (λ (x : Lane). x.flights) l;
        recvs = ap (λ (x : Lane). x.recvs) l;
        submitted = ap (λ (x : Lane). x.submitted) l;
        finished = ap (λ (x : Lane). x.finished) l;
      }

  -- The run of a queue pair that is there now, from where it was at first.
  pub Tracked-run :
      (m n : Machine)
      → Tracked m n
      → (k : ℕ) (q : Qp) → qp_at n k ≡ some q
      → (q₀ : Qp) × (qp_at m k ≡ some q₀)
        × Reach m.context.memory_pool k Op Ret (view m k q₀) (view n k q)
  Tracked-run m n t k q found =
      let (q₀, before) =
        get_elem?-of_lt m.context.qp_management k
          (omega (arith, get_elem?-lt n.context.qp_management k found, t.same.1)) in
      let (q', found', run) = t.runs k q₀ before in
      let e : q' ≡ q = some-injective _ _ (sym found' ∙ found) in
      (
        q₀,
        before,
        subst (λ x. Reach m.context.memory_pool k Op Ret (view m k q₀) (view n k x)) e run,
      )

  Tracked-AllInv : (m n : Machine) → IsNew m → Tracked m n → AllInv n
  Tracked-AllInv m n new t k q found =
      let (q₀, before, run) = Tracked-run m n t k q found in
      Reach-Inv m.context.memory_pool k Op Ret
        (IsInitial-Inv Op (view m k q₀) (IsInitial-view m k q₀ new before)) run

  pub Reach-Tracked : (m n : Machine) → IsNew m → MachineReach Op Ret m n → Tracked m n
  Reach-Tracked m n new here = record {
    owned = λ k. rw (new.lanes k) tt;
    same = (refl, refl);
    runs = λ k q found. (q, found, System.here);
  }
  Reach-Tracked m n new (next {n = m'} r step) =
      let t = Reach-Tracked m m' new r in
      let same = Step-Same step in
      record {
        owned = Step-Owned step (Tracked-AllInv m m' new t) t.owned;
        same = (same.0 ∙ t.same.0, same.1 ∙ t.same.1);
        runs = λ k q found.
            let (q₁, found₁, run) = t.runs k q found in
            let p = project_step Op Ret step t.owned k q₁ found₁ in
            (
              p.qp,
              p.found,
              Reach-trans m.context.memory_pool k Op Ret run (
                  subst (λ pool. Reach pool k Op Ret (view m' k q₁) (view n k p.qp)) t.same.0
                    p.run),
            );
      }

  -- However the clients of a context, the dispatching threads of its queue pairs, the hardware and the
  -- polling thread that the queue pairs share are interleaved: what each queue pair of a new context goes
  -- through, seen by itself, is a run of a queue pair of System with the context's memory pool. So what
  -- is proved of such runs holds of each queue pair of a context: its count of outstanding reads stays
  -- below MAX_SEND_WR, and its requests under way are never more than that.
  pub Reach-Runs :
      (m n : Machine)
      → IsNew m
      → MachineReach Op Ret m n
      → (k : ℕ) (q : Qp) → qp_at m k ≡ some q
      → Runs m n k q
        × ((q' : Qp)
            → qp_at n k ≡ some q'
            → (total (n.lanes k).flights + (n.lanes k).recvs ≤ q'.outstanding_rdma_reads)
              × (q'.outstanding_rdma_reads < max_send_wr))
  Reach-Runs m n new r k q found =
      let t = Reach-Tracked m n new r in
      (
        t.runs k q found,
        λ q' found'. let v = Tracked-AllInv m n new t k q' found' in (v.occupied, v.window),
      )
