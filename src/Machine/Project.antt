-- ===== src/Machine/Project.antt =====
-- Each queue pair of a context at work is the queue pair of System, to which everything else happens
-- elsewhere.
use dlslime.Prelude.{
  ℕ, ◌≡◌, ◌≢◌, refl, sym, ap, subst, ◌∙◌, true, Option, none, some, get_elem?, set, ok, ◌==◌, arith,
  Bool-cases, Option-cases, inl, inr, ok-injective, get_elem?-set_self, get_elem?-set_ne,
  get_elem?-lt,
}
use mathlib.Core.Option.{some-injective}
use dlslime.Assignment.{OpCode, AssignmentBatch}
use dlslime.Store.{Store, Callback}
use dlslime.Store.Frame.{Keeps-refl}
use dlslime.Context.{Qp, Context, select_qpi}
use dlslime.Context.Submit.{split, enqueue, submit, Submitted}
use dlslime.Dispatch.Outcomes.{dispatch_front-Ends}
use dlslime.Completion.{refund}
use dlslime.Completion.Single.{complete-ok, handle_wc-Handled}
use dlslime.System
use dlslime.System.{System, Flight, Step, Reach, Extends, flights_after, IsInitial}
use dlslime.System.Inv.{All, Keeps-Extends, enqueue-Extends}
use dlslime.Machine.{
  Lane, Machine, MachineStep, update, qp_at, with_qp, submits, wakes, stops, dispatches, drains,
  asks_to_stop, completes, completes_silently, elsewhere,
}
use dlslime.Machine.Own.{IsOwn, Owned, update_self, update_other}

abbrev pub view_of : Lane → Qp → Store → System
view_of l q store = record {
  qp = q;
  store = store;
  phase = l.phase;
  flights = l.flights;
  recvs = l.recvs;
  submitted = l.submitted;
  finished = l.finished;
}

abbrev pub view : Machine → ℕ → Qp → System
view m k q = view_of (m.lanes k) q m.store

module _ (Op : OpCode → Type 0) (Ret : ℕ → Type 0) where
  -- The queue pair `k` has gone on as a queue pair of System does.
  pub record Projects (k : ℕ) (m m' : Machine) (q : Qp) : Type 0 where
    pub qp : Qp
    pub found : qp_at m' k ≡ some qp
    pub run : Reach m.context.memory_pool k Op Ret (view m k q) (view m' k qp)

  abbrev pub Can : ℕ → Machine → Machine → Type 0
  Can k m m' = (q : Qp) → qp_at m k ≡ some q → Projects k m m' q

  by-Step :
      (k : ℕ) (m m' : Machine) (q q' : Qp) (l : Lane)
      → qp_at m' k ≡ some q'
      → m'.lanes k ≡ l
      → Step m.context.memory_pool k Op Ret (view m k q) (view_of l q' m'.store)
      → Projects k m m' q
  by-Step k m m' q q' l found e step = record {
    qp = q';
    found = found;
    run =
        subst (λ l. Reach m.context.memory_pool k Op Ret (view m k q) (view_of l q' m'.store))
          (sym e) (System.next System.here step);
  }

  -- What another queue pair does happens elsewhere.
  apart :
      (k : ℕ) (m m' : Machine)
      → qp_at m' k ≡ qp_at m k
      → m'.lanes k ≡ m.lanes k
      → Extends m.store m'.store
      → Can k m m'
  apart k m m' same lane x q found =
      by-Step k m m' q q (m.lanes k) (same ∙ found) lane (System.elsewhere m'.store x)

  -- A step of the queue pair `j`.
  at_lane :
      (j : ℕ) (m m' : Machine)
      → Can j m m'
      → ((k : ℕ) → j ≢ k → (qp_at m' k ≡ qp_at m k) × (m'.lanes k ≡ m.lanes k))
      → Extends m.store m'.store
      → (k : ℕ) → Can k m m'
  at_lane j m m' can others x k = elim (Bool-cases (j == k)) [
    | inl hit ↦ let e : j ≡ k = ground arith in subst (λ i. Can i m m') e can
    | inr miss ↦
        let other : j ≢ k = ground arith in apart k m m' (others k other).0 (others k other).1 x
  ]

  same_store : (s : Store) → Extends s s
  same_store s = Keeps-Extends (Keeps-refl s)

  -- A step that changes a lane and nothing else.
  in_lane :
      (j : ℕ) (m : Machine) (l : Lane)
      → ((q : Qp)
          → qp_at m j ≡ some q
          → Step m.context.memory_pool j Op Ret (view m j q) (view_of l q m.store))
      → (k : ℕ) → Can k m (record m { lanes = update m.lanes j l })
  in_lane j m l step =
      let m' : Machine = record m { lanes = update m.lanes j l } in
      at_lane j m m'
        (λ q found. by-Step j m m' q q l found (update_self m.lanes j l) (step q found))
        (λ k other. (refl, update_other m.lanes j k l other)) (same_store m.store)

  -- A step that changes a queue pair, its lane and the store.
  in_queue_pair :
      (j : ℕ) (m m' : Machine) (q₀ q' : Qp) (l : Lane)
      → qp_at m j ≡ some q₀
      → m'.context.qp_management ≡ set m.context.qp_management j q'
      → m'.lanes ≡ update m.lanes j l
      → Extends m.store m'.store
      → Step m.context.memory_pool j Op Ret (view m j q₀) (view_of l q' m'.store)
      → (k : ℕ) → Can k m m'
  in_queue_pair j m m' q₀ q' l here_is qps lanes x step =
      at_lane j m m'
        (λ q found.
          let same : q₀ ≡ q = some-injective _ _ (sym here_is ∙ found) in
          rw (← same) (
            by-Step j m m' q₀ q' l
              (ap (λ qs. get_elem? qs j) qps
                ∙ get_elem?-set_self m.context.qp_management j q'
                    (get_elem?-lt m.context.qp_management j here_is))
              (ap (λ ls. ls j) lanes ∙ update_self m.lanes j l) step))
        (λ k other. (
          ap (λ qs. get_elem? qs k) qps ∙ get_elem?-set_ne m.context.qp_management q' other,
          ap (λ ls. ls k) lanes ∙ update_other m.lanes j k l other,
        ))
        x

  -- What `submit` does to the queue pair that it chooses.
  pub record Chosen (c : Context) (s : Store) (opcode : OpCode) (batch : AssignmentBatch)
      (callback : Option Callback) (r : Submitted) : Type 0 where
    pub qp : Qp
    pub found : get_elem? c.qp_management (select_qpi c).1 ≡ some qp
    pub pool : r.context.memory_pool ≡ c.memory_pool
    pub qps :
        r.context.qp_management
        ≡ set c.qp_management (select_qpi c).1 (record qp {
          assign_queue =
              (enqueue opcode callback
                (split batch)
                (record { store = s; queue = qp.assign_queue; held = none })).queue;
        })
    pub store :
        r.store
        ≡ (enqueue opcode callback
            (split batch)
            (record { store = s; queue = qp.assign_queue; held = none })).store

  pub submit-Chosen :
      (c : Context) (s : Store) (opcode : OpCode) (batch : AssignmentBatch)
      (callback : Option Callback) (r : Submitted)
      → submit c s opcode batch callback ≡ ok r
      → Chosen c s opcode batch callback r
  unfolding submit select_qpi
  submit-Chosen c s opcode batch callback r h =
      elim (Option-cases (get_elem? c.qp_management (select_qpi c).1)) [
        | inl gone ↦ absurd (cc (rw gone at h))
        | inr (q, found) ↦
            let made = ok-injective (rw found at h) in
            rw (← made) (record { qp = q; found = found; pool = refl; qps = refl; store = refl })
      ]

  pub project_step : {m m' : Machine} → MachineStep Op Ret m m' → Owned m → (k : ℕ) → Can k m m'
  project_step {m} (submits opcode batch callback r allowed free h) own =
      let c = submit-Chosen m.context m.store opcode batch callback r h in
      in_queue_pair (select_qpi m.context).1 m _ c.qp _ _ c.found c.qps refl
        (rw c.store
          (enqueue-Extends Op opcode callback allowed m.store c.qp.assign_queue (split batch)))
        (rw c.store (System.submits opcode batch callback allowed free))
  project_step {m} (wakes j q₀ here_is w e f) own = in_lane j m _ (λ q found.
      let same : q₀ ≡ q = some-injective _ _ (sym here_is ∙ found) in
      System.wakes w (rw (← same) e) (rw (← same) f))
  project_step {m} (stops j q₀ here_is w f) own = in_lane j m _ (λ q found.
      let same : q₀ ≡ q = some-injective _ _ (sym here_is ∙ found) in
      System.stops w (rw (← same) f))
  project_step {m} (dispatches j q ret r here_is allowed d e h) own =
      let x = Keeps-Extends (dispatch_front-Ends m.context.memory_pool j q m.store ret h).keeps in
      in_queue_pair j m _ q r.qp _ here_is refl refl x (System.dispatches ret r allowed d e h)
  project_step {m} (drains j q₀ here_is d e) own = in_lane j m _ (λ q found.
      let same : q₀ ≡ q = some-injective _ _ (sym here_is ∙ found) in
      System.drains d (rw (← same) e))
  project_step {m} (asks_to_stop j q₀ here_is) own =
      let qps = m.context.qp_management in
      let q' : Qp = record q₀ { stop_wq_future = true } in
      let m' : Machine = record m { context = with_qp m.context j q' } in
      at_lane j m m'
        (λ q found.
          let same : q₀ ≡ q = some-injective _ _ (sym here_is ∙ found) in
          by-Step j m m' q (record q { stop_wq_future = true }) (m.lanes j)
            (get_elem?-set_self qps j q' (get_elem?-lt qps j here_is)
              ∙ ap (λ (k : Qp). some (record k { stop_wq_future = true })) same)
            refl System.asks_to_stop)
        (λ k other. (get_elem?-set_ne qps q' other, refl)) (same_store m.store)
  project_step {m} (completes j c slots rest succeeded r e h) own =
      let v = handle_wc-Handled _ r c succeeded h in
      let to : c.qpi ≡ j = (subst (All (IsOwn j)) e (own j)).0 c refl in
      let (a, found, ran, size, keeps) =
        complete-ok m.store r.store c.info v.batch_size succeeded v.done in
      in_queue_pair j m _ v.qp (refund v.qp v.batch_size) _ (rw to at v.found) (rw to at v.qps) refl
        (Keeps-Extends keeps)
        (System.completes c slots rest succeeded r.store v.batch_size e v.done)
  project_step {m} (completes_silently j slots rest e) own =
      in_lane j m _ (λ q found. System.completes_silently slots rest e)
  project_step {m} (MachineStep.receives j n e) own = in_lane j m _ (λ q found. System.receives n e)
  project_step {m} (elsewhere store x) own = λ k. apart k m _ refl refl x
