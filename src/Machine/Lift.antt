-- ===== src/Machine/Lift.antt =====
-- What a queue pair of System can do, it can do in its context, while nothing else happens.
use dlslime.Prelude.{
  ℕ, ◌≡◌, true, refl, sym, ap, subst, some, get_elem?, get_elem?-set_self, get_elem?-lt,
}
use dlslime.Assignment.{OpCode}
use dlslime.Context.{Qp}
use dlslime.Completion.{refund}
use dlslime.Completion.Single.{handle_wc-complete}
use dlslime.System
use dlslime.System.{System, Step, Reach}
use dlslime.System.Inv.{All}
use dlslime.System.Finish.{Nothing}
use dlslime.Machine.{
  Lane, Machine, MachineStep, MachineReach, update, qp_at, submits, wakes, stops, dispatches,
  drains, asks_to_stop, completes, completes_silently, elsewhere, here, next,
}
use dlslime.Machine.Own.{IsOwn, update_self}
use dlslime.Machine.Project.{view_of, view}
use dlslime.Machine.Runs.{IsNew, Reach-Tracked}

module _ (Ret : ℕ → Type 0) where
  record Lifted (m : Machine) (k : ℕ) (u : System) : Type 0 where
    machine : Machine
    step : MachineStep Nothing Ret m machine
    qp : Qp
    found : qp_at machine k ≡ some qp
    sees : view machine k qp ≡ u

  in_lane :
      (m : Machine) (k : ℕ) (q : Qp) (l : Lane)
      → qp_at m k ≡ some q
      → MachineStep Nothing Ret m (record m { lanes = update m.lanes k l })
      → Lifted m k (view_of l q m.store)
  in_lane m k q l found step = record {
    machine = record m { lanes = update m.lanes k l };
    step = step;
    qp = q;
    found = found;
    sees = ap (λ x. view_of x q m.store) (update_self m.lanes k l);
  }

  lift-Step :
      (m : Machine) (k : ℕ) (q : Qp) {u : System}
      → qp_at m k ≡ some q
      → All (IsOwn k) (m.lanes k).flights
      → Step m.context.memory_pool k Nothing Ret (view m k q) u
      → Lifted m k u
  lift-Step m k q found own (System.submits opcode batch callback none free) = absurd none
  lift-Step m k q found own (System.wakes w e f) = in_lane m k q _ found (wakes k q found w e f)
  lift-Step m k q found own (System.stops w f) = in_lane m k q _ found (stops k q found w f)
  lift-Step m k q found own (System.dispatches ret r a d e h) = record {
    machine = _;
    step = dispatches k q ret r found a d e h;
    qp = r.qp;
    found =
        get_elem?-set_self m.context.qp_management k r.qp
          (get_elem?-lt m.context.qp_management k found);
    sees = ap (λ x. view_of x r.qp r.store) (update_self m.lanes k _);
  }
  lift-Step m k q found own (System.drains d e) = in_lane m k q _ found (drains k q found d e)
  lift-Step m k q found own System.asks_to_stop = record {
    machine = _;
    step = asks_to_stop k q found;
    qp = record q { stop_wq_future = true };
    found =
        get_elem?-set_self m.context.qp_management k _
          (get_elem?-lt m.context.qp_management k found);
    sees = refl;
  }
  lift-Step m k q found own (System.completes c slots rest succeeded store n e h) =
      let to : c.qpi ≡ k = (subst (All (IsOwn k)) e own).0 c refl in
      let qps = m.context.qp_management in
      let here_is : get_elem? qps c.qpi ≡ some q = rw to found in
      let handled =
        handle_wc-complete (record { qps = qps; store = m.store }) c succeeded store n q h
          here_is in
      record {
        machine = _;
        step = completes k c slots rest succeeded _ e handled;
        qp = refund q n;
        found = rw to (get_elem?-set_self qps k (refund q n) (get_elem?-lt qps k found));
        sees = ap (λ x. view_of x (refund q n) store) (update_self m.lanes k _);
      }
  lift-Step m k q found own (System.completes_silently slots rest e) =
      in_lane m k q _ found (completes_silently k slots rest e)
  lift-Step m k q found own (System.receives n e) =
      in_lane m k q _ found (MachineStep.receives k n e)
  lift-Step m k q found own (System.elsewhere store x) = record {
    machine = _;
    step = elsewhere store x;
    qp = q;
    found = found;
    sees = refl;
  }

  busier :
      {m n : Machine} (Op : OpCode → Type 0) → MachineStep Nothing Ret m n → MachineStep Op Ret m n
  busier Op (submits opcode batch callback r none free h) = absurd none
  busier Op (wakes k q f w e s) = wakes k q f w e s
  busier Op (stops k q f w s) = stops k q f w s
  busier Op (dispatches k q ret r f a d e h) = dispatches k q ret r f a d e h
  busier Op (drains k q f d e) = drains k q f d e
  busier Op (asks_to_stop k q f) = asks_to_stop k q f
  busier Op (completes k c slots rest succeeded r e h) = completes k c slots rest succeeded r e h
  busier Op (completes_silently k slots rest e) = completes_silently k slots rest e
  busier Op (MachineStep.receives k n e) = MachineStep.receives k n e
  busier Op (elsewhere store x) = elsewhere store x

  -- A context that has come from `n`, in which the queue pair `k` is as `u` says.
  pub record Follows (Op : OpCode → Type 0) (m n : Machine) (k : ℕ) (u : System) : Type 0 where
    pub machine : Machine
    pub run : MachineReach Nothing Ret n machine
    pub all : MachineReach Op Ret m machine
    pub qp : Qp
    pub found : qp_at machine k ≡ some qp
    pub sees : view machine k qp ≡ u

  pub lift_run :
      (Op : OpCode → Type 0) (m n : Machine)
      → IsNew m
      → MachineReach Op Ret m n
      → (k : ℕ) (q : Qp) → qp_at n k ≡ some q
      → {u : System} → Reach m.context.memory_pool k Nothing Ret (view n k q) u
      → Follows Op m n k u
  lift_run Op m n new r k q found System.here = record {
    machine = n;
    run = here;
    all = r;
    qp = q;
    found = found;
    sees = refl;
  }
  lift_run Op m n new r k q found {u} (System.next {t = t} l step) =
      let f = lift_run Op m n new r k q found l in
      let all = Reach-Tracked Op Ret m f.machine new f.all in
      let x = lift-Step f.machine k f.qp {u = u} f.found (all.owned k) (
        subst (λ s. Step f.machine.context.memory_pool k Nothing Ret s u) (sym f.sees)
          (subst (λ p. Step p k Nothing Ret t u) (sym all.same.0) step)) in
      record {
        machine = x.machine;
        run = next f.run x.step;
        all = next f.all (busier Op x.step);
        qp = x.qp;
        found = x.found;
        sees = x.sees;
      }
