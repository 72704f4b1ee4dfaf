-- ===== src/System/Rounds.antt =====
-- A round of the dispatch loop charges the window for what it posts.
use dlslime.Prelude.{
  ℕ, zero, suc, ◌+◌, ◌≤◌, ◌<◌, ◌≡◌, refl, sym, ap, subst, ◌∙◌, true, none, some, List, [], ◌∷◌,
  ◌++◌, arith, ok, ok-injective, append-nil,
}
use mathlib.Core.Option.{some-injective}
use dlslime.Assignment.{OpCode}
use dlslime.MemoryPool.{MemoryPool}
use dlslime.RdmaInfo.{max_send_wr}
use dlslime.Store.{Store, RdmaAssignment, find}
use dlslime.Context.{Qp}
use dlslime.WorkRequest.{CallbackInfoWithQpi, charge, charge_lem}
use dlslime.WorkRequest.Batch.{read_wrs-ok-AreReadsOf}
use dlslime.Dispatch.{Round, Action, dispatch_front, fits_window}
use dlslime.Dispatch.Window.{fits_window_iff, add32-exact}
use dlslime.Dispatch.Outcomes.{
  ignored, waits, posts, refuses, Posts, reads, sends, receives, dispatch_front-Ends,
}
use dlslime.System.{System, Flight, Extends, IsInitial, flights_after, recvs_after, after_round}
use dlslime.System.Inv.{
  All, All-append, All-map, Queued, Flies, Queued-Extends, Flies-Extends, Keeps-Extends,
}
use dlslime.System.Hardware.{total, total-append, flights_of-AreReadsOf}

pub record Inv (Op : OpCode → Type 0) (s : System) : Type 0 where
  pub window : s.qp.outstanding_rdma_reads < max_send_wr
  pub occupied : total s.flights + s.recvs ≤ s.qp.outstanding_rdma_reads
  pub queued : All (Queued Op s.store) s.qp.assign_queue
  pub flying : All (Flies s.store) s.flights

pub IsInitial-Inv : (Op : OpCode → Type 0) (s : System) → IsInitial s → Inv Op s
IsInitial-Inv Op s i = record {
  window = omega (arith, i.outstanding);
  occupied = rw (i.flights) (omega (arith, i.recvs));
  queued = rw i.queue tt;
  flying = rw i.flights tt;
}

-- What a round posts: at most as many slots as it charges, and callbacks that stand for their slots.
record Fair (s' : Store) (n : ℕ) (flights : List Flight) (recvs : ℕ) (fs : List Flight) (rs : ℕ)
    : Type 0 where
  fresh : List Flight
  split : fs ≡ flights ++ fresh
  pub charged : total fresh + rs ≤ n + recvs
  flies : All (Flies s') fresh

-- The verbs library has refused, or the hardware's queue is not the send queue.
Fair-none :
    (s' : Store) (n : ℕ) (flights : List Flight) (recvs rs : ℕ)
    → rs ≤ n + recvs
    → Fair s' n flights recvs flights rs
Fair-none s' n flights recvs rs h = record {
  fresh = [];
  split = sym (append-nil flights);
  charged = omega arith;
  flies = tt;
}

module _ (Op : OpCode → Type 0) (p : MemoryPool) (qpi id : ℕ) (a : RdmaAssignment) (s s' : Store)
    (flights : List Flight) (recvs : ℕ) where
  own-Flies :
      Queued Op s id
      → find s id ≡ ok a
      → Flies s (record { wr_id = some (record { info = id; qpi = qpi }); slots = a.batch_size })
  own-Flies (below, sound) found c m =
      let same : id ≡ c.info = ap (λ (k : CallbackInfoWithQpi). k.info) (some-injective _ _ m) in
      let found' : find s c.info ≡ ok a = rw (← same) found in
      (
        rw (← same) below,
        λ b g.
            ap (λ (k : RdmaAssignment). k.callback_info.batch_size) (ok-injective (sym g ∙ found'))
            ∙ (sound a found).info_size,
      )

  Posts-Fair :
      (ret : ℕ) (act : Action)
      → Queued Op s id
      → find s id ≡ ok a
      → Extends s s'
      → Posts p qpi id a ret act
      → Fair s' a.batch_size flights recvs (flights_after act flights) (recvs_after act recvs)
  Posts-Fair zero act (below, sound) found x (reads wrs o runs e) =
      let v = sound a found in
      let c : CallbackInfoWithQpi = record { info = id; qpi = qpi } in
      let one =
        flights_of-AreReadsOf p a.batch_size c 0 a.batch wrs (omega (arith, v.size)) v.some_work
          (read_wrs-ok-AreReadsOf p a.batch_size c 0 a.batch runs) in
      rw (e, one)
        (record {
          fresh = record { wr_id = some c; slots = a.batch_size } ∷ [];
          split = refl;
          charged = omega arith;
          flies = (Flies-Extends x _ (own-Flies (below, sound) found), tt);
        })
  Posts-Fair (suc n) act (below, sound) found x (reads wrs o runs e) =
      rw e (Fair-none s' a.batch_size flights recvs recvs (omega arith))
  Posts-Fair zero act (below, sound) found x (sends wr o unmarked signaled e) =
      let v = sound a found in
      rw (e, signaled, unmarked)
        (record {
          fresh = record { wr_id = none; slots = 1 } ∷ [];
          split = refl;
          charged = omega (arith, v.size, v.some_work);
          flies = (λ c m. cc, tt);
        })
  Posts-Fair (suc n) act (below, sound) found x (sends wr o unmarked signaled e) =
      rw e (Fair-none s' a.batch_size flights recvs recvs (omega arith))
  Posts-Fair zero act (below, sound) found x (receives wr o unmarked e) =
      let v = sound a found in
      rw e
        (Fair-none s' a.batch_size flights recvs (suc recvs) (omega (arith, v.size, v.some_work)))
  Posts-Fair (suc n) act (below, sound) found x (receives wr o unmarked e) =
      rw e (Fair-none s' a.batch_size flights recvs recvs (omega arith))

-- A step that charges `n` and posts no more than that.
charged-Inv :
    (Op : OpCode → Type 0) (s : System) (q : Qp) (store : Store) (fs : List Flight) (rs n : ℕ)
    → Extends s.store store
    → Inv Op s
    → All (Queued Op store) q.assign_queue
    → q.outstanding_rdma_reads ≡ s.qp.outstanding_rdma_reads + n
    → q.outstanding_rdma_reads < max_send_wr
    → Fair store n s.flights s.recvs fs rs
    → Inv Op (record s { qp = q; store = store; flights = fs; recvs = rs })
charged-Inv Op s q store fs rs n x v queued charge within f = record {
  window = within;
  occupied = rw (f.split) (omega (arith, total-append s.flights f.fresh, v.occupied, f.charged));
  queued = queued;
  flying = rw (f.split) (
      All-append (Flies store) s.flights f.fresh
        (All-map (Flies s.store) (Flies store) s.flights (Flies-Extends x) v.flying) f.flies);
}

module _ (Op : OpCode → Type 0) (p : MemoryPool) (qpi : ℕ) where
  pub charged :
      (s : System) (a : RdmaAssignment)
      → a.batch_size ≤ max_send_wr
      → fits_window a.batch_size s.qp ≡ true
      → Inv Op s
      → ((charge s.qp a.batch_size).outstanding_rdma_reads
          ≡ s.qp.outstanding_rdma_reads + a.batch_size)
        × (s.qp.outstanding_rdma_reads + a.batch_size < max_send_wr)
  charged s a small fits v =
      let room = (fits_window_iff a.batch_size s.qp small v.window).0 fits in
      (
        ap (λ (k : Qp). k.outstanding_rdma_reads) (charge_lem s.qp a.batch_size)
            ∙ add32-exact a.batch_size s.qp room,
        omega (arith, room),
      )

  -- A round, with its effects on the hardware, keeps the invariant.
  pub round-Inv :
      (s : System) (ret : ℕ) (r : Round)
      → dispatch_front p qpi s.qp s.store ret ≡ ok r
      → Inv Op s
      → Inv Op (after_round p qpi Op (λ n. Unit {0}) s r)
  round-Inv s ret r h v =
      let e = dispatch_front-Ends p qpi s.qp s.store ret h in
      let x = Keeps-Extends e.keeps in
      let (front, back) = subst (All (Queued Op s.store)) e.front v.queued in
      let rest =
        All-map (Queued Op s.store) (Queued Op r.store) e.rest (Queued-Extends x Op) back in
      let all : All (Queued Op r.store) (e.id ∷ e.rest) = (Queued-Extends x Op e.id front, rest) in
      let sound = front.1 e.assignment e.found in
      elim e.outcome [
        | ignored l q act ↦ absurd (omega (arith, sound.small))
        | waits l w q act ↦
            charged-Inv Op s r.qp r.store _ _ 0 x v
              (subst (λ k. All (Queued Op r.store) k.assign_queue) (sym q)
                (subst (All (Queued Op r.store)) (sym e.front) all))
              (omega (arith, ap (λ (k : Qp). k.outstanding_rdma_reads) q))
              (omega (arith, v.window, ap (λ (k : Qp). k.outstanding_rdma_reads) q))
              (rw act (Fair-none r.store 0 s.flights s.recvs s.recvs (omega arith)))
        | posts l w q what ↦
            charged-Inv Op s r.qp r.store _ _ e.assignment.batch_size x v
              (subst (λ k. All (Queued Op r.store) k.assign_queue) (sym q) rest)
              (omega
                (arith, ap (λ (k : Qp). k.outstanding_rdma_reads) q, charged s e.assignment l w v))
              (omega
                (arith, ap (λ (k : Qp). k.outstanding_rdma_reads) q, charged s e.assignment l w v))
              (Posts-Fair Op p qpi e.id e.assignment s.store r.store s.flights s.recvs ret r.action
                front e.found x what)
        | refuses n l w o q act ↦
            charged-Inv Op s r.qp r.store _ _ 0 x v
              (subst (λ k. All (Queued Op r.store) k.assign_queue) (sym q) rest)
              (omega (arith, ap (λ (k : Qp). k.outstanding_rdma_reads) q))
              (omega (arith, v.window, ap (λ (k : Qp). k.outstanding_rdma_reads) q))
              (rw act (Fair-none r.store 0 s.flights s.recvs s.recvs (omega arith)))
      ]
