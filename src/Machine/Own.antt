-- ===== src/Machine/Own.antt =====
-- A request under way knows the queue pair that it has been posted to: its completion gives the window
-- of that one back.
use dlslime.Prelude.{
  ℕ, zero, suc, ◌+◌, ◌<◌, ◌≡◌, ◌≢◌, sym, ap, subst, some, length, ok, ◌==◌, arith, Bool-cases, inl,
  inr,
}
use mathlib.Core.Option.{some-injective}
use dlslime.Assignment.{OpCode}
use dlslime.MemoryPool.{MemoryPool}
use dlslime.Store.{RdmaAssignment}
use dlslime.WorkRequest.{CallbackInfoWithQpi}
use dlslime.WorkRequest.Batch.{read_wrs-ok-AreReadsOf}
use dlslime.Dispatch.{Round, Action, dispatch_front}
use dlslime.Dispatch.Outcomes.{
  ignored, waits, posts, refuses, Posts, reads, sends, receives, dispatch_front-Ends,
}
use dlslime.System.{System, Flight, flights_after}
use dlslime.System.Inv.{All, All-append, Queued}
use dlslime.System.Hardware.{flights_of-AreReadsOf}
use dlslime.System.Rounds.{Inv}
use dlslime.Machine.{Lane, Machine, update}

-- The callbacks of the requests under way know their queue pair.
abbrev pub IsOwn : ℕ → Flight → Type 0
IsOwn k f = (c : CallbackInfoWithQpi) → f.wr_id ≡ some c → c.qpi ≡ k

module _ (Op : OpCode → Type 0) (p : MemoryPool) (k : ℕ) where
  Posts-IsOwn :
      (s : System) (a : RdmaAssignment) (id ret : ℕ) (act : Action)
      → All (IsOwn k) s.flights
      → (0 + length a.batch ≡ a.batch_size)
      → (0 < length a.batch)
      → Posts p k id a ret act
      → All (IsOwn k) (flights_after act s.flights)
  Posts-IsOwn s a id zero act own size some_work (reads wrs o runs e) =
      let c : CallbackInfoWithQpi = record { info = id; qpi = k } in
      rw
        (
          e,
          flights_of-AreReadsOf p a.batch_size c 0 a.batch wrs size some_work
              (read_wrs-ok-AreReadsOf p a.batch_size c 0 a.batch runs),
        )
        (All-append (IsOwn k) s.flights _ own
          ((λ c' m. ap (λ (x : CallbackInfoWithQpi). x.qpi) (sym (some-injective _ _ m))), tt))
  Posts-IsOwn s a id (suc n) act own size some_work (reads wrs o runs e) = rw e own
  Posts-IsOwn s a id zero act own size some_work (sends wr o unmarked signaled e) =
      rw (e, signaled, unmarked) (All-append (IsOwn k) s.flights _ own ((λ c m. cc), tt))
  Posts-IsOwn s a id (suc n) act own size some_work (sends wr o unmarked signaled e) = rw e own
  Posts-IsOwn s a id zero act own size some_work (receives wr o unmarked e) = rw e own
  Posts-IsOwn s a id (suc n) act own size some_work (receives wr o unmarked e) = rw e own

  pub round-IsOwn :
      (s : System) (ret : ℕ) (r : Round)
      → dispatch_front p k s.qp s.store ret ≡ ok r
      → Inv Op s
      → All (IsOwn k) s.flights
      → All (IsOwn k) (flights_after r.action s.flights)
  round-IsOwn s ret r h v own =
      let e = dispatch_front-Ends p k s.qp s.store ret h in
      let (front, back) = subst (All (Queued Op s.store)) e.front v.queued in
      let sound = front.1 e.assignment e.found in
      elim e.outcome [
        | ignored l q act ↦ rw act own
        | waits l w q act ↦ rw act own
        | posts l w q what ↦
            Posts-IsOwn s e.assignment e.id ret r.action own (omega (arith, sound.size))
              sound.some_work what
        | refuses n l w o q act ↦ rw act own
      ]

pub update_self : (lanes : ℕ → Lane) (k : ℕ) (l : Lane) → update lanes k l k ≡ l
update_self lanes k l = ground arith

pub update_other : (lanes : ℕ → Lane) (j k : ℕ) (l : Lane) → j ≢ k → update lanes j l k ≡ lanes k
update_other lanes j k l other = ground arith

-- In every lane.
abbrev pub Owned : Machine → Type 0
Owned m = (k : ℕ) → All (IsOwn k) (m.lanes k).flights

pub Owned-update :
    (lanes : ℕ → Lane) (j : ℕ) (l : Lane)
    → ((k : ℕ) → All (IsOwn k) (lanes k).flights)
    → All (IsOwn j) l.flights
    → (k : ℕ) → All (IsOwn k) (update lanes j l k).flights
Owned-update lanes j l all own k = elim (Bool-cases (j == k)) [
  | inl hit ↦
      let e : j ≡ k = ground arith in
      subst (λ i. All (IsOwn i) (update lanes j l i).flights) e (rw (update_self lanes j l) own)
  | inr miss ↦ rw miss (all k)
]
