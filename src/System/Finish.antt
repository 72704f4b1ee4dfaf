-- ===== src/System/Finish.antt =====
-- The threads and the hardware can always finish what has been submitted.
use dlslime.Prelude.{
  ℕ, ◌≡◌, ◌≢◌, refl, sym, ap, subst, ◌∙◌, true, false, List, [], ◌∷◌, ◌++◌, length, append-nil, ok,
}
use native.Mathlib.Nat.{zero-add}
use dlslime.Assignment.{OpCode}
use dlslime.MemoryPool.{MemoryPool}
use dlslime.Store.{query}
use dlslime.Store.Calls.{invoke-Same}
use dlslime.Context.{Qp}
use dlslime.WorkRequest.{CallbackInfoWithQpi}
use dlslime.Dispatch.Forward.{after_pop, dispatch_front-read}
use dlslime.Dispatch.Thread.Drain.{Holds, cell-after_pop_other}
use dlslime.Completion.Single.{complete-here, refund_lem}
use dlslime.System.{
  System, Flight, Phase, waiting, draining, ended, Reach, here, next, IsInitial, Step, submits,
  wakes, stops, dispatches, drains, asks_to_stop, completes, completes_silently, elsewhere,
}
use dlslime.System
use dlslime.System.Inv.{All, All-map}
use dlslime.System.Hardware.{flights_of-AreReadsOf}
use dlslime.System.Order.{
  OnlyReads, Accepted, Exact, IsInitial-Exact, Reach-Exact, Step-Exact, in_flight,
}
use dlslime.System.Progress.{Exact-IsReady}
use dlslime.System.Distinct.{Distinct, Distinct-front, Distinct-back}
use dlslime.System.Fresh.{Reach-Distinct}
use dlslime.System.Delivers.{
  Waited, Delivers, Delivers-none, Delivers-one, Delivers-append, find-after_pop,
}
use dlslime.System.Alive.{Alive, Alive-Same, AllAlive-kept, Alive-after_pop}

nonempty : {queue : List ℕ} (id : ℕ) (rest : List ℕ) → queue ≡ id ∷ rest → queue ≢ []
nonempty id rest front none_left = cc

-- No submission is made.
abbrev pub Nothing : OpCode → Type 0
Nothing o = ⊥

module _ (p : MemoryPool) (qpi : ℕ) (t0 : System) where
  still : {s t : System} → Step p qpi Nothing Accepted s t → Step p qpi OnlyReads Accepted s t
  still (submits opcode batch callback none free) = absurd none
  still (wakes w e f) = wakes w e f
  still (stops w f) = stops w f
  still (dispatches ret r a d e h) = dispatches ret r a d e h
  still (drains d e) = drains d e
  still asks_to_stop = asks_to_stop
  still (completes c slots rest succeeded store n e h) =
      completes c slots rest succeeded store n e h
  still (completes_silently slots rest e) = completes_silently slots rest e
  still (System.receives n e) = System.receives n e
  still (elsewhere store x) = elsewhere store x

  abbrev Run : System → Type 0
  Run = Reach p qpi Nothing Accepted t0

  -- A system that the threads and the hardware have come to from `t`, without requests under way.
  record Idle (t u : System) : Type 0 where
    run : Run u
    exact : Exact u
    flights : u.flights ≡ []
    queue : u.qp.assign_queue ≡ t.qp.assign_queue
    phase : u.phase ≡ t.phase
    submitted : u.submitted ≡ t.submitted
    alive : All (Alive p u.store 2) t.qp.assign_queue
    delivers : Delivers t.store u.store (in_flight t.flights)

  flush :
      (fs : List Flight) (t : System)
      → Run t
      → Exact t
      → t.flights ≡ fs
      → All (Alive p t.store 1) (in_flight fs)
      → All (Alive p t.store 2) t.qp.assign_queue
      → Distinct (in_flight fs)
      → (u : System) × Idle t u
  flush [] t r v e flying queued apart = (
    t,
    record {
      run = r;
      exact = v;
      flights = e;
      queue = refl;
      phase = refl;
      submitted = refl;
      alive = queued;
      delivers = rw e (Delivers-none t.store t.store (λ id. refl));
    },
  )
  flush (f ∷ fs) t r v e flying queued apart =
      let ((c, mark), others) = subst (All _) e v.marked in
      let (first, rest) = rw mark at flying in
      let (alone, others_apart) = rw mark at apart in
      let under_way : in_flight t.flights ≡ c.info ∷ in_flight fs =
        ap in_flight e ∙ ap (λ w. in_flight (record { wr_id = w; slots = f.slots } ∷ fs)) mark in
      let (store, done, called) =
        complete-here t.store c.info true first.held first.here first.opcode in
      let lives : (n id : ℕ) → Alive p t.store n id → Alive p store n id = λ n id h.
        let (d, there, same) =
          invoke-Same t.store store c.info _ first.held id h.held first.here called h.here in
        Alive-Same p t.store store n id h d there same in
      let step =
        completes c f.slots fs true store _
          (e ∙ ap (λ w. record { wr_id = w; slots = f.slots } ∷ fs) mark) done in
      let queue = ap (λ (k : Qp). k.assign_queue) (refund_lem t.qp _) in
      let waits = All-map _ _ t.qp.assign_queue (lives 2) queued in
      let (u, i) =
        flush fs _ (next r step) (Step-Exact p qpi (still step) v) refl
          (All-map _ _ (in_flight fs) (lives 1) rest)
          (subst (All (Alive p store 2)) (sym queue) waits) others_apart in
      (
        u,
        record {
          run = i.run;
          exact = i.exact;
          flights = i.flights;
          queue = i.queue ∙ queue;
          phase = i.phase;
          submitted = i.submitted;
          alive = subst (All (Alive p u.store 2)) queue i.alive;
          delivers = subst (Delivers t.store u.store) (sym under_way) (
              Delivers-append t.store store u.store (c.info ∷ []) (in_flight fs)
                (alone, others_apart) (Delivers-one t.store store c.info _ called) i.delivers);
        },
      )

  -- Nothing waits and nothing is under way, and all that was is delivered.
  record Served (t u : System) : Type 0 where
    run : Run u
    exact : Exact u
    flights : u.flights ≡ []
    queue : u.qp.assign_queue ≡ []
    submitted : u.submitted ≡ t.submitted
    delivers : Delivers t.store u.store (in_flight t.flights ++ t.qp.assign_queue)

  flush_all :
      (t : System)
      → Run t
      → Exact t
      → t.qp.assign_queue ≡ []
      → All (Alive p t.store 1) (in_flight t.flights)
      → Distinct (in_flight t.flights)
      → (u : System) × Served t u
  flush_all t r v front flying apart =
      let (u, i) = flush t.flights t r v refl flying (rw front tt) apart in
      (
        u,
        record {
          run = i.run;
          exact = i.exact;
          flights = i.flights;
          queue = i.queue ∙ front;
          submitted = i.submitted;
          delivers = rw (front, append-nil (in_flight t.flights)) i.delivers;
        },
      )

  -- A round hands the front to the hardware, if nothing is under way.
  record Dispatched (t : System) (id : ℕ) (rest : List ℕ) (u : System) : Type 0 where
    run : Run u
    exact : Exact u
    phase : u.phase ≡ draining
    queue : u.qp.assign_queue ≡ rest
    submitted : u.submitted ≡ t.submitted
    flights : in_flight u.flights ≡ id ∷ []
    flying : Alive p u.store 1 id
    delivers : Delivers t.store u.store []
    alive : All (Alive p u.store 2) rest

  dispatch_one :
      (id : ℕ) (rest : List ℕ) (t : System)
      → Run t
      → Exact t
      → t.phase ≡ draining
      → t.flights ≡ []
      → t.qp.assign_queue ≡ id ∷ rest
      → All (Alive p t.store 2) (id ∷ rest)
      → ¬ (Holds id rest)
      → (u : System) × Dispatched t id rest u
  dispatch_one id rest t r v loop idle front (first, others) apart =
      let ready = Exact-IsReady p qpi t id rest first.held v idle front first.here first.known in
      let (wrs, run, reads) = dispatch_front-read p qpi t.qp t.store 0 id rest first.held ready in
      let c : CallbackInfoWithQpi = record { info = id; qpi = qpi } in
      let step = dispatches 0 _ refl loop (nonempty id rest front) run in
      let one =
        flights_of-AreReadsOf p (length first.held.object.batch) c 0 first.held.object.batch wrs
          (zero-add _) ready.some_work reads in
      (
        _,
        record {
          run = next r step;
          exact = Step-Exact p qpi (still step) v;
          phase = loop;
          queue = refl;
          submitted = refl;
          flights = rw (idle, one) refl;
          flying = Alive-after_pop p t.store id first;
          delivers =
              Delivers-none t.store (after_pop t.store id)
                (λ j. find-after_pop p t.store id j first);
          alive =
              AllAlive-kept p t.store (after_pop t.store id) 2 rest
                (λ j k.
                  cell-after_pop_other t.store id j
                    (λ e. apart (subst (λ x. Holds x rest) (sym e) k)))
                others;
        },
      )

  -- The inner loop, with all completions before each of its rounds.
  serve :
      (ids : List ℕ) (t : System)
      → Run t
      → Exact t
      → t.phase ≡ draining
      → t.qp.assign_queue ≡ ids
      → All (Alive p t.store 1) (in_flight t.flights)
      → All (Alive p t.store 2) ids
      → Distinct (in_flight t.flights ++ ids)
      → (u : System) × Served t u
  serve [] t r v loop front flying queued apart =
      flush_all t r v front flying (Distinct-front (in_flight t.flights) [] apart)
  serve (id ∷ rest) t r v loop front flying queued apart =
      let fs = in_flight t.flights in
      let (alone, others) = Distinct-back fs (id ∷ rest) apart in
      let (u, i) =
        flush t.flights t r v refl flying (subst (All (Alive p t.store 2)) (sym front) queued)
          (Distinct-front fs (id ∷ rest) apart) in
      let (w, d) =
        dispatch_one id rest u i.run i.exact (i.phase ∙ loop) i.flights (i.queue ∙ front)
          (subst (All (Alive p u.store 2)) front i.alive) alone in
      let (x, done) =
        serve rest w d.run d.exact d.phase d.queue (rw (d.flights) (d.flying, tt)) d.alive
          (rw (d.flights) (alone, others)) in
      let last : Delivers w.store x.store (id ∷ rest) =
        subst (Delivers w.store x.store) (λ k. d.flights k ++ d.queue k) done.delivers in
      (
        x,
        record {
          run = done.run;
          exact = done.exact;
          flights = done.flights;
          queue = done.queue;
          submitted = done.submitted ∙ d.submitted ∙ i.submitted;
          delivers =
              subst (λ l. Delivers t.store x.store (fs ++ l)) (sym front)
                (Delivers-append t.store u.store x.store fs (id ∷ rest) apart i.delivers (
                  Delivers-append u.store w.store x.store [] (id ∷ rest) (alone, others) d.delivers
                    last));
        },
      )

  -- The thread goes into the inner loop, if there is work.
  wake :
      (ids : List ℕ) (phase : Phase) (t : System)
      → Run t
      → Exact t
      → t.phase ≡ phase
      → phase ≢ ended
      → t.qp.stop_wq_future ≡ false
      → t.qp.assign_queue ≡ ids
      → All (Alive p t.store 1) (in_flight t.flights)
      → All (Alive p t.store 2) ids
      → Distinct (in_flight t.flights ++ ids)
      → (u : System) × Served t u
  wake ids ended t r v at lives_on going front flying queued apart = absurd (lives_on refl)
  wake ids draining t r v at lives_on going front flying queued apart =
      serve ids t r v at front flying queued apart
  wake [] waiting t r v at lives_on going front flying queued apart =
      flush_all t r v front flying (Distinct-front (in_flight t.flights) [] apart)
  wake (id ∷ rest) waiting t r v at lives_on going front flying queued apart =
      let step = wakes at (nonempty id rest front) going in
      let (u, done) =
        serve (id ∷ rest) (record t { phase = draining }) (next r step)
          (Step-Exact p qpi (still step) v) refl front flying queued apart in
      (
        u,
        record {
          run = done.run;
          exact = done.exact;
          flights = done.flights;
          queue = done.queue;
          submitted = done.submitted;
          delivers = done.delivers;
        },
      )

module _ (p : MemoryPool) (qpi : ℕ) where
  -- Nothing waits for ever for want of room: on a queue pair that carries accepted reads only, however
  -- the client, the threads and the hardware have been interleaved so far, there is a way to go on
  -- without another submission, after which the callbacks of all that has been submitted have been
  -- called, in the order of submission, and nothing is left in the queue or under way; and each
  -- assignment that had not been finished before, has the default callback and has been called fewer
  -- than 2^31 - 1 times is finished for those who `wait` for it. The dispatching thread is supposed
  -- neither to have ended nor to be asked to, the assignments that wait to have registered keys and to
  -- be held by another beside the queue, and those under way to be there still.
  pub Reach-finishes :
      (s t : System)
      → IsInitial s
      → Reach p qpi OnlyReads Accepted s t
      → t.phase ≢ ended
      → t.qp.stop_wq_future ≡ false
      → All (Alive p t.store 1) (in_flight t.flights)
      → All (Alive p t.store 2) t.qp.assign_queue
      → (u : System) × Reach p qpi Nothing Accepted t u
        × (u.submitted ≡ t.submitted)
        × (u.finished ≡ t.submitted)
        × (u.flights ≡ [])
        × (u.qp.assign_queue ≡ [])
        × ((id : ℕ)
            → Holds id (in_flight t.flights ++ t.qp.assign_queue)
            → Waited t.store id
            → query u.store id ≡ ok true)
  Reach-finishes s t i r lives_on going flying queued =
      let v = Reach-Exact p qpi (IsInitial-Exact s i) r in
      let distinct = subst Distinct v.history (Reach-Distinct p qpi OnlyReads Accepted s t i r) in
      let (u, done) =
        wake p qpi t t.qp.assign_queue t.phase t here v refl lives_on going refl flying queued
          (Distinct-back t.finished _ distinct) in
      let all : u.submitted ≡ u.finished =
        done.exact.history
        ∙ ap (λ l. u.finished ++ l)
            (ap (λ fs. in_flight fs ++ u.qp.assign_queue) done.flights ∙ done.queue)
        ∙ append-nil u.finished in
      (
        u,
        done.run,
        done.submitted,
        sym all ∙ done.submitted,
        done.flights,
        done.queue,
        done.delivers.told,
      )
