-- ===== src/Dispatch/Wakeup/Stop.antt =====
-- `RDMAContext::stop_future` of csrc/engine/rdma/rdma_context.cpp against the wait of a dispatching
-- thread: the flag is set and the thread is notified without the lock of the queue.
use dlslime.Prelude.{ℕ, ◌≡◌, refl, ◌∙◌, ◌⊎◌, inl, inr, Bool, true, false, [], arith}
use dlslime.MemoryPool.{MemoryPool}
use dlslime.Dispatch.Wakeup.{Worker, has_work, workers, returns}
use dlslime.Monitor.{
  away, entering, testing, parked, notified, unlocked, locked, Monitor, MonitorStep, arrives, locks,
  passes, fails, parks, wakes_up, works, leaves, takes, changes, tells, unlocks, meanwhile,
  new_monitor,
}

-- The thread in `stop_future`, for one queue pair whose future is valid: before it, after the flag is
-- set, after `notify_one`, in `wq_future_.get()`, and behind it.
pub data Stopper : Type 0 where
  idle : Stopper
  flagged : Stopper
  joining : Stopper
  joined : Stopper

pub record Stopping : Type 0 where
  pub monitor : Monitor Worker
  pub stopper : Stopper

abbrev pub with_flag : Worker → Worker
with_flag w = record w {
  shared = record (w.shared) { qp = record (w.qp) { stop_wq_future = true } };
}

abbrev pub flag_of : Stopping → Bool
flag_of s = s.monitor.shared.qp.stop_wq_future

module _ (p : MemoryPool) (qpi : ℕ) (clients spurious : Type 0) where
  pub data StopStep (s : Stopping) : Stopping → Type 0 where
    acts :
        {m : Monitor Worker}
        → MonitorStep (workers p qpi clients spurious) s.monitor m
        → StopStep s (record s { monitor = m })
    sets_flag :
        s.stopper ≡ idle
        → flag_of s ≡ false
        → StopStep s (record s {
          monitor = record (s.monitor) { shared = with_flag s.monitor.shared };
          stopper = flagged;
        })
    notifies :
        s.stopper ≡ flagged
        → StopStep s (record s {
          monitor = record (s.monitor) { waiter = notified s.monitor.waiter };
          stopper = joining;
        })
    -- The thread is at the head of its outer loop or behind it, and sees the flag.
    joins :
        s.stopper ≡ joining
        → s.monitor.waiter ≡ away
        → flag_of s ≡ true
        → StopStep s (record s { stopper = joined })

  pub data StopReach (s : Stopping) : Stopping → Type 0 where
    here : StopReach s s
    next : {t u : Stopping} → StopReach s t → StopStep t u → StopReach s u

has_work_flag : (w : Worker) → w.qp.stop_wq_future ≡ true → has_work w ≡ true
has_work_flag w h = ground arith

-- A thread with nothing to do, and nobody that stops it yet.
abbrev pub new_stopping : Worker → Stopping
new_stopping w = record { monitor = new_monitor w; stopper = idle }

-- The thread waits for ever, and so does who stops it.
pub record Stuck (s : Stopping) : Type 0 where
  pub waiter : s.monitor.waiter ≡ parked
  pub stopper : s.stopper ≡ joining
  pub flag : flag_of s ≡ true
  pub nobody : (s.monitor.holder ≡ unlocked) ⊎ (s.monitor.holder ≡ locked)

module _ (p : MemoryPool) (qpi : ℕ) where
  Step-Stuck : {s t : Stopping} → StopStep p qpi ⊥ ⊥ s t → Stuck s → Stuck t
  Step-Stuck (acts (arrives w a)) v = absurd (cc (v.waiter))
  Step-Stuck (acts (locks w f)) v = absurd (cc (v.waiter))
  Step-Stuck (acts (passes w h)) v = absurd (cc (v.waiter))
  Step-Stuck (acts (fails w h)) v = absurd (cc (v.waiter))
  Step-Stuck (acts (parks w)) v = absurd (cc (v.waiter))
  Step-Stuck (acts (wakes_up none w)) v = absurd none
  Step-Stuck (acts (works w' w x)) v = absurd (cc (v.waiter))
  Step-Stuck (acts (leaves w' w x)) v = absurd (cc (v.waiter))
  Step-Stuck (acts (takes f w)) v = record {
    waiter = v.waiter;
    stopper = v.stopper;
    flag = v.flag;
    nobody = inr refl;
  }
  Step-Stuck (acts (changes w' l (none, x))) v = absurd none
  Step-Stuck (acts (tells c)) v = elim (v.nobody) [ inl e ↦ absurd (cc) | inr e ↦ absurd (cc) ]
  Step-Stuck (acts (unlocks l)) v = elim (v.nobody) [ inl e ↦ absurd (cc) | inr e ↦ absurd (cc) ]
  Step-Stuck (acts (meanwhile w' x)) v = record {
    waiter = v.waiter;
    stopper = v.stopper;
    flag = x.flag ∙ v.flag;
    nobody = v.nobody;
  }
  Step-Stuck (sets_flag i f) v = absurd (cc (v.stopper))
  Step-Stuck (notifies f) v = absurd (cc (v.stopper))
  Step-Stuck (joins j w f) v = absurd (cc (v.waiter))

  Reach-Stuck : {s t : Stopping} → Stuck s → StopReach p qpi ⊥ ⊥ s t → Stuck t
  Reach-Stuck v here = v
  Reach-Stuck v (next r st) = Step-Stuck st (Reach-Stuck v r)

  -- `stop_future` can wait for ever: on a queue pair whose thread has no work, there is a run of the
  -- thread and of `stop_future` that comes to a state in which the flag is set and the notification has
  -- been given, but the thread is in its wait and `stop_future` waits for it; and in whatever state the
  -- queue pair is from then on, they still are, unless a client submits again or the wait ends without
  -- a notification.
  pub stop_future-Stuck :
      (w : Worker)
      → w.qp.assign_queue ≡ []
      → w.qp.stop_wq_future ≡ false
      → (s : Stopping) × StopReach p qpi ⊥ ⊥ (new_stopping w) s
        × ((t : Stopping) → StopReach p qpi ⊥ ⊥ s t → Stuck t)
  stop_future-Stuck w queue flag =
      let idle_work : has_work w ≡ false = rw (queue, flag) refl in
      let r₁ = next here (acts (arrives refl flag)) in
      let r₂ = next r₁ (acts (locks refl refl)) in
      let r₃ = next r₂ (acts (fails refl idle_work)) in
      let r₄ = next r₃ (sets_flag refl flag) in
      let r₅ = next r₄ (notifies refl) in
      let r₆ = next r₅ (acts (parks refl)) in
      (
        _,
        r₆,
        λ t r.
            Reach-Stuck (record { waiter = refl; stopper = refl; flag = refl; nobody = inl refl })
              r,
      )

  -- Once the flag is set and the notification has been given, `stop_future` comes to its end, whatever
  -- stands in the queue, if nobody has the lock of the queue or the thread has it and is about to test
  -- its predicate, and if the thread is not in its wait: it is elsewhere outside of the inner loop.
  stop_future-joins :
      (clients spurious : Type 0) (s : Stopping)
      → s.stopper ≡ joining
      → flag_of s ≡ true
      → s.monitor.shared.draining ≡ false
      → s.monitor.holder ≡ unlocked
      → (s.monitor.waiter ≡ away) ⊎ ((s.monitor.waiter ≡ entering) ⊎ (s.monitor.waiter ≡ testing))
      → (t : Stopping) × StopReach p qpi clients spurious s t
        × (t.stopper ≡ joined)
        × (t.monitor.shared ≡ s.monitor.shared)
  stop_future-joins clients spurious s j f d free (inl gone) =
      (_, next here (joins j gone f), refl, refl)
  stop_future-joins clients spurious s j f d free (inr (inr w)) =
      let r₁ = next here (acts (passes w (has_work_flag s.monitor.shared f))) in
      let r₂ = next r₁ (acts (leaves s.monitor.shared refl (returns d f))) in
      (_, next r₂ (joins j refl f), refl, refl)
  stop_future-joins clients spurious s j f d free (inr (inl w)) =
      let r₁ = next here (acts (locks w free)) in
      let r₂ = next r₁ (acts (passes refl (has_work_flag s.monitor.shared f))) in
      let r₃ = next r₂ (acts (leaves s.monitor.shared refl (returns d f))) in
      (_, next r₃ (joins j refl f), refl, refl)
