-- ===== src/Dispatch/Wakeup/Guards.antt =====
-- What the lock of the queue guards: the conditions under which the model of a queue pair as a whole
-- lets the dispatching thread go into its inner loop and a client submit.
use dlslime.Prelude.{ℕ, ◌≡◌, ◌≢◌, refl, sym, ap, ◌∙◌, true, false, []}
use dlslime.MemoryPool.{MemoryPool}
use dlslime.Dispatch.Wakeup.{Worker, has_work, submits, begins, rounds, returns, drained}
use dlslime.Dispatch.Wakeup.Stop.{
  Stopping, StopStep, StopReach, acts, sets_flag, notifies, joins, here, next, new_stopping,
  flag_of,
}
use dlslime.Monitor.{
  Waiter, away, entering, testing, parking, parked, passed, has_lock, notified, unlocked, arrives,
  locks, passes, fails, parks, wakes_up, works, leaves, takes, changes, tells, unlocks, meanwhile,
}
use dlslime.Monitor.Sound.{has_lock-notified}

pub record Guarded (s : Stopping) : Type 0 where
  pub exclusive : has_lock s.monitor.waiter ≡ true → s.monitor.holder ≡ unlocked
  pub inside : s.monitor.shared.draining ≡ true → s.monitor.waiter ≡ passed
  pub work :
      s.monitor.waiter ≡ passed
      → s.monitor.shared.draining ≡ false
      → flag_of s ≡ false
      → s.monitor.shared.qp.assign_queue ≢ []

has_work_queue :
    (w : Worker) → has_work w ≡ true → w.qp.stop_wq_future ≡ false → w.qp.assign_queue ≢ []
has_work_queue w h f e = cc

passed-notified : (w : Waiter) → notified w ≡ passed → w ≡ passed
passed-notified away h = h
passed-notified entering h = h
passed-notified testing h = h
passed-notified parking h = h
passed-notified parked h = cc
passed-notified passed h = h

module _ (p : MemoryPool) (qpi : ℕ) (clients spurious : Type 0) where
  Step-Guarded : {s t : Stopping} → StopStep p qpi clients spurious s t → Guarded s → Guarded t
  Step-Guarded (acts (arrives w a)) v = record {
    exclusive = λ h. cc;
    inside = λ h. cc (v.inside h);
    work = λ h d f. cc;
  }
  Step-Guarded (acts (locks w f)) v = record {
    exclusive = λ h. f;
    inside = λ h. cc (v.inside h);
    work = λ h d f. cc;
  }
  Step-Guarded {s} (acts (passes w h)) v = record {
    exclusive = λ k. v.exclusive (rw w refl);
    inside = λ k. refl;
    work = λ k d f. has_work_queue s.monitor.shared h f;
  }
  Step-Guarded (acts (fails w h)) v = record {
    exclusive = λ k. v.exclusive (rw w refl);
    inside = λ k. cc (v.inside k);
    work = λ k d f. cc;
  }
  Step-Guarded (acts (parks w)) v = record {
    exclusive = λ h. cc;
    inside = λ h. cc (v.inside h);
    work = λ h d f. cc;
  }
  Step-Guarded (acts (wakes_up some_time w)) v = record {
    exclusive = λ h. cc;
    inside = λ h. cc (v.inside h);
    work = λ h d f. cc;
  }
  Step-Guarded (acts (works w' w (begins d f))) v = record {
    exclusive = v.exclusive;
    inside = λ h. w;
    work = λ h k f. cc;
  }
  Step-Guarded (acts (works w' w (rounds ret r d q h))) v = record {
    exclusive = v.exclusive;
    inside = λ k. w;
    work = λ k e f. cc;
  }
  Step-Guarded (acts (leaves w' w (returns d f))) v = record {
    exclusive = λ h. cc;
    inside = λ h. cc;
    work = λ h k f. cc;
  }
  Step-Guarded (acts (leaves w' w (drained d q))) v = record {
    exclusive = λ h. cc;
    inside = λ h. cc;
    work = λ h k f. cc;
  }
  Step-Guarded (acts (takes f w)) v = record {
    exclusive = λ h. cc;
    inside = v.inside;
    work = v.work;
  }
  Step-Guarded (acts (changes w' l (able, submits opcode batch callback))) v = record {
    exclusive = λ h. cc (v.exclusive h);
    inside = v.inside;
    work = λ h d f. absurd (cc (v.exclusive (ap has_lock h)));
  }
  Step-Guarded {s} (acts (tells c)) v = record {
    exclusive = λ h. cc (v.exclusive (sym (has_lock-notified s.monitor.waiter) ∙ h));
    inside = λ h. ap notified (v.inside h);
    work = λ h d f.
        absurd (cc (v.exclusive (sym (has_lock-notified s.monitor.waiter) ∙ ap has_lock h)));
  }
  Step-Guarded (acts (unlocks l)) v = record {
    exclusive = λ h. refl;
    inside = v.inside;
    work = v.work;
  }
  Step-Guarded (acts (meanwhile w' x)) v = record {
    exclusive = v.exclusive;
    inside = λ h. v.inside (sym x.place ∙ h);
    work = λ h d f e. v.work h (sym x.place ∙ d) (sym x.flag ∙ f) (sym x.queue ∙ e);
  }
  Step-Guarded (sets_flag i f) v = record {
    exclusive = v.exclusive;
    inside = v.inside;
    work = λ h d f. cc;
  }
  Step-Guarded {s} (notifies f) v = record {
    exclusive = λ h. v.exclusive (sym (has_lock-notified s.monitor.waiter) ∙ h);
    inside = λ h. ap notified (v.inside h);
    work = λ h. v.work (passed-notified s.monitor.waiter h);
  }
  Step-Guarded (joins j w f) v = record {
    exclusive = v.exclusive;
    inside = v.inside;
    work = v.work;
  }

  Reach-Guarded : {s t : Stopping} → Guarded s → StopReach p qpi clients spurious s t → Guarded t
  Reach-Guarded v here = v
  Reach-Guarded v (next r st) = Step-Guarded st (Reach-Guarded v r)

  -- However the thread, those who submit and `stop_future` are interleaved: where the thread goes into
  -- its inner loop, which it does behind its wait while the flag is not set, the queue is not empty; it
  -- is in the inner loop only with the lock of the queue; and nobody else has the lock then, so that
  -- nobody submits.
  pub Reach-guards :
      (w : Worker) (s : Stopping)
      → w.draining ≡ false
      → StopReach p qpi clients spurious (new_stopping w) s
      → (s.monitor.waiter ≡ passed
          → s.monitor.shared.draining ≡ false
          → flag_of s ≡ false
          → s.monitor.shared.qp.assign_queue ≢ [])
        × (s.monitor.shared.draining ≡ true
            → (s.monitor.waiter ≡ passed) × (s.monitor.holder ≡ unlocked))
  Reach-guards w s outside r =
      let v =
        Reach-Guarded
          (record { exclusive = λ h. cc; inside = λ h. cc (h, outside); work = λ h d f. cc }) r in
      (v.work, λ h. (v.inside h, v.exclusive (ap has_lock (v.inside h))))
