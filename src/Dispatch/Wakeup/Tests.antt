-- ===== src/Dispatch/Wakeup/Tests.antt =====
-- A dispatching thread that waits while two reads are submitted, and one that misses its stop.
use dlslime.Prelude.{◌≡◌, ◌≢◌, refl, true, false, none, [], ◌∷◌}
use dlslime.Assignment.{read}
use dlslime.Store.{empty_store, make_shared, acquire, release, put, cell}
use dlslime.Context.Submit.{split_from, split, enqueue}
use dlslime.Dispatch.Wakeup.{Worker, submits, submitted, workers, submission-noticed}
use dlslime.Dispatch.Wakeup.Stop.{
  Stopping, StopReach, Stuck, acts, sets_flag, notifies, new_stopping, joining, joined,
  stop_future-Stuck,
}
use dlslime.Dispatch.Wakeup.Stop
use dlslime.Dispatch.Wakeup.Guards.{Reach-guards}
use dlslime.Monitor.{
  Monitor, MonitorReach, here, next, new_monitor, parked, passed, locked, changed, unlocked,
  arrives, locks, passes, fails, parks, takes, changes, tells, unlocks,
}
use dlslime.Samples.{pool, qp, first, second}

abbrev idle_worker : Worker
idle_worker = record { shared = record { qp = qp; store = empty_store }; draining = false }

abbrev busy_worker : Worker
busy_worker = submitted pool 0 idle_worker read (first ∷ second ∷ []) none

-- The submission has been made, and the thread has not been notified yet.
abbrev about_to_tell : Monitor Worker
about_to_tell = record { shared = busy_worker; waiter = parked; holder = changed }

reach-about_to_tell :
    MonitorReach (workers pool 0 (Unit {0}) ⊥) (new_monitor idle_worker) about_to_tell
reach-about_to_tell =
    next
      (next
        (next (next (next (next here (arrives refl refl)) (locks refl refl)) (fails refl refl))
          (parks refl))
        (takes refl refl))
      (changes busy_worker refl (tt, submits read (first ∷ second ∷ []) none))

busy : busy_worker.qp.assign_queue ≢ []
unfolding split_from split enqueue make_shared acquire release put cell
busy e = cc

submission-noticed_example :
    (about_to_tell.waiter ≡ parked → about_to_tell.holder ≡ changed)
    × (about_to_tell.holder ≢ locked
        → (n : Monitor Worker) × MonitorReach (workers pool 0 (Unit {0}) ⊥) about_to_tell n
          × (n.waiter ≡ passed)
          × (n.shared ≡ busy_worker))
submission-noticed_example =
    submission-noticed pool 0 (Unit {0}) ⊥ idle_worker about_to_tell reach-about_to_tell busy refl

stop_future-Stuck_example :
    (s : Stopping) × StopReach pool 0 ⊥ ⊥ (new_stopping idle_worker) s
    × ((t : Stopping) → StopReach pool 0 ⊥ ⊥ s t → Stuck t)
stop_future-Stuck_example = stop_future-Stuck pool 0 idle_worker refl refl

-- A submission that the thread has found.
abbrev found_work : Stopping
found_work = record {
  monitor = record { shared = busy_worker; waiter = passed; holder = unlocked };
  stopper = Stop.idle;
}

reach-found_work : StopReach pool 0 (Unit {0}) ⊥ (new_stopping idle_worker) found_work
unfolding split_from split enqueue make_shared acquire release put cell
reach-found_work =
    let r₁ = Stop.next Stop.here (acts (takes refl refl)) in
    let r₂ =
      Stop.next r₁
        (acts (changes busy_worker refl (tt, submits read (first ∷ second ∷ []) none))) in
    let r₃ = Stop.next r₂ (acts (tells refl)) in
    let r₄ = Stop.next r₃ (acts (unlocks refl)) in
    let r₅ = Stop.next r₄ (acts (arrives refl refl)) in
    let r₆ = Stop.next r₅ (acts (locks refl refl)) in Stop.next r₆ (acts (passes refl refl))

Reach-guards_example :
    (found_work.monitor.waiter ≡ passed
      → found_work.monitor.shared.draining ≡ false
      → Stop.flag_of found_work ≡ false
      → found_work.monitor.shared.qp.assign_queue ≢ [])
    × (found_work.monitor.shared.draining ≡ true
        → (found_work.monitor.waiter ≡ passed) × (found_work.monitor.holder ≡ unlocked))
Reach-guards_example = Reach-guards pool 0 (Unit {0}) ⊥ idle_worker found_work refl reach-found_work
