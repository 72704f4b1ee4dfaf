-- ===== src/Monitor.antt =====
-- A `std::mutex` with a `std::condition_variable` of the language's library, as `callback_info` in
-- csrc/engine/rdma/rdma_assignment.h and `qp_management` in csrc/engine/rdma/rdma_context.h have them: one
-- thread waits until a predicate holds, and others change what the predicate reads.
pub mod Sound
use dlslime.Prelude.{◌≡◌, Bool, true, false}

-- The thread that calls `wait(lock, predicate)`: elsewhere, before it has the lock, with the lock and
-- about to test the predicate, with the lock after a test that failed, in the wait, which gives the lock
-- back, and with the lock after the wait.
pub data Waiter : Type 0 where
  away : Waiter
  entering : Waiter
  testing : Waiter
  parking : Waiter
  parked : Waiter
  passed : Waiter

abbrev pub has_lock : Waiter → Bool
has_lock away = false
has_lock entering = false
has_lock testing = true
has_lock parking = true
has_lock parked = false
has_lock passed = true

-- `notify_one`, for the only thread that waits.
abbrev pub notified : Waiter → Waiter
notified away = away
notified entering = entering
notified testing = testing
notified parking = parking
notified parked = entering
notified passed = passed

-- The other threads that use the lock, of which one at most has it: before its change, after it, and
-- after `notify_one`.
pub data Holder : Type 0 where
  unlocked : Holder
  locked : Holder
  changed : Holder
  told : Holder

pub record Monitor (S : Type 0) : Type 0 where
  pub shared : S
  pub waiter : Waiter
  pub holder : Holder

-- What the threads do to the shared state: `arrive` says when the waiting thread comes to its wait,
-- `work` what it does with the lock after the wait and `leave` how it gives the lock back; `change` is
-- made by another thread with the lock, and `quiet` by any thread without it.
pub record Threads (S : Type 0) : Type 1 where
  pub ready : S → Bool
  pub arrive : S → Type 0
  pub work : S → S → Type 0
  pub leave : S → S → Type 0
  pub change : S → S → Type 0
  pub quiet : S → S → Type 0
  pub spurious : Type 0

module _ {S : Type 0} (t : Threads S) where
  pub data MonitorStep (m : Monitor S) : Monitor S → Type 0 where
    arrives : m.waiter ≡ away → t.arrive m.shared → MonitorStep m (record m { waiter = entering })
    locks :
        m.waiter ≡ entering → m.holder ≡ unlocked → MonitorStep m (record m { waiter = testing })
    passes :
        m.waiter ≡ testing → t.ready m.shared ≡ true → MonitorStep m (record m { waiter = passed })
    fails :
        m.waiter ≡ testing
        → t.ready m.shared ≡ false
        → MonitorStep m (record m { waiter = parking })
    parks : m.waiter ≡ parking → MonitorStep m (record m { waiter = parked })
    -- A wait may end without a notification; the predicate is then tested again.
    wakes_up : t.spurious → m.waiter ≡ parked → MonitorStep m (record m { waiter = entering })
    works :
        (s : S) → m.waiter ≡ passed → t.work m.shared s → MonitorStep m (record m { shared = s })
    leaves :
        (s : S)
        → m.waiter ≡ passed
        → t.leave m.shared s
        → MonitorStep m (record m { shared = s; waiter = away })
    takes :
        m.holder ≡ unlocked
        → has_lock m.waiter ≡ false
        → MonitorStep m (record m { holder = locked })
    changes :
        (s : S)
        → m.holder ≡ locked
        → t.change m.shared s
        → MonitorStep m (record m { shared = s; holder = changed })
    tells :
        m.holder ≡ changed → MonitorStep m (record m { waiter = notified m.waiter; holder = told })
    unlocks : m.holder ≡ told → MonitorStep m (record m { holder = unlocked })
    meanwhile : (s : S) → t.quiet m.shared s → MonitorStep m (record m { shared = s })

  pub data MonitorReach (m : Monitor S) : Monitor S → Type 0 where
    here : MonitorReach m m
    next : {k n : Monitor S} → MonitorReach m k → MonitorStep k n → MonitorReach m n

-- Nobody has the lock, and the waiting thread is elsewhere.
abbrev pub new_monitor : {S : Type 0} → S → Monitor S
new_monitor s = record { shared = s; waiter = away; holder = unlocked }
