-- ===== src/Machine/Finish.antt =====
-- A queue pair of a context at work, and the end of what has been submitted to it.
use dlslime.Prelude.{ℕ, ◌≡◌, true, some, [], ◌++◌, ok}
use dlslime.Store.{query}
use dlslime.Context.{Qp}
use dlslime.Dispatch.Thread.Drain.{Holds}
use dlslime.System.{System}
use dlslime.System.Order.{in_flight}
use dlslime.System.Alive.{Alive}
use dlslime.System.Delivers.{Waited}
use dlslime.Machine.{Machine, qp_at}

-- What has been submitted to the queue pair `k` of `n` has come to its end in `m`.
pub record Finished (n : Machine) (k : ℕ) (q : Qp) (m : Machine) : Type 0 where
  pub submitted : (m.lanes k).submitted ≡ (n.lanes k).submitted
  pub finished : (m.lanes k).finished ≡ (n.lanes k).submitted
  pub flights : (m.lanes k).flights ≡ []
  pub queue : (q' : Qp) × (qp_at m k ≡ some q') × (q'.assign_queue ≡ [])
  pub told :
      (id : ℕ)
      → Holds id (in_flight (n.lanes k).flights ++ q.assign_queue)
      → Waited n.store id
      → query m.store id ≡ ok true
