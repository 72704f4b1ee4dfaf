-- ===== src/Store/Crowd.antt =====
-- Several clients in `callback_info::wait` of csrc/engine/rdma/rdma_assignment.h for the same assignment,
-- and its default callback, which notifies one of them.
pub mod Left
use dlslime.Prelude.{
  ℕ, ◌+◌, ◌^◌, ◌<◌, ◌≡◌, ◌≢◌, refl, sym, ap, subst, ◌∙◌, ◌⊎◌, inl, inr, Bool, true, false, ok,
  arith, ◌==◌, if◌then◌else◌,
}
use dlslime.Store.{Store, RdmaAssignment, find, invoke, query, call}
use dlslime.Store.Frame.{invoke_lem}
use dlslime.Store.Waiting.{is_default, query-invoke, cell_of_find}
use dlslime.Store.Done.{is_done, Elsewhere, Finishes}
use dlslime.Monitor.{
  Waiter, away, entering, testing, parking, parked, passed, has_lock, Holder, unlocked, locked,
  changed, told,
}

pub record Crowd : Type 0 where
  pub shared : Store
  pub waiters : ℕ → Waiter
  pub holder : Holder

abbrev pub moved : Crowd → ℕ → Waiter → Crowd
moved c i w = record c { waiters = λ j. if i == j then w else c.waiters j }

-- Nobody has the lock of the `callback_info`.
abbrev pub Free : Crowd → Type 0
Free c = (c.holder ≡ unlocked) × ((i : ℕ) → has_lock (c.waiters i) ≡ false)

-- `callers` says whether the callback is still to be called, `spurious` whether a wait may end by itself.
module _ (id : ℕ) (callers spurious : Type 0) where
  pub data CrowdStep (c : Crowd) : Crowd → Type 0 where
    arrives : (i : ℕ) → c.waiters i ≡ away → CrowdStep c (moved c i entering)
    locks : (i : ℕ) → c.waiters i ≡ entering → Free c → CrowdStep c (moved c i testing)
    passes :
        (i : ℕ)
        → c.waiters i ≡ testing
        → is_done id c.shared ≡ true
        → CrowdStep c (moved c i passed)
    fails :
        (i : ℕ)
        → c.waiters i ≡ testing
        → is_done id c.shared ≡ false
        → CrowdStep c (moved c i parking)
    parks : (i : ℕ) → c.waiters i ≡ parking → CrowdStep c (moved c i parked)
    wakes_up : (i : ℕ) → spurious → c.waiters i ≡ parked → CrowdStep c (moved c i entering)
    leaves : (i : ℕ) → c.waiters i ≡ passed → CrowdStep c (moved c i away)
    takes : Free c → CrowdStep c (record c { holder = locked })
    changes :
        (s : Store)
        → callers
        → c.holder ≡ locked
        → Finishes id c.shared s
        → CrowdStep c (record c { shared = s; holder = changed })
    -- `notify_one` takes one of those that wait, if there is any.
    tells_one :
        (i : ℕ)
        → c.holder ≡ changed
        → c.waiters i ≡ parked
        → CrowdStep c (record (moved c i entering) { holder = told })
    tells_none :
        c.holder ≡ changed
        → ((i : ℕ) → c.waiters i ≢ parked)
        → CrowdStep c (record c { holder = told })
    unlocks : c.holder ≡ told → CrowdStep c (record c { holder = unlocked })
    meanwhile : (s : Store) → Elsewhere id c.shared s → CrowdStep c (record c { shared = s })

  pub data CrowdReach (c : Crowd) : Crowd → Type 0 where
    here : CrowdReach c c
    next : {d e : Crowd} → CrowdReach c d → CrowdStep d e → CrowdReach c e

abbrev pub new_crowd : Store → Crowd
new_crowd s = record { shared = s; waiters = λ i. away; holder = unlocked }
