-- ===== src/Context/Lifecycle.antt =====
-- `RDMAContext::launch_future` and `RDMAContext::stop_future` of csrc/engine/rdma/rdma_context.cpp:
-- the threads of a context start and end.
use dlslime.Prelude.{
  ◌≡◌, refl, Bool, true, false, ◌&&◌, not, List, [], ◌∷◌, map, if◌then◌else◌, arith,
}
use dlslime.Context.{Context, Qp}

abbrev pub started : Qp → Qp
started q = record q { wq_future = true }

unfoldable pub launch_future : Context → Context
launch_future c = record c { qp_management = map started c.qp_management; cq_future = true }

-- `get()` waits for the thread, and a future whose result has been taken is not valid any more.
abbrev pub stopped_qp : Qp → Qp
stopped_qp q =
    if not q.stop_wq_future && q.wq_future
    then record q { wq_future = false; stop_wq_future = true }
    else q

-- The context, and whether a request without a callback is posted that wakes the polling thread.
unfoldable pub stop_future : Context → Context × Bool
stop_future c =
    let c' = record c { qp_management = map stopped_qp c.qp_management } in
    if not c.stop_cq_future && c.cq_future
    then (record c' { cq_future = false; stop_cq_future = true }, true)
    else (c', false)

stopped_qp-twice : (q : Qp) → stopped_qp (stopped_qp q) ≡ stopped_qp q
stopped_qp-twice q = ground arith

map-stopped : (qs : List Qp) → map stopped_qp (map stopped_qp qs) ≡ map stopped_qp qs
map-stopped [] = refl
map-stopped (q ∷ qs) = ground (arith, stopped_qp-twice q, map-stopped qs)

stop_future-twice :
    (c : Context) (stopped running : Bool)
    → c.stop_cq_future ≡ stopped
    → c.cq_future ≡ running
    → stop_future (stop_future c).0 ≡ ((stop_future c).0, false)
unfolding stop_future
stop_future-twice c true running e f = simp (stop_future, e, f, map-stopped c.qp_management)
stop_future-twice c false false e f = simp (stop_future, e, f, map-stopped c.qp_management)
stop_future-twice c false true e f = simp (stop_future, e, f, map-stopped c.qp_management)

-- Stopping twice is stopping once: the second time, as in the destructors of the scheduler and then
-- of the context, changes nothing and posts nothing.
pub stop_future-idempotent :
    (c : Context) → stop_future (stop_future c).0 ≡ ((stop_future c).0, false)
stop_future-idempotent c = stop_future-twice c c.stop_cq_future c.cq_future refl refl
