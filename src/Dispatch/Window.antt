-- ===== src/Dispatch/Window.antt =====
-- The window of outstanding requests, without wrap-around.
use dlslime.Prelude.{ℕ, ◌+◌, ◌≤◌, ◌<◌, ◌≡◌, true, arith, ◌↔◌, add32}
use dlslime.RdmaInfo.{max_send_wr}
use dlslime.Context.{Qp}
use dlslime.Dispatch.{fits_window}

-- For a count within the window the test in machine integers is the test in numbers.
pub fits_window_iff :
    (n : ℕ) (q : Qp)
    → n ≤ max_send_wr
    → q.outstanding_rdma_reads < max_send_wr
    → (fits_window n q ≡ true) ↔ (n + q.outstanding_rdma_reads < max_send_wr)
fits_window_iff n q small within = ground arith

pub add32-exact :
    (n : ℕ) (q : Qp)
    → n + q.outstanding_rdma_reads < max_send_wr
    → add32 q.outstanding_rdma_reads n ≡ q.outstanding_rdma_reads + n
add32-exact n q fits = omega arith
