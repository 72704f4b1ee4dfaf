-- ===== src/Completion/Tests.antt =====
-- Completions without a callback, and a poll that fails.
use dlslime.Prelude.{◌≢◌, false, none, [], ◌∷◌, ok, arith, negsuc}
use dlslime.Store.{empty_store}
use dlslime.Completion.{Wc, Polled, drained, poll_loop}
use dlslime.Completion.Rounds.{poll_loop-negative}
use dlslime.Samples.{qp}

abbrev polled : Polled
polled = record { qps = record qp { outstanding_rdma_reads = 5 } ∷ []; store = empty_store }

abbrev silent : Wc
silent = record { succeeded = false; wr_id = none }

poll_loop-negative_example :
    poll_loop polled (record { stop = false; ret = negsuc 0; wcs = silent ∷ [] } ∷ [])
    ≢ ok (drained polled)
poll_loop-negative_example =
    poll_loop-negative polled 0 (silent ∷ []) [] (drained polled) (omega arith) (omega arith)
