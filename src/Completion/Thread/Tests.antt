-- ===== src/Completion/Thread/Tests.antt =====
-- The ends of the polling thread.
use dlslime.Prelude.{◌≡◌, refl, true, false, none, [], ◌∷◌, ok, pos, negsuc}
use dlslime.Store.{empty_store}
use dlslime.Completion.{Polled, poll_loop, handle_wcs, handle_wc}
use dlslime.Completion.Thread.{Event, ends, waits, event_loop, cq_poll_handle}
use dlslime.Samples.{qp}

abbrev polled : Polled
polled = record { qps = qp ∷ []; store = empty_store }

-- A completion without a callback, then an empty queue.
abbrev silent : Event
silent = record {
  stop = false;
  got = true;
  notified = true;
  polls =
      record { stop = false; ret = pos 1; wcs = record { succeeded = true; wr_id = none } ∷ [] }
      ∷ record { stop = false; ret = pos 0; wcs = [] }
      ∷ [];
}

not_connected : cq_poll_handle false polled (silent ∷ []) ≡ ok (ends (negsuc 0) polled)
unfolding cq_poll_handle
not_connected = refl

waits_again : cq_poll_handle true polled (silent ∷ []) ≡ ok (waits polled)
unfolding cq_poll_handle event_loop poll_loop handle_wcs handle_wc
waits_again = refl

stopped :
    cq_poll_handle true polled (silent ∷ record silent { stop = true } ∷ [])
    ≡ ok (ends (pos 0) polled)
unfolding cq_poll_handle event_loop poll_loop handle_wcs handle_wc
stopped = refl

no_event :
    cq_poll_handle true polled (record silent { got = false } ∷ []) ≡ ok (ends (negsuc 0) polled)
unfolding cq_poll_handle event_loop
no_event = refl
