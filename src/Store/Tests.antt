-- ===== src/Store/Tests.antt =====
-- One assignment with the default callback, and one with a client's.
use dlslime.Prelude.{◌≡◌, ◌≢◌, refl, true, false, none, some, [], ◌∷◌, ok, arith}
use dlslime.Assignment.{read}
use dlslime.Store.{
  Store, client, new_rdma_assignment, RdmaAssignment, find, invoke, query, wait_all, cell, call,
  with_callback_info, put,
}
use dlslime.Store.Waiting.{query-invoke, query-invoke_all_custom, invoke_all}
use dlslime.Store.Crowd.{Crowd, CrowdReach, new_crowd}
use dlslime.Store.Crowd.Left.{notify_one-parked}
use dlslime.Store.Done.{is_done, callers, wait-returns}
use dlslime.Monitor.{
  Monitor, MonitorReach, parked, passed, unlocked, locked, changed, arrives, locks, fails, parks,
  takes, changes, here, next, new_monitor,
}
use dlslime.Samples.{first}

abbrev plain : RdmaAssignment
plain = new_rdma_assignment read (first ∷ []) none

abbrev custom : RdmaAssignment
custom = new_rdma_assignment read (first ∷ []) (some (client 5))

abbrev before : Store
before = record {
  cells =
      some (record { refs = 1; object = plain }) ∷ some (record { refs = 1; object = custom }) ∷ [];
  calls = [];
}

abbrev after : Store
after = record before {
  cells =
      some (record {
        refs = 1;
        object = record plain { callback_info = record (plain.callback_info) { finished = 1 } };
      })
      ∷ some (record { refs = 1; object = custom })
      ∷ [];
}

found-plain : find before 0 ≡ ok plain
unfolding find cell
found-plain = refl

called-plain : invoke before 0 0 ≡ ok after
unfolding invoke find cell call with_callback_info put
called-plain = refl

query-invoke_example : query after 0 ≡ ok true
query-invoke_example = query-invoke before after 0 0 0 plain found-plain (omega arith) called-plain

found-custom : find before 1 ≡ ok custom
unfolding find cell
found-custom = refl

called-custom : invoke_all before ((1, 0) ∷ []) ≡ ok (record before { calls = (5, 0) ∷ [] })
unfolding invoke_all invoke find cell call
called-custom = refl

query-invoke_all_custom_example :
    (query (record before { calls = (5, 0) ∷ [] }) 1 ≡ ok false)
    × (wait_all (record before { calls = (5, 0) ∷ [] }) (some 1 ∷ []) ≡ ok false)
query-invoke_all_custom_example =
    query-invoke_all_custom before (record before { calls = (5, 0) ∷ [] }) ((1, 0) ∷ []) 1 custom
      found-custom refl refl called-custom

-- The client waits, and the callback has been called, but not notified yet.
abbrev called_back : Monitor Store
called_back = record { shared = after; waiter = parked; holder = changed }

reach-called_back : MonitorReach (callers 0) (new_monitor before) called_back
unfolding is_done query find cell
reach-called_back =
    next
      (next
        (next (next (next (next here (arrives refl tt)) (locks refl refl)) (fails refl refl))
          (parks refl))
        (takes refl refl))
      (changes after refl (0, plain, found-plain, refl, called-plain))

done-plain : query after 0 ≡ ok true
unfolding query find cell
done-plain = refl

wait-returns_example :
    (called_back.waiter ≡ parked → called_back.holder ≡ changed)
    × (called_back.holder ≢ locked
        → (n : Monitor Store) × MonitorReach (callers 0) called_back n
          × (n.waiter ≡ passed)
          × (n.shared ≡ after))
wait-returns_example = wait-returns 0 before called_back reach-called_back done-plain

notify_one-parked_example :
    (c : Crowd) × CrowdReach 0 (Unit {0}) ⊥ (new_crowd before) c
    × (query c.shared 0 ≡ ok true)
    × (c.holder ≡ unlocked)
    × (c.waiters 3 ≡ passed)
    × ((d : Crowd) → CrowdReach 0 ⊥ ⊥ c d → d.waiters 5 ≡ parked)
unfolding query find cell
notify_one-parked_example =
    notify_one-parked 0 before plain 3 5 (λ e. cc) found-plain refl (omega arith) refl
