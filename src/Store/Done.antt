-- ===== src/Store/Done.antt =====
-- `callback_info` of csrc/engine/rdma/rdma_assignment.h between threads: `wait`, and the default callback
-- that ends it.
use dlslime.Prelude.{
  ℕ, suc, ◌-◌, ◌<◌, length, some, ◌≡◌, ◌≢◌, refl, sym, ◌∙◌, Bool, true, false, ok, err, arith, ◌==◌,
  ◌&&◌, Option-cases, inl, inr, ok-injective,
}
use dlslime.Store.{
  Store, Cell, RdmaAssignment, cell, find, invoke, query, make_shared, acquire, release,
}
use dlslime.Store.Frame.{invoke_lem, find-acquire, cell-release, find-make_shared_old}
use dlslime.Store.Waiting.{is_default, find-call}
use dlslime.Monitor.{Monitor, Threads, MonitorReach, parked, passed, locked, changed, new_monitor}
use dlslime.Monitor.Sound.{IsQuiet, Reach-owed, Reach-passes}

-- The predicate of `wait`.
unfoldable pub is_done : ℕ → Store → Bool
is_done id s = elim (query s id) [ ok done ↦ done | err e ↦ false ]

-- What the threads do to the store without the lock of this `callback_info`: they call the callbacks of
-- other assignments, and make, copy and give up pointers to assignments, but never the last one to
-- this.
pub data Elsewhere (id : ℕ) (s : Store) : Store → Type 0 where
  calls : (i code : ℕ) (s' : Store) → i ≢ id → invoke s i code ≡ ok s' → Elsewhere id s s'
  makes : (a : RdmaAssignment) → id < length s.cells → Elsewhere id s (make_shared s a).0
  copies : (i : ℕ) → Elsewhere id s (acquire s i)
  drops : (i : ℕ) → i ≢ id → Elsewhere id s (release s i)
  lets_go : (c : Cell) → cell s id ≡ some c → 1 < c.refs → Elsewhere id s (release s id)

-- The default callback, called with a code.
abbrev pub Finishes : ℕ → Store → Store → Type 0
Finishes id s s' =
    (code : ℕ) × (a : RdmaAssignment) × (find s id ≡ ok a)
    × (is_default a.callback_info.callback ≡ true)
    × (invoke s id code ≡ ok s')

abbrev pub callers : ℕ → Threads Store
callers id = record {
  ready = is_done id;
  arrive = λ s. Unit {0};
  work = λ s s'. ⊥;
  leave = λ s s'. s' ≡ s;
  change = Finishes id;
  quiet = Elsewhere id;
  spurious = Unit {0};
}

pub find-invoke_other :
    (s s' : Store) (i code id : ℕ) → i ≢ id → invoke s i code ≡ ok s' → find s' id ≡ find s id
unfolding invoke find
find-invoke_other s s' i code id other h = elim (Option-cases (cell s i)) [
  | inl gone ↦ cc
  | inr (c, at) ↦
      let made = ok-injective (sym (invoke_lem s i code c at) ∙ h) in
      let apart : (i == id && is_default c.object.callback_info.callback) ≡ false = ground arith in
      rw (← made) (find-call s i code id c c.object.callback_info.callback at apart)
]

pub find-release_other : (s : Store) (i id : ℕ) → i ≢ id → find (release s i) id ≡ find s id
unfolding find
find-release_other s i id other = ground (arith, cell-release s i id)

pub find-release_held :
    (s : Store) (id : ℕ) (c : Cell)
    → cell s id ≡ some c
    → 1 < c.refs
    → find (release s id) id ≡ find s id
unfolding find
find-release_held s id c at more =
    let left : c.refs - 1 ≡ suc (c.refs - 2) = omega arith in
    ground (arith, cell-release s id id, left)

find-Elsewhere : (id : ℕ) {s s' : Store} → Elsewhere id s s' → find s' id ≡ find s id
find-Elsewhere id {s} {s'} (calls i code t other h) = find-invoke_other s s' i code id other h
find-Elsewhere id {s} (makes a below) = find-make_shared_old s a id below
find-Elsewhere id {s} (copies i) = find-acquire s i id
find-Elsewhere id {s} (drops i other) = find-release_other s i id other
find-Elsewhere id {s} (lets_go c at more) = find-release_held s id c at more

is_done-find : (id : ℕ) (s s' : Store) → find s' id ≡ find s id → is_done id s' ≡ is_done id s
unfolding is_done query
is_done-find id s s' e = ground (arith, e)

callers-IsQuiet : (id : ℕ) → IsQuiet (callers id)
callers-IsQuiet id s s' e h = sym (is_done-find id s s' (find-Elsewhere id e)) ∙ h

-- `wait` does not miss the end of its assignment, whatever else happens to the store: when the default
-- callback has been called, the client is not left in the wait, unless the callback is still about to
-- notify it; and once the callback goes on to give the lock back, the client comes to the end of `wait`,
-- now or whenever it calls it, with nothing else to happen. One thread is supposed to wait for the
-- assignment, and its object to stay.
pub wait-returns :
    (id : ℕ) (s : Store) (m : Monitor Store)
    → MonitorReach (callers id) (new_monitor s) m
    → query m.shared id ≡ ok true
    → (m.waiter ≡ parked → m.holder ≡ changed)
      × (m.holder ≢ locked
          → (n : Monitor Store) × MonitorReach (callers id) m n
            × (n.waiter ≡ passed)
            × (n.shared ≡ m.shared))
unfolding is_done
wait-returns id s m r done =
    let ready : is_done id m.shared ≡ true = rw (is_done, done) refl in
    (
      λ w. Reach-owed (callers id) s m (callers-IsQuiet id) r w ready,
      λ going. Reach-passes (callers id) s m (callers-IsQuiet id) r ready going (λ gone. tt),
    )
