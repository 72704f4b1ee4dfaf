-- ===== src/Store/Crowd/Left.antt =====
-- Two clients in `callback_info::wait` of csrc/engine/rdma/rdma_assignment.h, and what becomes of the
-- second when the callback notifies the first.
use dlslime.Prelude.{
  ℕ, ◌+◌, ◌^◌, ◌<◌, ◌≡◌, ◌≢◌, refl, sym, ap, subst, ◌∙◌, ◌⊎◌, inl, inr, true, false, ok, arith,
}
use dlslime.Store.{Store, RdmaAssignment, find, query}
use dlslime.Store.Frame.{invoke_lem}
use dlslime.Store.Waiting.{is_default, query-invoke, cell_of_find}
use dlslime.Store.Done.{is_done, Finishes}
use dlslime.Monitor.{
  Waiter, away, entering, testing, parking, parked, passed, has_lock, unlocked, locked, changed,
}
use dlslime.Store.Crowd.{
  Crowd, moved, Free, CrowdStep, CrowdReach, new_crowd, arrives, locks, passes, fails, parks,
  wakes_up, leaves, takes, changes, tells_one, tells_none, unlocks, meanwhile, here, next,
}

-- A client is left in its wait, and nobody is to notify it.
record Left (i : ℕ) (c : Crowd) : Type 0 where
  waits : c.waiters i ≡ parked
  nobody : (c.holder ≡ unlocked) ⊎ (c.holder ≡ locked)

-- Another client's move does not concern the one that is left.
moved_other :
    (c : Crowd) (i j : ℕ) (before after : Waiter)
    → c.waiters i ≡ before
    → before ≢ parked
    → c.waiters j ≡ parked
    → (moved c i after).waiters j ≡ parked
moved_other c i j before after at busy waits =
    let apart : i ≢ j = λ e. busy (cc) in ground (arith, apart)

module _ (id i : ℕ) where
  Left-moved :
      (c : Crowd) (j : ℕ) (before after : Waiter)
      → c.waiters j ≡ before
      → before ≢ parked
      → Left i c
      → Left i (moved c j after)
  Left-moved c j before after at busy v = record {
    waits = moved_other c j i before after at busy v.waits;
    nobody = v.nobody;
  }

  not_changed : {c : Crowd} → Left i c → c.holder ≡ changed → ⊥
  not_changed v h = elim (v.nobody) [ inl e ↦ cc | inr e ↦ cc ]

  Step-Left : {c d : Crowd} → CrowdStep id ⊥ ⊥ c d → Left i c → Left i d
  Step-Left {c} (arrives j w) v = Left-moved c j away entering w (λ e. cc) v
  Step-Left {c} (locks j w f) v = Left-moved c j entering testing w (λ e. cc) v
  Step-Left {c} (passes j w h) v = Left-moved c j testing passed w (λ e. cc) v
  Step-Left {c} (fails j w h) v = Left-moved c j testing parking w (λ e. cc) v
  Step-Left {c} (parks j w) v = Left-moved c j parking parked w (λ e. cc) v
  Step-Left (wakes_up j none w) v = absurd none
  Step-Left {c} (leaves j w) v = Left-moved c j passed away w (λ e. cc) v
  Step-Left (takes f) v = record { waits = v.waits; nobody = inr refl }
  Step-Left (changes s none l f) v = absurd none
  Step-Left (tells_one j h w) v = absurd (not_changed v h)
  Step-Left (tells_none h w) v = absurd (not_changed v h)
  Step-Left {c} (unlocks h) v = elim (v.nobody) [ inl e ↦ absurd (cc) | inr e ↦ absurd (cc) ]
  Step-Left (meanwhile s e) v = record { waits = v.waits; nobody = v.nobody }

  Reach-Left : {c d : Crowd} → Left i c → CrowdReach id ⊥ ⊥ c d → Left i d
  Reach-Left v here = v
  Reach-Left v (next r step) = Step-Left step (Reach-Left v r)

moved_self : (c : Crowd) (i : ℕ) (w : Waiter) → (moved c i w).waiters i ≡ w
moved_self c i w = ground arith

moved_apart : (c : Crowd) (i j : ℕ) (w : Waiter) → i ≢ j → (moved c i w).waiters j ≡ c.waiters j
moved_apart c i j w apart = ground (arith, apart)

moved-Free : (c : Crowd) (i : ℕ) (w : Waiter) → has_lock w ≡ false → Free c → Free (moved c i w)
moved-Free c i w outside (open_, others) = (open_, λ j. ground (arith, others j, outside))

module _ (id : ℕ) (start : Crowd) where
  abbrev Run : Crowd → Type 0
  Run = CrowdReach id (Unit {0}) ⊥ start

  -- A client comes to its wait, and nothing else happens.
  record Sleeps (c : Crowd) (i : ℕ) (d : Crowd) : Type 0 where
    run : Run d
    waits : d.waiters i ≡ parked
    others : (j : ℕ) → i ≢ j → d.waiters j ≡ c.waiters j
    free : Free d
    shared : d.shared ≡ c.shared

  sleep :
      (c : Crowd) (i : ℕ)
      → Run c
      → c.waiters i ≡ away
      → Free c
      → is_done id c.shared ≡ false
      → (d : Crowd) × Sleeps c i d
  sleep c i r at free not_yet =
      let c₁ = moved c i entering in
      let c₂ = moved c₁ i testing in
      let c₃ = moved c₂ i parking in
      let c₄ = moved c₃ i parked in
      let r₁ = next r (arrives i at) in
      let r₂ = next r₁ (locks i (moved_self c i entering) (moved-Free c i entering refl free)) in
      let r₃ = next r₂ (fails i (moved_self c₁ i testing) not_yet) in
      (
        c₄,
        record {
          run = next r₃ (parks i (moved_self c₂ i parking));
          waits = moved_self c₃ i parked;
          others = λ j apart.
              moved_apart c₃ i j parked apart
              ∙ moved_apart c₂ i j parking apart
              ∙ moved_apart c₁ i j testing apart
              ∙ moved_apart c i j entering apart;
          free = (free.0, λ j. ground (arith, free.1 j));
          shared = refl;
        },
      )

  -- The callback is called while two clients wait, and the first comes to the end of its wait.
  call_back :
      (c : Crowd) (s : Store) (first second : ℕ)
      → Run c
      → Free c
      → c.waiters first ≡ parked
      → c.waiters second ≡ parked
      → first ≢ second
      → Finishes id c.shared s
      → is_done id s ≡ true
      → (d : Crowd) × Run d
        × (d.shared ≡ s)
        × (d.holder ≡ unlocked)
        × (d.waiters first ≡ passed)
        × Left second d
  call_back c s first second r free w₁ w₂ apart finishes done =
      let c₁ = record c { shared = s; holder = changed } in
      let c₂ = moved (record c { shared = s; holder = unlocked }) first entering in
      let c₃ = moved c₂ first testing in
      let r₁ = next r (takes free) in
      let r₂ = next r₁ (changes s tt refl finishes) in
      let r₃ = next (next r₂ (tells_one first refl w₁)) (unlocks refl) in
      let open_ : Free c₂ = (refl, λ j. ground (arith, free.1 j)) in
      let r₄ = next r₃ (locks first (moved_self c₁ first entering) open_) in
      (
        moved c₃ first passed,
        next r₄ (passes first (moved_self c₂ first testing) done),
        refl,
        refl,
        moved_self c₃ first passed,
        record {
          waits =
              moved_apart c₃ first second passed apart
              ∙ moved_apart c₂ first second testing apart
              ∙ moved_apart c first second entering apart
              ∙ w₂;
          nobody = inl refl;
        },
      )

finish :
    (id : ℕ) (s : Store) (a : RdmaAssignment)
    → find s id ≡ ok a
    → is_default a.callback_info.callback ≡ true
    → a.callback_info.finished + 1 < 2 ^ 31
    → (s' : Store) × Finishes id s s' × (query s' id ≡ ok true)
finish id s a found default bound =
    let (c, at, same) = cell_of_find s id found in
    let run = invoke_lem s id 0 c at in
    (
      _,
      (0, a, found, default, run),
      ground (arith, query-invoke s _ id 0 id a found bound run, default),
    )

-- Two clients that wait for the same assignment are not both told of its end: there is a run in which
-- both come to their wait and the default callback is called, after which the assignment is finished,
-- nobody has the lock and the first client is at the end of its `wait`, but the second is in its wait,
-- and still is in whatever state they are from then on, unless the callback is called again or a wait
-- ends without a notification. The assignment is supposed to be there, to have the default callback, not
-- to be finished before, and to have been finished fewer than 2^31 - 1 times.
pub notify_one-parked :
    (id : ℕ) (s : Store) (a : RdmaAssignment) (first second : ℕ)
    → first ≢ second
    → find s id ≡ ok a
    → is_default a.callback_info.callback ≡ true
    → a.callback_info.finished + 1 < 2 ^ 31
    → query s id ≡ ok false
    → (c : Crowd) × CrowdReach id (Unit {0}) ⊥ (new_crowd s) c
      × (query c.shared id ≡ ok true)
      × (c.holder ≡ unlocked)
      × (c.waiters first ≡ passed)
      × ((d : Crowd) → CrowdReach id ⊥ ⊥ c d → d.waiters second ≡ parked)
unfolding is_done
notify_one-parked id s a first second apart found default bound waiting =
    let c₀ = new_crowd s in
    let not_yet : is_done id s ≡ false = rw (is_done, waiting) refl in
    let (c₁, s₁) = sleep id c₀ c₀ first here refl (refl, λ j. refl) not_yet in
    let (c₂, s₂) =
      sleep id c₀ c₁ second s₁.run (s₁.others second apart) s₁.free
        (ap (is_done id) s₁.shared ∙ not_yet) in
    let (after, finishes, finished) = finish id s a found default bound in
    let there = subst (λ x. Finishes id x after) (sym (s₂.shared ∙ s₁.shared)) finishes in
    let (c, r, shared, free, w, left) =
      call_back id c₀ c₂ after first second s₂.run s₂.free
        (s₂.others first (λ e. apart (sym e)) ∙ s₁.waits) s₂.waits apart there
        (rw (is_done, finished) refl) in
    (
      c,
      r,
      ap (λ x. query x id) shared ∙ finished,
      free,
      w,
      λ d run. (Reach-Left id second left run).waits,
    )
