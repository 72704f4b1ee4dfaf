-- ===== src/Monitor/Sound.antt =====
-- No notification is missed where whatever makes the predicate hold is done with the lock.
use dlslime.Prelude.{
  ◌≡◌, ◌≢◌, refl, sym, ap, subst, ◌∙◌, Bool, true, false, Bool-cases, ◌⊎◌, inl, inr,
}
use dlslime.Monitor.{
  Waiter, away, entering, testing, parking, parked, passed, has_lock, notified, Holder, unlocked,
  locked, changed, told, Monitor, Threads, MonitorStep, MonitorReach, arrives, locks, passes, fails,
  parks, wakes_up, works, leaves, takes, changes, tells, unlocks, meanwhile, here, next,
  new_monitor,
}

-- The thread has tested the predicate in vain, and has not been notified since.
abbrev pub waits : Waiter → Bool
waits away = false
waits entering = false
waits testing = false
waits parking = true
waits parked = true
waits passed = false

pub has_lock-notified : (w : Waiter) → has_lock (notified w) ≡ has_lock w
has_lock-notified away = refl
has_lock-notified entering = refl
has_lock-notified testing = refl
has_lock-notified parking = refl
has_lock-notified parked = refl
has_lock-notified passed = refl

-- Who still waits after a notification has the lock.
waits-notified : (w : Waiter) → waits (notified w) ≡ true → has_lock w ≡ true
waits-notified away h = cc
waits-notified entering h = cc
waits-notified testing h = refl
waits-notified parking h = refl
waits-notified parked h = cc
waits-notified passed h = refl

notified-away : (w : Waiter) → notified w ≡ away → w ≡ away
notified-away away h = refl
notified-away entering h = h
notified-away testing h = h
notified-away parking h = h
notified-away parked h = cc
notified-away passed h = h

still_away : (w w' : Waiter) → (w' ≡ w) ⊎ (w' ≡ notified w) → w' ≡ away → w ≡ away
still_away w w' (inl same) gone = sym same ∙ gone
still_away w w' (inr same) gone = notified-away w (sym same ∙ gone)

module _ {S : Type 0} (t : Threads S) where
  pub record Sound (m : Monitor S) : Type 0 where
    pub exclusive : has_lock m.waiter ≡ true → m.holder ≡ unlocked
    pub owed : waits m.waiter ≡ true → t.ready m.shared ≡ true → m.holder ≡ changed

  -- Without the lock the predicate is not made to hold.
  abbrev pub IsQuiet : Type 0
  IsQuiet = (s s' : S) → t.quiet s s' → t.ready s' ≡ true → t.ready s ≡ true

  pub Step-Sound : {m n : Monitor S} → IsQuiet → MonitorStep t m n → Sound m → Sound n
  Step-Sound q (arrives w a) v = record { exclusive = λ h. cc; owed = λ h k. cc }
  Step-Sound q (locks w f) v = record { exclusive = λ h. f; owed = λ h k. cc }
  Step-Sound q (passes w r) v = record {
    exclusive = λ h. v.exclusive (rw w refl);
    owed = λ h k. cc;
  }
  Step-Sound q (fails w r) v = record { exclusive = λ h. v.exclusive (rw w refl); owed = λ h k. cc }
  Step-Sound q (parks w) v = record { exclusive = λ h. cc; owed = λ h k. v.owed (rw w refl) k }
  Step-Sound q (wakes_up sp w) v = record { exclusive = λ h. cc; owed = λ h k. cc }
  Step-Sound q (works s w x) v = record {
    exclusive = v.exclusive;
    owed = λ h k. cc (h, ap waits w);
  }
  Step-Sound q (leaves s w x) v = record { exclusive = λ h. cc; owed = λ h k. cc }
  Step-Sound q (takes f w) v = record { exclusive = λ h. cc; owed = λ h k. cc (v.owed h k) }
  Step-Sound q (changes s l x) v = record {
    exclusive = λ h. cc (v.exclusive h);
    owed = λ h k. refl;
  }
  Step-Sound {m} q (tells c) v = record {
    exclusive = λ h. cc (v.exclusive (sym (has_lock-notified m.waiter) ∙ h));
    owed = λ h k. cc (v.exclusive (waits-notified m.waiter h));
  }
  Step-Sound q (unlocks l) v = record { exclusive = λ h. refl; owed = λ h k. cc (v.owed h k) }
  Step-Sound q (meanwhile s x) v = record {
    exclusive = v.exclusive;
    owed = λ h k. v.owed h (q _ s x k);
  }

  pub new_monitor-Sound : (s : S) → Sound (new_monitor s)
  new_monitor-Sound s = record { exclusive = λ h. cc; owed = λ h k. cc }

  pub Reach-Sound : {m n : Monitor S} → IsQuiet → MonitorReach t m n → Sound m → Sound n
  Reach-Sound q here v = v
  Reach-Sound q (next r st) v = Step-Sound q st (Reach-Sound q r v)

  -- A thread that waits though the predicate holds is about to be notified.
  pub Reach-owed :
      (s : S) (m : Monitor S)
      → IsQuiet
      → MonitorReach t (new_monitor s) m
      → m.waiter ≡ parked
      → t.ready m.shared ≡ true
      → m.holder ≡ changed
  Reach-owed s m q r w h = (Reach-Sound q r (new_monitor-Sound s)).owed (rw w refl) h

  -- The lock is given back.
  record Freed (m n : Monitor S) : Type 0 where
    run : MonitorReach t m n
    free : n.holder ≡ unlocked
    same : n.shared ≡ m.shared
    on_the_way : (n.waiter ≡ m.waiter) ⊎ (n.waiter ≡ notified m.waiter)

  free_up : (m : Monitor S) (h : Holder) → m.holder ≡ h → h ≢ locked → (n : Monitor S) × Freed m n
  free_up m unlocked e l = (m, record { run = here; free = e; same = refl; on_the_way = inl refl })
  free_up m locked e l = absurd (l refl)
  free_up m told e l =
      (_, record { run = next here (unlocks e); free = refl; same = refl; on_the_way = inl refl })
  free_up m changed e l = (
    _,
    record {
      run = next (next here (tells e)) (unlocks refl);
      free = refl;
      same = refl;
      on_the_way = inr refl;
    },
  )

  -- The waiting thread comes to the end of its wait.
  record Passed (m n : Monitor S) : Type 0 where
    run : MonitorReach t m n
    waiter : n.waiter ≡ passed
    same : n.shared ≡ m.shared

  pass :
      (m : Monitor S) (w : Waiter)
      → m.waiter ≡ w
      → waits w ≡ false
      → (w ≡ away → t.arrive m.shared)
      → m.holder ≡ unlocked
      → t.ready m.shared ≡ true
      → (n : Monitor S) × Passed m n
  pass m away e still there free ready = (
    _,
    record {
      run = next (next (next here (arrives e (there refl))) (locks refl free)) (passes refl ready);
      waiter = refl;
      same = refl;
    },
  )
  pass m entering e still there free ready = (
    _,
    record {
      run = next (next here (locks e free)) (passes refl ready);
      waiter = refl;
      same = refl;
    },
  )
  pass m testing e still there free ready =
      (_, record { run = next here (passes e ready); waiter = refl; same = refl })
  pass m parking e still there free ready = absurd (cc still)
  pass m parked e still there free ready = absurd (cc still)
  pass m passed e still there free ready = (m, record { run = here; waiter = e; same = refl })

  pub Reach-trans :
      {m n k : Monitor S} → MonitorReach t m n → MonitorReach t n k → MonitorReach t m k
  Reach-trans r here = r
  Reach-trans r (next l st) = next (Reach-trans r l) st

  not_waiting :
      {m : Monitor S}
      → Sound m
      → m.holder ≡ unlocked
      → t.ready m.shared ≡ true
      → waits m.waiter ≡ false
  not_waiting {m} v free ready = elim (Bool-cases (waits m.waiter)) [
    | inl h ↦ absurd (cc (v.owed h ready))
    | inr h ↦ h
  ]

  -- Once the predicate holds and whoever made it hold goes on, the thread comes to the end of its wait.
  pub Reach-passes :
      (s : S) (m : Monitor S)
      → IsQuiet
      → MonitorReach t (new_monitor s) m
      → t.ready m.shared ≡ true
      → m.holder ≢ locked
      → (m.waiter ≡ away → t.arrive m.shared)
      → (n : Monitor S) × MonitorReach t m n × (n.waiter ≡ passed) × (n.shared ≡ m.shared)
  Reach-passes s m q r ready going comes =
      let (k, f) = free_up m m.holder refl going in
      let v = Reach-Sound q f.run (Reach-Sound q r (new_monitor-Sound s)) in
      let ready' : t.ready k.shared ≡ true = ap t.ready f.same ∙ ready in
      let (n, p) =
        pass k k.waiter refl (not_waiting v f.free ready')
          (λ gone.
            subst t.arrive (sym f.same) (comes (still_away m.waiter k.waiter f.on_the_way gone)))
          f.free ready' in
      (n, Reach-trans f.run p.run, p.waiter, p.same ∙ f.same)
