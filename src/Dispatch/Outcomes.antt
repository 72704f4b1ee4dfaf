-- ===== src/Dispatch/Outcomes.antt =====
-- The ways in which a round of the dispatch loop ends.
use dlslime.Prelude.{
  ℕ, ◌≤◌, ◌<◌, ◌≡◌, ◌⊎◌, refl, sym, ap, ◌∙◌, true, false, none, List, [], ◌∷◌, arith, ltb,
  Bool-cases, inl, inr, ok, >>=-eq-ok, ok-injective, ltb→lt,
}
use dlslime.Assignment.{OpCode, read, send, recv, other}
use dlslime.MemoryPool.{MemoryPool}
use dlslime.RdmaInfo.{max_send_wr}
use dlslime.Store.{Store, RdmaAssignment, find, invoke, acquire, release}
use dlslime.Store.Frame.{
  Keeps, Keeps-refl, Keeps-trans, acquire-Keeps, release-Keeps, invoke-Keeps, find-acquire,
}
use dlslime.Context.{Qp}
use dlslime.WorkRequest.{
  SendWr, RecvWr, charge, code_of_ret, post_send, post_recv, post_read_batch, read_wrs,
}
use dlslime.WorkRequest.Posting.{post_read_batch-ok, post_send-ok, post_recv-ok}
use dlslime.Dispatch.{
  Action, posted, posted_recv, overflow, unknown, full, Round, fits_window, dispatch,
  dispatch_queue, dispatch_front, post, pop,
}

-- What the chosen post function has handed over, by the opcode.
pub data Posts (p : MemoryPool) (qpi id : ℕ) (a : RdmaAssignment) (ret : ℕ) (act : Action)
    : Type 0 where
  reads :
      (wrs : List SendWr)
      → a.opcode ≡ read
      → read_wrs p a.batch_size (record { info = id; qpi = qpi }) 0 a.batch ≡ ok wrs
      → act ≡ posted wrs (code_of_ret ret)
      → Posts p qpi id a ret act
  sends :
      (wr : SendWr)
      → a.opcode ≡ send
      → wr.wr_id ≡ none
      → wr.signaled ≡ true
      → act ≡ posted (wr ∷ []) (code_of_ret ret)
      → Posts p qpi id a ret act
  receives :
      (wr : RecvWr)
      → a.opcode ≡ recv
      → wr.wr_id ≡ none
      → act ≡ posted_recv wr (code_of_ret ret)
      → Posts p qpi id a ret act

-- Too large: ignored. No room: left where it is. Room: charged and handed over, or an opcode that
-- the engine does not know.
pub data Outcome (p : MemoryPool) (qpi : ℕ) (q : Qp) (rest : List ℕ) (id : ℕ) (a : RdmaAssignment)
    (ret : ℕ) (r : Round) : Type 0 where
  ignored :
      max_send_wr < a.batch_size
      → r.qp ≡ pop q rest
      → r.action ≡ overflow
      → Outcome p qpi q rest id a ret r
  waits :
      a.batch_size ≤ max_send_wr
      → fits_window a.batch_size q ≡ false
      → r.qp ≡ q
      → r.action ≡ full
      → Outcome p qpi q rest id a ret r
  posts :
      a.batch_size ≤ max_send_wr
      → fits_window a.batch_size q ≡ true
      → r.qp ≡ pop (charge q a.batch_size) rest
      → Posts p qpi id a ret r.action
      → Outcome p qpi q rest id a ret r
  refuses :
      (n : ℕ)
      → a.batch_size ≤ max_send_wr
      → fits_window a.batch_size q ≡ true
      → a.opcode ≡ other n
      → r.qp ≡ pop q rest
      → r.action ≡ unknown
      → Outcome p qpi q rest id a ret r

record Posted (p : MemoryPool) (qpi : ℕ) (q : Qp) (s : Store) (id : ℕ) (a : RdmaAssignment)
    (ret : ℕ) (r : Round) : Type 0 where
  keeps : Keeps s r.store
  what :
      ((r.qp ≡ charge q a.batch_size) × Posts p qpi id a ret r.action)
      ⊎ ((n : ℕ) × (a.opcode ≡ other n) × (r.qp ≡ q) × (r.action ≡ unknown))

post-Posted :
    (p : MemoryPool) (qpi : ℕ) (q : Qp) (s : Store) (id : ℕ) (a : RdmaAssignment) (ret : ℕ)
    (opcode : OpCode) {r : Round}
    → a.opcode ≡ opcode
    → post p qpi q s id a ret opcode ≡ ok r
    → Posted p qpi q s id a ret r
unfolding post
post-Posted p qpi q s id a ret read o h =
    let ((q', wrs, code), run, made) = >>=-eq-ok (post_read_batch p qpi q id a ret) _ h in
    let (charged, runs, long, same) = post_read_batch-ok p qpi q id a ret run in
    rw (← ok-injective made) (record {
      keeps = Keeps-refl s;
      what = inl (charged, reads wrs o runs (ap (posted wrs) same));
    })
post-Posted p qpi q s id a ret send o h =
    let ((q', wr, code), run, made) = >>=-eq-ok (post_send p q a ret) _ h in
    let (charged, unmarked, signaled, same) = post_send-ok p q a ret run in
    rw (← ok-injective made) (record {
      keeps = Keeps-refl s;
      what = inl (charged, sends wr o unmarked signaled (ap (posted (wr ∷ [])) same));
    })
post-Posted p qpi q s id a ret recv o h =
    let ((q', wr, code), run, made) = >>=-eq-ok (post_recv p q a ret) _ h in
    let (charged, unmarked, same) = post_recv-ok p q a ret run in
    rw (← ok-injective made) (record {
      keeps = Keeps-refl s;
      what = inl (charged, receives wr o unmarked (ap (posted_recv wr) same));
    })
post-Posted p qpi q s id a ret (other n) o h =
    let (s', run, made) = >>=-eq-ok (invoke s id 401) _ h in
    rw (← ok-injective made)
      (record { keeps = invoke-Keeps s s' id 401 run; what = inr (n, o, refl, refl) })

record Dispatched (p : MemoryPool) (qpi : ℕ) (q : Qp) (rest : List ℕ) (s : Store) (id : ℕ)
    (a : RdmaAssignment) (ret : ℕ) (r : Round) : Type 0 where
  keeps : Keeps s r.store
  outcome : Outcome p qpi q rest id a ret r

Posted-outcome :
    (p : MemoryPool) (qpi : ℕ) (q : Qp) (rest : List ℕ) (s : Store) (id : ℕ) (a : RdmaAssignment)
    (ret : ℕ) (r : Round)
    → a.batch_size ≤ max_send_wr
    → fits_window a.batch_size q ≡ true
    → Posted p qpi q s id a ret r
    → Dispatched p qpi q rest s id a ret
        (record r { qp = pop r.qp rest; store = release r.store id })
Posted-outcome p qpi q rest s id a ret r small fits h = record {
  keeps = Keeps-trans h.keeps (release-Keeps r.store id);
  outcome = elim h.what [
    | inl (charged, what) ↦ posts small fits (ap (λ q'. pop q' rest) charged) what
    | inr (n, o, same, act) ↦ refuses n small fits o (ap (λ q'. pop q' rest) same) act
  ];
}

dispatch-Dispatched :
    (p : MemoryPool) (qpi : ℕ) (q : Qp) (rest : List ℕ) (s : Store) (id : ℕ) (a : RdmaAssignment)
    (ret : ℕ) {r : Round}
    → dispatch p qpi q rest s id a ret ≡ ok r
    → Dispatched p qpi q rest s id a ret r
unfolding dispatch
dispatch-Dispatched p qpi q rest s id a ret {r} h =
    elim (Bool-cases (ltb max_send_wr a.batch_size)) [
      | inl large ↦
          let (s', run, made) = >>=-eq-ok (invoke s id 400) _ (rw large at h) in
          rw (← ok-injective made) (record {
            keeps = Keeps-trans (invoke-Keeps s s' id 400 run) (release-Keeps s' id);
            outcome = ignored (ltb→lt _ _ large) refl refl;
          })
      | inr small ↦ elim (Bool-cases (fits_window a.batch_size q)) [
        | inl fits ↦
            let (r', run, made) =
              >>=-eq-ok (post p qpi q s id a ret a.opcode) _ (rw (small, fits) at h) in
            rw (← ok-injective made) (
              Posted-outcome p qpi q rest s id a ret r' (ground arith) fits
                (post-Posted p qpi q s id a ret a.opcode refl run))
        | inr no_room ↦
            let made = ok-injective (rw (small, no_room) at h) in
            rw (← made)
              (record { keeps = Keeps-refl s; outcome = waits (ground arith) no_room refl refl })
      ]
    ]

-- A round that ends without a fault.
pub record Ends (p : MemoryPool) (qpi : ℕ) (q : Qp) (s : Store) (ret : ℕ) (r : Round) : Type 0 where
  pub id : ℕ
  pub rest : List ℕ
  pub assignment : RdmaAssignment
  pub front : q.assign_queue ≡ id ∷ rest
  pub found : find s id ≡ ok assignment
  pub keeps : Keeps s r.store
  pub outcome : Outcome p qpi q rest id assignment ret r

dispatch_queue-Ends :
    (p : MemoryPool) (qpi : ℕ) (q : Qp) (queue : List ℕ) (s : Store) (ret : ℕ) {r : Round}
    → q.assign_queue ≡ queue
    → dispatch_queue p qpi q queue s ret ≡ ok r
    → Ends p qpi q s ret r
unfolding dispatch_queue
dispatch_queue-Ends p qpi q [] s ret e h = cc
dispatch_queue-Ends p qpi q (id ∷ rest) s ret e h =
    let (a, found, more) = >>=-eq-ok (find (acquire s id) id) _ h in
    let (r, run, made) = >>=-eq-ok (dispatch p qpi q rest (acquire s id) id a ret) _ more in
    let d = dispatch-Dispatched p qpi q rest (acquire s id) id a ret run in
    rw (← ok-injective made) (record {
      id = id;
      rest = rest;
      assignment = a;
      front = e;
      found = sym (find-acquire s id id) ∙ found;
      keeps = Keeps-trans (acquire-Keeps s id) (Keeps-trans d.keeps (release-Keeps r.store id));
      outcome = elim d.outcome [
        | ignored l q' act ↦ ignored l q' act
        | waits l w q' act ↦ waits l w q' act
        | posts l w q' act ↦ posts l w q' act
        | refuses n l w o q' act ↦ refuses n l w o q' act
      ];
    })

-- A round that ends without a fault has found an assignment that is still there at the front of the
-- queue, leaves the sizes and opcodes of those that remain as they are, and has gone one of four ways:
-- a batch of more than MAX_SEND_WR is taken off the queue and nothing is posted; a batch that does not
-- fit the window stays where it is; one that fits and is a read, a send or a receive is taken off,
-- charged to the window and handed over; one that fits and has another opcode is taken off without a
-- charge.
pub dispatch_front-Ends :
    (p : MemoryPool) (qpi : ℕ) (q : Qp) (s : Store) (ret : ℕ) {r : Round}
    → dispatch_front p qpi q s ret ≡ ok r
    → Ends p qpi q s ret r
unfolding dispatch_front
dispatch_front-Ends p qpi q s ret h = dispatch_queue-Ends p qpi q q.assign_queue s ret refl h
