-- ===== src/Dispatch/Reports.antt =====
-- What a round of csrc/engine/rdma/rdma_context.cpp's `wq_dispatch_handle` does to the store: whom it tells
-- with which code, and which pointers end.
use dlslime.Prelude.{
  ℕ, suc, ◌+◌, ◌-◌, ◌^◌, ◌<◌, ◌≡◌, ◌≢◌, refl, sym, ap, ◌∙◌, true, Option, none, some, List, [], ◌∷◌,
  ◌++◌, append-nil, arith, ltb, Bool-cases, inl, inr, ok, >>=-eq-ok, ok-injective,
}
use dlslime.Assignment.{OpCode, read, send, recv, other}
use dlslime.MemoryPool.{MemoryPool}
use dlslime.RdmaInfo.{max_send_wr}
use dlslime.Store.{
  Store, Cell, RdmaAssignment, Callback, count_finished, ignore, client, cell, find, invoke, query,
  call, acquire, release, put,
}
use dlslime.Store.Frame.{invoke_lem, cell-acquire, cell-release, find-acquire}
use dlslime.Store.Calls.{invoke-Same}
use dlslime.Store.Waiting.{is_default, query-invoke, cell_of_find}
use dlslime.Store.Done.{find-invoke_other, find-release_other, find-release_held}
use dlslime.Context.{Qp}
use dlslime.WorkRequest.{post_send, post_recv, post_read_batch}
use dlslime.Dispatch.{
  Action, posted, posted_recv, overflow, unknown, full, Round, fits_window, dispatch,
  dispatch_queue, dispatch_front, post,
}

-- The code that an action stands for, if the callback is called.
abbrev pub code_of : Action → Option ℕ
code_of (posted wrs code) = none
code_of (posted_recv wr code) = none
code_of overflow = some 400
code_of unknown = some 401
code_of full = none

-- The calls of clients' functions that come of it.
abbrev pub calls_of : Option ℕ → Callback → List (ℕ × ℕ)
calls_of none callback = []
calls_of (some code) count_finished = []
calls_of (some code) ignore = []
calls_of (some code) (client f) = (f, code) ∷ []

-- The store behind `dispatch`.
data Stored (s : Store) (id : ℕ) (r : Round) : Type 0 where
  untouched : code_of r.action ≡ none → r.store ≡ s → Stored s id r
  let_go : code_of r.action ≡ none → r.store ≡ release s id → Stored s id r
  told :
      (code : ℕ) (s' : Store)
      → code_of r.action ≡ some code
      → invoke s id code ≡ ok s'
      → r.store ≡ release s' id
      → Stored s id r

post-Stored :
    (p : MemoryPool) (qpi : ℕ) (q : Qp) (s : Store) (id : ℕ) (a : RdmaAssignment) (ret : ℕ)
    (opcode : OpCode) (rest : List ℕ) {r : Round}
    → post p qpi q s id a ret opcode ≡ ok r
    → Stored s id
        (record r { qp = record (r.qp) { assign_queue = rest }; store = release r.store id })
unfolding post
post-Stored p qpi q s id a ret read rest h =
    let ((q', wrs, code), run, made) = >>=-eq-ok (post_read_batch p qpi q id a ret) _ h in
    rw (← ok-injective made) (let_go refl refl)
post-Stored p qpi q s id a ret send rest h =
    let ((q', wr, code), run, made) = >>=-eq-ok (post_send p q a ret) _ h in
    rw (← ok-injective made) (let_go refl refl)
post-Stored p qpi q s id a ret recv rest h =
    let ((q', wr, code), run, made) = >>=-eq-ok (post_recv p q a ret) _ h in
    rw (← ok-injective made) (let_go refl refl)
post-Stored p qpi q s id a ret (other n) rest h =
    let (s', run, made) = >>=-eq-ok (invoke s id 401) _ h in
    rw (← ok-injective made) (told 401 s' refl run refl)

dispatch-Stored :
    (p : MemoryPool) (qpi : ℕ) (q : Qp) (rest : List ℕ) (s : Store) (id : ℕ) (a : RdmaAssignment)
    (ret : ℕ) {r : Round}
    → dispatch p qpi q rest s id a ret ≡ ok r
    → Stored s id r
unfolding dispatch
dispatch-Stored p qpi q rest s id a ret {r} h = elim (Bool-cases (ltb max_send_wr a.batch_size)) [
  | inl large ↦
      let (s', run, made) = >>=-eq-ok (invoke s id 400) _ (rw large at h) in
      rw (← ok-injective made) (told 400 s' refl run refl)
  | inr small ↦ elim (Bool-cases (fits_window a.batch_size q)) [
    | inl fits ↦
        let (r', run, made) =
          >>=-eq-ok (post p qpi q s id a ret a.opcode) _ (rw (small, fits) at h) in
        rw (← ok-injective made) (post-Stored p qpi q s id a ret a.opcode rest run)
    | inr no_room ↦
        let made = ok-injective (rw (small, no_room) at h) in rw (← made) (untouched refl refl)
  ]
]

calls-acquire : (s : Store) (id : ℕ) → (acquire s id).calls ≡ s.calls
unfolding acquire put
calls-acquire s id = refl

calls-release : (s : Store) (id : ℕ) → (release s id).calls ≡ s.calls
unfolding release put
calls-release s id = refl

calls-call :
    (s : Store) (id code : ℕ) (c : Cell) (f : Callback)
    → cell s id ≡ some c
    → (call s id c.object.callback_info code f).calls ≡ s.calls ++ calls_of (some code) f
unfolding call put
calls-call s id code c count_finished h = rw h (sym (append-nil s.calls))
calls-call s id code c ignore h = sym (append-nil s.calls)
calls-call s id code c (client f) h = refl

-- What a round reports of the assignment `a` at the place `id`.
pub record Reports (s : Store) (id : ℕ) (a : RdmaAssignment) (act : Action) (s' : Store)
    : Type 0 where
  pub calls : s'.calls ≡ s.calls ++ calls_of (code_of act) a.callback_info.callback
  pub others : (j : ℕ) → id ≢ j → find s' j ≡ find s j
  pub told :
      (code : ℕ) (c : Cell)
      → code_of act ≡ some code
      → cell s id ≡ some c
      → 1 < c.refs
      → is_default a.callback_info.callback ≡ true
      → a.callback_info.finished + 1 < 2 ^ 31
      → query s' id ≡ ok true

calls-invoke :
    (s s' : Store) (id code : ℕ) (a : RdmaAssignment)
    → find s id ≡ ok a
    → invoke s id code ≡ ok s'
    → s'.calls ≡ s.calls ++ calls_of (some code) a.callback_info.callback
calls-invoke s s' id code a found run =
    let (c, at, same) = cell_of_find s id found in
    let made = ok-injective (sym (invoke_lem s id code c at) ∙ run) in
    rw (← made, ← same) (calls-call s id code c c.object.callback_info.callback at)

query-release_held :
    (s : Store) (id : ℕ) (c : Cell)
    → cell s id ≡ some c
    → 1 < c.refs
    → query (release s id) id ≡ query s id
unfolding query
query-release_held s id c at more = ground (arith, find-release_held s id c at more)

-- The object is told, and keeps a holder behind the round's two pointers.
query-told :
    (s s' : Store) (id code : ℕ) (a : RdmaAssignment) (c : Cell)
    → find s id ≡ ok a
    → invoke (acquire s id) id code ≡ ok s'
    → cell s id ≡ some c
    → 1 < c.refs
    → is_default a.callback_info.callback ≡ true
    → a.callback_info.finished + 1 < 2 ^ 31
    → query (release (release s' id) id) id ≡ ok true
query-told s s' id code a c found run at more default bound =
    let held = acquire s id in
    let c₁ : Cell = record c { refs = c.refs + 1 } in
    let at₁ : cell held id ≡ some c₁ = ground (arith, cell-acquire s id id) in
    let (c₂, at₂, same) = invoke-Same held s' id code c₁ id c₁ at₁ run at₁ in
    let c₃ : Cell = record c₂ { refs = c.refs } in
    let left : c₂.refs - 1 ≡ suc (c.refs - 1) = omega (arith, same.refs) in
    let whole : suc (c.refs - 1) ≡ c.refs = omega arith in
    let at₃ : cell (release s' id) id ≡ some c₃ =
      ground (arith, cell-release s' id id, left, whole) in
    let finished : query s' id ≡ ok true = ground (
      arith,
      query-invoke held s' id code id a (find-acquire s id id ∙ found) bound run,
      default,
    ) in
    query-release_held (release s' id) id c₃ at₃ more
    ∙ query-release_held s' id c₂ at₂ (omega (arith, same.refs))
    ∙ finished

Stored-Reports :
    (s : Store) (id : ℕ) (a : RdmaAssignment) (r : Round)
    → find s id ≡ ok a
    → Stored (acquire s id) id r
    → Reports s id a r.action (release r.store id)
Stored-Reports s id a r found (untouched act e) = record {
  calls =
      rw (act, e) (calls-release (acquire s id) id ∙ calls-acquire s id ∙ sym (append-nil s.calls));
  others = λ j apart. rw e (find-release_other (acquire s id) id j apart ∙ find-acquire s id j);
  told = λ code c known. cc;
}
Stored-Reports s id a r found (let_go act e) = record {
  calls =
      rw (act, e)
        (calls-release (release (acquire s id) id) id
          ∙ calls-release (acquire s id) id
          ∙ calls-acquire s id
          ∙ sym (append-nil s.calls));
  others = λ j apart. rw e (
      find-release_other (release (acquire s id) id) id j apart
      ∙ find-release_other (acquire s id) id j apart
      ∙ find-acquire s id j);
  told = λ code c known. cc;
}
Stored-Reports s id a r found (told code s' act run e) = record {
  calls =
      rw (act, e)
        (calls-release (release s' id) id
          ∙ calls-release s' id
          ∙ calls-invoke (acquire s id) s' id code a (find-acquire s id id ∙ found) run
          ∙ ap (λ l. l ++ calls_of (some code) a.callback_info.callback) (calls-acquire s id));
  others = λ j apart. rw e (
      find-release_other (release s' id) id j apart
      ∙ find-release_other s' id j apart
      ∙ find-invoke_other (acquire s id) s' id code j apart run
      ∙ find-acquire s id j);
  told = λ code' c known at more default bound.
      rw e (query-told s s' id code a c found run at more default bound);
}

dispatch_queue-Reports :
    (p : MemoryPool) (qpi : ℕ) (q : Qp) (queue : List ℕ) (s : Store) (ret id : ℕ) (rest : List ℕ)
    (a : RdmaAssignment) {r : Round}
    → queue ≡ id ∷ rest
    → find s id ≡ ok a
    → dispatch_queue p qpi q queue s ret ≡ ok r
    → Reports s id a r.action r.store
unfolding dispatch_queue
dispatch_queue-Reports p qpi q queue s ret id rest a e found h =
    let start = rw e at h in
    let (a', again, more) = >>=-eq-ok (find (acquire s id) id) _ start in
    let (r, run, made) = >>=-eq-ok (dispatch p qpi q rest (acquire s id) id a' ret) _ more in
    rw (← ok-injective made)
      (Stored-Reports s id a r found (dispatch-Stored p qpi q rest (acquire s id) id a' ret run))

pub dispatch_front-Reports :
    (p : MemoryPool) (qpi : ℕ) (q : Qp) (s : Store) (ret id : ℕ) (rest : List ℕ)
    (a : RdmaAssignment) {r : Round}
    → q.assign_queue ≡ id ∷ rest
    → find s id ≡ ok a
    → dispatch_front p qpi q s ret ≡ ok r
    → Reports s id a r.action r.store
unfolding dispatch_front
dispatch_front-Reports p qpi q s ret id rest a e found h =
    dispatch_queue-Reports p qpi q q.assign_queue s ret id rest a e found h
