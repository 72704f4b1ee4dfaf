-- ===== src/Context/Destroy.antt =====
-- `~RDMAContext` of csrc/engine/rdma/rdma_context.h: what becomes of the assignments that still stand in the
-- queues when the threads of the context have ended.
use dlslime.Prelude.{
  ℕ, zero, suc, ◌+◌, ◌-◌, ◌<◌, ◌≡◌, refl, sym, ap, ◌∙◌, Bool, Option, none, some, List, [], ◌∷◌,
  map, arith, ◌==◌, ltb, if◌then◌else◌,
}
use native.Mathlib.Nat.{zero-add}
use dlslime.Store.{RdmaAssignment, fewer, Store, Cell, cell, dropped, release, query, find, put}
use dlslime.Store.Frame.{cell-release}
use dlslime.Context.{Context, Qp}
use dlslime.Context.Lifecycle.{stop_future, stopped_qp}

-- The pointers of a queue end with it.
unfoldable release_queue : List ℕ → Store → Store
release_queue [] s = s
release_queue (id ∷ ids) s = release_queue ids (release s id)

unfoldable release_queues : List Qp → Store → Store
unfolding release_queue
release_queues [] s = s
release_queues (q ∷ qs) s = release_queues qs (release_queue q.assign_queue s)

-- The store, and whether the polling thread is woken by a request.
unfoldable pub destroy : Context → Store → Store × Bool
unfolding release_queues
destroy c s =
    let (stopped, woken) = stop_future c in (release_queues stopped.qp_management s, woken)

-- How often an assignment stands in a queue, and in those of a context.
abbrev pub times : ℕ → List ℕ → ℕ
times id [] = 0
times id (i ∷ ids) = let rest = times id ids in if i == id then suc rest else rest

abbrev pub queued : ℕ → List Qp → ℕ
queued id [] = 0
queued id (q ∷ qs) = times id q.assign_queue + queued id qs

-- An object after so many pointers to it have ended.
abbrev pub without : ℕ → Cell → Option Cell
without n c = if ltb n c.refs then some (record c { refs = c.refs - n }) else none

abbrev drops : ℕ → Option Cell → Option Cell
drops zero o = o
drops (suc n) o = drops n (dropped o)

drops-none : (n : ℕ) → drops n none ≡ none
drops-none zero = refl
drops-none (suc n) = drops-none n

drops-fewer :
    (n k : ℕ) (a : RdmaAssignment)
    → drops n (fewer k a) ≡ without n (record { refs = k; object = a })
drops-fewer n zero a = drops-none n ∙ ground arith
drops-fewer zero (suc k) a = ground arith
drops-fewer (suc n) (suc k) a =
    let one : suc k - 1 ≡ k = omega arith in
    ap (λ m. drops n (fewer m a)) one ∙ drops-fewer n k a ∙ ground arith

some-fewer :
    (k : ℕ) (a : RdmaAssignment) → 0 < k → some (record { refs = k; object = a }) ≡ fewer k a
some-fewer zero a h = absurd (omega arith)
some-fewer (suc k) a h = refl

drops-without : (n : ℕ) (c : Cell) → 0 < c.refs → drops n (some c) ≡ without n c
drops-without n c h = ap (drops n) (some-fewer c.refs c.object h) ∙ drops-fewer n c.refs c.object

drops-add : (m n : ℕ) (o : Option Cell) → drops n (drops m o) ≡ drops (m + n) o
drops-add zero n o = ap (λ k. drops k o) (sym (zero-add n))
drops-add (suc m) n o =
    let next : suc (m + n) ≡ suc m + n = omega arith in
    drops-add m n (dropped o) ∙ ap (λ k. drops k o) next

cell-release_queue :
    (ids : List ℕ) (s : Store) (id : ℕ)
    → cell (release_queue ids s) id ≡ drops (times id ids) (cell s id)
unfolding release_queue
cell-release_queue [] s id = refl
cell-release_queue (i ∷ ids) s id =
    cell-release_queue ids (release s i) id
    ∙ ap (drops (times id ids)) (cell-release s i id)
    ∙ ground arith

cell-release_queues :
    (qs : List Qp) (s : Store) (id : ℕ)
    → cell (release_queues qs s) id ≡ drops (queued id qs) (cell s id)
unfolding release_queues
cell-release_queues [] s id = refl
cell-release_queues (q ∷ qs) s id =
    cell-release_queues qs (release_queue q.assign_queue s) id
    ∙ ap (drops (queued id qs)) (cell-release_queue q.assign_queue s id)
    ∙ drops-add (times id q.assign_queue) (queued id qs) (cell s id)

queued-stopped : (id : ℕ) (qs : List Qp) → queued id (map stopped_qp qs) ≡ queued id qs
queued-stopped id [] = refl
queued-stopped id (q ∷ qs) = ground (arith, queued-stopped id qs)

calls-release_queue : (ids : List ℕ) (s : Store) → (release_queue ids s).calls ≡ s.calls
unfolding release_queue release put
calls-release_queue [] s = refl
calls-release_queue (id ∷ ids) s = calls-release_queue ids (release s id)

calls-release_queues : (qs : List Qp) (s : Store) → (release_queues qs s).calls ≡ s.calls
unfolding release_queues
calls-release_queues [] s = refl
calls-release_queues (q ∷ qs) s =
    calls-release_queues qs (release_queue q.assign_queue s) ∙ calls-release_queue q.assign_queue s

stop_future-queues :
    (c : Context) → (stop_future c).0.qp_management ≡ map stopped_qp c.qp_management
unfolding stop_future
stop_future-queues c = ground arith

query-without :
    (s s' : Store) (id n : ℕ) (c : Cell)
    → cell s id ≡ some c
    → cell s' id ≡ without n c
    → n < c.refs
    → query s' id ≡ query s id
unfolding query find
query-without s s' id n c at left more = ground (arith, at, left)

-- The destructor of a context calls no callback for what still stands in its queues: the calls of
-- clients' functions stay as they are, and an assignment loses one pointer for each of its places in
-- the queues. One that others hold besides is left as it was, so that `query`, which `wait` waits for,
-- answers as before; one that the queues alone hold is destroyed. The assignment is supposed to be
-- there.
pub destroy-cell :
    (c : Context) (s : Store) (id : ℕ) (h : Cell)
    → cell s id ≡ some h
    → 0 < h.refs
    → ((destroy c s).0.calls ≡ s.calls)
      × (cell (destroy c s).0 id ≡ without (queued id c.qp_management) h)
      × (queued id c.qp_management < h.refs → query (destroy c s).0 id ≡ query s id)
unfolding destroy
destroy-cell c s id h at held =
    let qs = (stop_future c).0.qp_management in
    let same : queued id qs ≡ queued id c.qp_management =
      ap (queued id) (stop_future-queues c) ∙ queued-stopped id c.qp_management in
    let after : cell (release_queues qs s) id ≡ without (queued id c.qp_management) h =
      cell-release_queues qs s id
      ∙ ap (drops (queued id qs)) at
      ∙ drops-without (queued id qs) h held
      ∙ ap (λ n. without n h) same in
    (
      calls-release_queues qs s,
      after,
      λ more. query-without s _ id (queued id c.qp_management) h at after more,
    )
