-- ===== src/Context/Submit/Enqueue.antt =====
-- What `submit` leaves in the store and in the queue.
use dlslime.Prelude.{
  ℕ, zero, suc, ◌+◌, ◌<◌, ◌≡◌, refl, sym, ap, ◌∙◌, Option, none, some, List, [], ◌∷◌, ◌++◌, length,
  get_elem?, set, arith, ◌==◌, if◌then◌else◌, ok, append_assoc, append-nil, pos,
}
use dlslime.Assignment.{OpCode, AssignmentBatch}
use dlslime.Store.{
  Store, Callback, count_finished, ignore, Cell, RdmaAssignment, new_rdma_assignment, make_shared,
  acquire, cell, dropped,
}
use dlslime.Store.Frame.{
  cell-acquire, cell-release, cell-make_shared_new, cell-make_shared_old, size-make_shared,
  size-acquire, size-release, make_shared-place,
}
use dlslime.Context.{Context, Qp, select_qpi}
use dlslime.Context.Selection.{IsNext, select_qpi-IsNext}
use dlslime.Context.Submit.{
  split, enqueue, Enqueued, Submitted, submit, release_held, split_callback,
}

-- The places from `n` on.
abbrev pub places : ℕ → ℕ → List ℕ
places n zero = []
places n (suc k) = n ∷ places (suc n) k

-- The queue holds every piece's assignment, and the caller holds the last one.
abbrev pub refs_of : List AssignmentBatch → ℕ
refs_of [] = 2
refs_of (piece ∷ rest) = 1

-- The last piece has the caller's callback, or the default one, and the others an empty one.
abbrev pub callback_of : List AssignmentBatch → Option Callback → Callback
callback_of [] none = count_finished
callback_of [] (some f) = f
callback_of (piece ∷ rest) callback = ignore

-- An assignment of a piece that nothing has happened to.
abbrev pub untouched : OpCode → AssignmentBatch → Callback → RdmaAssignment
untouched opcode piece callback = record {
  opcode = opcode;
  batch = piece;
  batch_size = length piece;
  callback_info = record {
    callback = callback;
    opcode = opcode;
    batch_size = length piece;
    finished = 0;
  };
}

new_rdma_assignment-untouched :
    (opcode : OpCode) (piece : AssignmentBatch) (rest : List AssignmentBatch)
    (callback : Option Callback)
    → new_rdma_assignment opcode piece (split_callback rest callback)
      ≡ untouched opcode piece (callback_of rest callback)
new_rdma_assignment-untouched opcode piece [] none = refl
new_rdma_assignment-untouched opcode piece [] (some f) = refl
new_rdma_assignment-untouched opcode piece (next ∷ rest) callback = refl

-- The pieces' assignments stand in the store from place `n` on.
abbrev pub Placed : OpCode → Option Callback → Store → ℕ → List AssignmentBatch → Type 0
Placed opcode callback s n [] = Unit
Placed opcode callback s n (piece ∷ rest) =
    (cell s n
      ≡ some (record {
        refs = refs_of rest;
        object = untouched opcode piece (callback_of rest callback);
      }))
    × Placed opcode callback s (suc n) rest

abbrev pub let_go : List AssignmentBatch → Option ℕ → ℕ → Option Cell → Option Cell
let_go [] held id c = c
let_go (piece ∷ rest) none id c = c
let_go (piece ∷ rest) (some h) id c = if h == id then dropped c else c

-- The last of the places, or what was held before.
abbrev pub last_of : Option ℕ → List ℕ → Option ℕ
last_of held [] = held
last_of held (id ∷ ids) = last_of (some id) ids

abbrev pub Below : Option ℕ → ℕ → Type 0
Below none n = Unit
Below (some h) n = h < n

size-release_held :
    (s : Store) (held : Option ℕ) → length (release_held s held).cells ≡ length s.cells
size-release_held s none = refl
size-release_held s (some h) = size-release s h

cell-release_held :
    (s : Store) (held : Option ℕ) (id : ℕ) (piece : AssignmentBatch) (rest : List AssignmentBatch)
    → cell (release_held s held) id ≡ let_go (piece ∷ rest) held id (cell s id)
cell-release_held s none id piece rest = refl
cell-release_held s (some h) id piece rest = cell-release s h id

let_go-Below :
    (held : Option ℕ) (n : ℕ) (piece : AssignmentBatch) (rest : List AssignmentBatch)
    (c : Option Cell)
    → Below held n
    → let_go (piece ∷ rest) held n c ≡ c
let_go-Below none n piece rest c b = refl
let_go-Below (some h) n piece rest c b = ground arith

let_go_other :
    (rest : List AssignmentBatch) (n id : ℕ) (c : Option Cell)
    → id < n
    → let_go rest (some n) id c ≡ c
let_go_other [] n id c h = refl
let_go_other (piece ∷ rest) n id c h = ground arith

pub let_go-none :
    (pieces : List AssignmentBatch) (id : ℕ) (c : Option Cell) → let_go pieces none id c ≡ c
let_go-none [] id c = refl
let_go-none (piece ∷ rest) id c = refl

let_go_self :
    (rest : List AssignmentBatch) (n : ℕ) (a : RdmaAssignment)
    → let_go rest (some n) n (some (record { refs = 2; object = a }))
      ≡ some (record { refs = refs_of rest; object = a })
let_go_self [] n a = refl
let_go_self (piece ∷ rest) n a = ground arith

module _ (opcode : OpCode) (callback : Option Callback) where
  abbrev next : AssignmentBatch → List AssignmentBatch → Enqueued → Enqueued
  next piece rest e = record {
    store =
        acquire
          (release_held
            (make_shared e.store
              (new_rdma_assignment opcode piece (split_callback rest callback))).0
            e.held)
          (length e.store.cells);
    queue = e.queue ++ (length e.store.cells ∷ []);
    held = some (length e.store.cells);
  }

  enqueue_next :
      (piece : AssignmentBatch) (rest : List AssignmentBatch) (e : Enqueued)
      → enqueue opcode callback (piece ∷ rest) e ≡ enqueue opcode callback rest (next piece rest e)
  unfolding enqueue
  enqueue_next piece rest e =
      rw (
        make_shared-place e.store (new_rdma_assignment opcode piece (split_callback rest callback)))

  size-next :
      (piece : AssignmentBatch) (rest : List AssignmentBatch) (e : Enqueued)
      → length (next piece rest e).store.cells ≡ suc (length e.store.cells)
  size-next piece rest e =
      let made =
        (make_shared e.store (new_rdma_assignment opcode piece (split_callback rest callback))).0 in
      omega (
        arith,
        size-acquire (release_held made e.held) (length e.store.cells),
        size-release_held made e.held,
        size-make_shared e.store (new_rdma_assignment opcode piece (split_callback rest callback)),
      )

  -- The new object has two holders, the one held before has one fewer, and no other object changes.
  cell-next_new :
      (piece : AssignmentBatch) (rest : List AssignmentBatch) (e : Enqueued)
      → Below e.held (length e.store.cells)
      → cell (next piece rest e).store (length e.store.cells)
        ≡ some (record {
          refs = 2;
          object = new_rdma_assignment opcode piece (split_callback rest callback);
        })
  cell-next_new piece rest e b =
      let a = new_rdma_assignment opcode piece (split_callback rest callback) in
      let n = length e.store.cells in
      let made = (make_shared e.store a).0 in
      ground (
        arith,
        cell-acquire (release_held made e.held) n n,
        cell-release_held made e.held n piece rest,
        let_go-Below e.held n piece rest (cell made n) b,
        cell-make_shared_new e.store a,
      )

  cell-next_old :
      (piece : AssignmentBatch) (rest : List AssignmentBatch) (e : Enqueued) (id : ℕ)
      → id < length e.store.cells
      → cell (next piece rest e).store id ≡ let_go (piece ∷ rest) e.held id (cell e.store id)
  cell-next_old piece rest e id h =
      let a = new_rdma_assignment opcode piece (split_callback rest callback) in
      let made = (make_shared e.store a).0 in
      ground (
        arith,
        cell-acquire (release_held made e.held) (length e.store.cells) id,
        cell-release_held made e.held id piece rest,
        cell-make_shared_old e.store a id h,
      )

  -- What the loop leaves behind.
  pub record Leaves (pieces : List AssignmentBatch) (e r : Enqueued) : Type 0 where
    pub size : length r.store.cells ≡ length e.store.cells + length pieces
    pub queue : r.queue ≡ e.queue ++ places (length e.store.cells) (length pieces)
    pub held : r.held ≡ last_of e.held (places (length e.store.cells) (length pieces))
    pub placed : Placed opcode callback r.store (length e.store.cells) pieces
    pub old :
        (id : ℕ)
        → id < length e.store.cells
        → cell r.store id ≡ let_go pieces e.held id (cell e.store id)

  pub enqueue-Leaves :
      (pieces : List AssignmentBatch) (e : Enqueued)
      → Below e.held (length e.store.cells)
      → Leaves pieces e (enqueue opcode callback pieces e)
  unfolding enqueue
  enqueue-Leaves [] e b = record {
    size = omega arith;
    queue = sym (append-nil e.queue);
    held = refl;
    placed = tt;
    old = λ id h. refl;
  }
  enqueue-Leaves (piece ∷ rest) e b =
      let n = length e.store.cells in
      let e' = next piece rest e in
      let size = size-next piece rest e in
      let ih = enqueue-Leaves rest e' (rw size (omega arith)) in
      rw (enqueue_next piece rest e) (record {
        size = omega (arith, size, ih.size);
        queue = (rw size at ih.queue) ∙ append_assoc e.queue (n ∷ []) _;
        held = rw size at ih.held;
        placed = (
          ih.old n (omega (arith, size))
              ∙ (rw (cell-next_new piece rest e b) (let_go_self rest n _))
              ∙ ap (λ a. some (record { refs = refs_of rest; object = a }))
                  (new_rdma_assignment-untouched opcode piece rest callback),
          rw size at ih.placed,
        );
        old = λ id h.
            ih.old id (omega (arith, size))
            ∙ let_go_other rest n id _ h
            ∙ cell-next_old piece rest e id h;
      })

-- The queue pair that `submit` chooses gets one assignment for each piece of the batch, at the end
-- of its queue and in order, and no other queue pair changes. The assignments stand in new places:
-- the last one has the caller's callback, or the default one, and is held by the queue and by the caller, the others have
-- an empty callback and are held by the queue alone. No other object changes. The result is
-- the last assignment, and null for an empty batch. The queue pair that is chosen is the next in turn:
-- the first one at the first submission, then the one behind the last, and the first again behind the
-- fourth. The context is supposed to have the queue
-- pair that the selection names.
pub submit-Placed :
    (c : Context) (s : Store) (opcode : OpCode) (batch : AssignmentBatch)
    (callback : Option Callback) (q : Qp)
    → get_elem? c.qp_management (select_qpi c).1 ≡ some q
    → let n = length s.cells in
      let ids = places n (length (split batch)) in
      (r : Submitted) × (submit c s opcode batch callback ≡ ok r)
      × (r.context ≡ record c {
        last_qp_selection = pos (select_qpi c).1;
        qp_management =
            set c.qp_management
              (select_qpi c).1
              (record q { assign_queue = q.assign_queue ++ ids });
      })
      × Placed opcode callback r.store n (split batch)
      × ((id : ℕ) → id < n → cell r.store id ≡ cell s id)
      × (r.result ≡ last_of none ids)
      × ((i : ℕ) → IsNext c.last_qp_selection 4 i → (select_qpi c).1 ≡ i)
unfolding submit select_qpi
submit-Placed c s opcode batch callback q found =
    let start : Enqueued = record { store = s; queue = q.assign_queue; held = none } in
    let v = enqueue-Leaves opcode callback (split batch) start tt in
    let e = enqueue opcode callback (split batch) start in
    let r : Submitted = record {
      context = record c {
        last_qp_selection = pos (select_qpi c).1;
        qp_management = set c.qp_management (select_qpi c).1 (record q { assign_queue = e.queue });
      };
      store = e.store;
      result = e.held;
    } in
    (
      r,
      rw found refl,
      rw v.queue refl,
      v.placed,
      λ id h. v.old id h ∙ let_go-none (split batch) id _,
      v.held,
      λ i turn. select_qpi-IsNext c i turn,
    )
