-- ===== src/System/Inv.antt =====
-- What holds of the queue and of the requests under way, whatever the store goes through.
use dlslime.Prelude.{
  ℕ, suc, ◌+◌, ◌≤◌, ◌<◌, ◌≡◌, refl, sym, ap, ◌∙◌, Option, none, some, List, [], ◌∷◌, ◌++◌, length,
  arith, ok, ok-injective,
}
use dlslime.Assignment.{OpCode, AssignmentBatch}
use dlslime.Store.{Store, RdmaAssignment, Callback, find, cell}
use dlslime.Store.Frame.{Keeps, SameShape, SameShape-refl, find_of_cell, find_of_same_cell}
use dlslime.Context.Submit.{split_step, enqueue, Enqueued}
use dlslime.Context.Submit.Split.{AllFit}
use dlslime.Context.Submit.Enqueue.{places, Placed, let_go-none, enqueue-Leaves}
use dlslime.WorkRequest.{CallbackInfoWithQpi}
use dlslime.System.{Flight, Extends}

pub Keeps-Extends : {s s' : Store} → Keeps s s' → Extends s s'
Keeps-Extends k = record { grows = omega (arith, k.size); shapes = λ id b h e. k.shapes id b e }

abbrev pub All {ℓ κ} : {A : Type ℓ} → (A → Type κ) → List A → Type κ
All Holds (a ∷ rest) = Holds a × All Holds rest
All Holds [] = Unit

pub All-append {ℓ κ} :
    {A : Type ℓ} (Holds : A → Type κ) (front back : List A)
    → All Holds front
    → All Holds back
    → All Holds (front ++ back)
All-append Holds (a ∷ rest) back (first, others) last =
    (first, All-append Holds rest back others last)
All-append Holds [] back none_first last = last

pub All-map {ℓ κ μ} :
    {A : Type ℓ} (Holds : A → Type κ) (After : A → Type μ) (list : List A)
    → ((a : A) → Holds a → After a)
    → All Holds list
    → All After list
All-map Holds After (a ∷ rest) f (first, others) = (f a first, All-map Holds After rest f others)
All-map Holds After [] f all = tt

-- An assignment as `submit` makes it.
pub record IsSound (Op : OpCode → Type 0) (a : RdmaAssignment) : Type 0 where
  pub size : a.batch_size ≡ length a.batch
  pub info_size : a.callback_info.batch_size ≡ a.batch_size
  pub some_work : 0 < length a.batch
  pub small : a.batch_size ≤ split_step
  pub allowed : Op a.opcode

IsSound-SameShape :
    (Op : OpCode → Type 0) {a b : RdmaAssignment} → SameShape a b → IsSound Op a → IsSound Op b
IsSound-SameShape Op m h = record {
  size = sym m.batch_size ∙ h.size ∙ ap length m.batch;
  info_size = sym m.info_size ∙ h.info_size ∙ m.batch_size;
  some_work = rw (← m.batch) h.some_work;
  small = rw (← m.batch_size) h.small;
  allowed = rw (← m.opcode) h.allowed;
}

abbrev pub Queued : (OpCode → Type 0) → Store → ℕ → Type 0
Queued Op s id = (id < length s.cells) × ((a : RdmaAssignment) → find s id ≡ ok a → IsSound Op a)

-- A request under way that carries a callback stands for as many slots as the callback gives back.
abbrev pub Flies : Store → Flight → Type 0
Flies s f =
    (c : CallbackInfoWithQpi)
    → f.wr_id ≡ some c
    → (c.info < length s.cells)
      × ((a : RdmaAssignment) → find s c.info ≡ ok a → a.callback_info.batch_size ≡ f.slots)

module _ {s s' : Store} (e : Extends s s') where
  pub Queued-Extends : (Op : OpCode → Type 0) (id : ℕ) → Queued Op s id → Queued Op s' id
  Queued-Extends Op id (below, sound) = (
    omega (arith, e.grows),
    λ b h. let (a, old, same) = e.shapes id b below h in IsSound-SameShape Op same (sound a old),
  )

  pub Flies-Extends : (f : Flight) → Flies s f → Flies s' f
  Flies-Extends f h c marked =
      let (below, sized) = h c marked in
      (
        omega (arith, e.grows),
        λ b g. let (a, old, same) = e.shapes c.info b below g in sym same.info_size ∙ sized a old,
      )

module _ (Op : OpCode → Type 0) (opcode : OpCode) (callback : Option Callback)
    (allowed : Op opcode) where
  Placed-Queued :
      (s : Store) (n : ℕ) (pieces : List AssignmentBatch)
      → AllFit split_step pieces
      → Placed opcode callback s n pieces
      → n + length pieces ≤ length s.cells
      → All (Queued Op s) (places n (length pieces))
  Placed-Queued s n [] fit at h = tt
  Placed-Queued s n (piece ∷ rest) (some_work, small, fit) (here, at) h = (
    (
      omega arith,
      λ a found. rw (ok-injective (sym found ∙ find_of_cell s n _ here)) (record {
        size = refl;
        info_size = refl;
        some_work = some_work;
        small = small;
        allowed = allowed;
      }),
    ),
    Placed-Queued s (suc n) rest fit at (omega arith),
  )

  abbrev after : Store → List ℕ → List AssignmentBatch → Enqueued
  after s queue pieces =
      enqueue opcode callback pieces (record { store = s; queue = queue; held = none })

  pub enqueue-Extends :
      (s : Store) (queue : List ℕ) (pieces : List AssignmentBatch)
      → Extends s (after s queue pieces).store
  enqueue-Extends s queue pieces =
      let v =
        enqueue-Leaves opcode callback pieces (record { store = s; queue = queue; held = none })
          tt in
      record {
        grows = omega (arith, v.size);
        shapes = λ id b below h. (
          b,
          find_of_same_cell s _ id (v.old id below ∙ let_go-none pieces id (cell s id)) h,
          SameShape-refl b,
        );
      }

  pub enqueue-Queued :
      (s : Store) (queue : List ℕ) (pieces : List AssignmentBatch)
      → AllFit split_step pieces
      → All (Queued Op s) queue
      → All (Queued Op (after s queue pieces).store) (after s queue pieces).queue
  enqueue-Queued s queue pieces fit old =
      let v =
        enqueue-Leaves opcode callback pieces (record { store = s; queue = queue; held = none })
          tt in
      let s' = (after s queue pieces).store in
      rw v.queue (
        All-append (Queued Op s') queue _
          (All-map (Queued Op s) (Queued Op s') queue
            (Queued-Extends (enqueue-Extends s queue pieces) Op) old)
          (Placed-Queued s' (length s.cells) pieces fit v.placed (omega (arith, v.size))))
