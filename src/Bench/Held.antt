-- ===== src/Bench/Held.antt =====
-- The pointers that a client holds while it waits, and that a submission leads to something.
use dlslime.Prelude.{
  ℕ, suc, ◌<◌, ◌≡◌, ◌∙◌, Option, none, some, List, [], ◌∷◌, ◌++◌, length, arith, ok,
  get_elem?-of_lt, length-set, ap,
}
use dlslime.Assignment.{OpCode, AssignmentBatch}
use dlslime.Store.{Store, Cell, Callback, cell}
use dlslime.Store.Frame.{slot_out}
use dlslime.Context.{Context, select_qpi, qp_list_len}
use dlslime.Context.Submit.{Submitted, split, split_from, submit}
use dlslime.Context.Submit.Enqueue.{Placed, places, last_of, submit-Placed}

-- The pointer leads to an assignment that is there.
abbrev pub IsHeld : Store → Option ℕ → Type 0
IsHeld s none = ⊥
IsHeld s (some id) = (c : Cell) × (cell s id ≡ some c)

abbrev pub AllHeld : Store → List (Option ℕ) → Type 0
AllHeld s [] = Unit
AllHeld s (id ∷ ids) = IsHeld s id × AllHeld s ids

pub AllHeld-append :
    (s : Store) (xs ys : List (Option ℕ)) → AllHeld s xs → AllHeld s ys → AllHeld s (xs ++ ys)
AllHeld-append s [] ys hx hy = hy
AllHeld-append s (x ∷ xs) ys (h, hx) hy = (h, AllHeld-append s xs ys hx hy)

cell-lt : (s : Store) (id : ℕ) {c : Cell} → cell s id ≡ some c → id < length s.cells
unfolding cell
cell-lt s id h = ground (arith, slot_out s.cells id)

pub AllHeld-kept :
    (s s' : Store) (ids : List (Option ℕ))
    → ((id : ℕ) → id < length s.cells → cell s' id ≡ cell s id)
    → AllHeld s ids
    → AllHeld s' ids
AllHeld-kept s s' [] kept h = tt
AllHeld-kept s s' (none ∷ ids) kept (h, hs) = absurd h
AllHeld-kept s s' (some id ∷ ids) kept ((c, h), hs) =
    ((c, kept id (cell-lt s id h) ∙ h), AllHeld-kept s s' ids kept hs)

Placed-last :
    (opcode : OpCode) (callback : Option Callback) (s : Store) (n : ℕ) (before : Option ℕ)
    (piece : AssignmentBatch) (rest : List AssignmentBatch)
    → Placed opcode callback s n (piece ∷ rest)
    → IsHeld s (last_of before (places n (length (piece ∷ rest))))
Placed-last opcode callback s n before piece [] (h, hs) = (_, h)
Placed-last opcode callback s n before piece (next ∷ rest) (h, hs) =
    Placed-last opcode callback s (suc n) (some n) next rest hs

pub Placed-IsHeld :
    (opcode : OpCode) (callback : Option Callback) (s : Store) (n : ℕ)
    (pieces : List AssignmentBatch)
    → 0 < length pieces
    → Placed opcode callback s n pieces
    → IsHeld s (last_of none (places n (length pieces)))
Placed-IsHeld opcode callback s n [] h p = absurd (omega arith)
Placed-IsHeld opcode callback s n (piece ∷ rest) h p =
    Placed-last opcode callback s n none piece rest p

pub split_some : (batch : AssignmentBatch) → 0 < length batch → 0 < length (split batch)
unfolding split split_from
split_some [] h = h
split_some (a ∷ batch) h = ground arith

select_qpi-lt : (c : Context) → (select_qpi c).1 < qp_list_len
unfolding select_qpi
select_qpi-lt c = ground arith

-- A submission of some work succeeds, and the client holds what it is given besides what it has held.
pub submit-AllHeld :
    (c : Context) (s : Store) (opcode : OpCode) (work : AssignmentBatch) (batch : List (Option ℕ))
    → length c.qp_management ≡ qp_list_len
    → 0 < length work
    → AllHeld s batch
    → (r : Submitted) × (submit c s opcode work none ≡ ok r)
      × (length r.context.qp_management ≡ qp_list_len)
      × AllHeld r.store (batch ++ (r.result ∷ []))
submit-AllHeld c s opcode work batch qps some_work held =
    let (q, there) =
      get_elem?-of_lt c.qp_management (select_qpi c).1 (omega (arith, select_qpi-lt c, qps)) in
    let (r, run, context, placed, kept, last, turn) = submit-Placed c s opcode work none q there in
    let new =
      Placed-IsHeld opcode none r.store (length s.cells) (split work) (split_some work some_work)
        placed in
    (
      r,
      run,
      ap (λ (d : Context). length d.qp_management) context
          ∙ length-set c.qp_management (select_qpi c).1 _
          ∙ qps,
      AllHeld-append r.store batch (r.result ∷ []) (AllHeld-kept s r.store batch kept held)
          (rw last (new, tt)),
    )
