-- ===== src/System/Alive.antt =====
-- An assignment lives as long as a pointer to it does: what the completions and the queue's own
-- pointers leave of it.
use dlslime.Prelude.{ℕ, suc, ◌-◌, ◌≤◌, ◌≡◌, refl, ap, ◌∙◌, some, List, [], ◌∷◌, arith, inl, inr}
use dlslime.MemoryPool.{MemoryPool}
use dlslime.Store.{Store, Cell, cell}
use dlslime.Store.Calls.{Same, Same-refl}
use dlslime.WorkRequest.Batch.{AllKnown}
use dlslime.Dispatch.Forward.{after_pop, cell-after_pop}
use dlslime.Dispatch.Thread.Drain.{Holds}
use dlslime.Completion.Single.{IsKnown}
use dlslime.System.Inv.{All}

-- An assignment that is there, with so many holders at least, whose keys are registered and whose
-- callback the polling thread knows.
pub record Alive (p : MemoryPool) (s : Store) (n id : ℕ) : Type 0 where
  pub held : Cell
  pub here : cell s id ≡ some held
  pub refs : n ≤ held.refs
  pub known : AllKnown p held.object.batch
  pub opcode : IsKnown held.object.callback_info.opcode

pub Alive-Same :
    (p : MemoryPool) (s s' : Store) (n id : ℕ) (h : Alive p s n id) (e : Cell)
    → cell s' id ≡ some e
    → Same h.held e
    → Alive p s' n id
Alive-Same p s s' n id h e there same = record {
  held = e;
  here = there;
  refs = omega (arith, h.refs, same.refs);
  known = rw same.batch h.known;
  opcode = rw same.opcode h.opcode;
}

pub AllAlive-kept :
    (p : MemoryPool) (s s' : Store) (n : ℕ) (ids : List ℕ)
    → ((id : ℕ) → Holds id ids → cell s' id ≡ cell s id)
    → All (Alive p s n) ids
    → All (Alive p s' n) ids
AllAlive-kept p s s' n [] kept h = tt
AllAlive-kept p s s' n (id ∷ ids) kept (h, hs) = (
  Alive-Same p s s' n id h h.held (kept id (inl refl) ∙ h.here) (Same-refl h.held),
  AllAlive-kept p s s' n ids (λ i k. kept i (inr k)) hs,
)

-- The pointer of the queue goes, the others stay.
pub cell-after_pop_held :
    (p : MemoryPool) (s : Store) (id : ℕ) (h : Alive p s 2 id)
    → cell (after_pop s id) id
      ≡ some (record { refs = suc (h.held.refs - 2); object = h.held.object })
cell-after_pop_held p s id h =
    let count : h.held.refs ≡ suc (suc (h.held.refs - 2)) = omega (arith, h.refs) in
    cell-after_pop s id (suc (h.held.refs - 2)) h.held.object
      (h.here ∙ ap (λ r. some (record { refs = r; object = h.held.object })) count)

pub Alive-after_pop :
    (p : MemoryPool) (s : Store) (id : ℕ) → Alive p s 2 id → Alive p (after_pop s id) 1 id
Alive-after_pop p s id h = record {
  held = record { refs = suc (h.held.refs - 2); object = h.held.object };
  here = cell-after_pop_held p s id h;
  refs = omega arith;
  known = h.known;
  opcode = h.opcode;
}
