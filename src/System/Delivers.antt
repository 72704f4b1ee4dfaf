-- ===== src/System/Delivers.antt =====
-- What a run does for those who wait for its assignments.
use dlslime.Prelude.{
  ℕ, ◌+◌, ◌^◌, ◌<◌, ◌≡◌, refl, sym, ◌∙◌, true, List, [], ◌∷◌, ◌++◌, arith, ok, inl, inr, ◌==◌,
  Bool-cases,
}
use dlslime.Store.{Store, RdmaAssignment, cell, find, invoke, query}
use dlslime.Store.Frame.{find_of_cell}
use dlslime.Store.Waiting.{is_default, query-invoke}
use dlslime.Store.Done.{find-invoke_other}
use dlslime.MemoryPool.{MemoryPool}
use dlslime.Dispatch.Forward.{after_pop}
use dlslime.Dispatch.Thread.Drain.{Holds, cell-after_pop_other}
use dlslime.System.Alive.{Alive, cell-after_pop_held}
use dlslime.System.Distinct.{Distinct, Distinct-apart, Holds-append, Holds-front, Holds-back}

-- A client can wait for the assignment: it has the default callback, and its count does not overflow.
abbrev pub Waited : Store → ℕ → Type 0
Waited s id =
    (a : RdmaAssignment) × (find s id ≡ ok a)
    × (is_default a.callback_info.callback ≡ true)
    × (a.callback_info.finished + 1 < 2 ^ 31)

-- The callbacks of these assignments are called, and of no others.
pub record Delivers (s s' : Store) (ids : List ℕ) : Type 0 where
  pub told : (id : ℕ) → Holds id ids → Waited s id → query s' id ≡ ok true
  pub kept : (id : ℕ) → ¬ (Holds id ids) → find s' id ≡ find s id

pub Delivers-none : (s s' : Store) → ((id : ℕ) → find s' id ≡ find s id) → Delivers s s' []
Delivers-none s s' same = record { told = λ id h w. absurd h; kept = λ id h. same id }

told_one :
    (s s' : Store) (id code j : ℕ)
    → invoke s id code ≡ ok s'
    → j ≡ id
    → Waited s j
    → query s' j ≡ ok true
told_one s s' id code j run e (a, found, default, bound) =
    let found' : find s id ≡ ok a = rw (← e) found in
    rw e (ground (arith, query-invoke s s' id code id a found' bound run, default))

pub Delivers-one : (s s' : Store) (id code : ℕ) → invoke s id code ≡ ok s' → Delivers s s' (id ∷ [])
Delivers-one s s' id code run = record {
  told = λ j h w. elim h [ inl e ↦ told_one s s' id code j run e w | inr none ↦ absurd none ];
  kept = λ j h. find-invoke_other s s' id code j (λ e. h (inl (sym e))) run;
}

query-find : (s s' : Store) (id : ℕ) → find s' id ≡ find s id → query s' id ≡ query s id
unfolding query
query-find s s' id e = ground (arith, e)

pub Delivers-append :
    (s s' s'' : Store) (xs ys : List ℕ)
    → Distinct (xs ++ ys)
    → Delivers s s' xs
    → Delivers s' s'' ys
    → Delivers s s'' (xs ++ ys)
Delivers-append s s' s'' xs ys d v w = record {
  told = λ id h want. elim (Holds-append id xs ys h) [
    | inl first ↦
        query-find s' s'' id (w.kept id (λ k. Distinct-apart id xs ys d first k))
        ∙ v.told id first want
    | inr second ↦
        let (a, found, default, bound) = want in
        w.told id second
          (a, v.kept id (λ k. Distinct-apart id xs ys d k second) ∙ found, default, bound)
  ];
  kept = λ id h.
      w.kept id (λ k. h (Holds-back id xs ys k)) ∙ v.kept id (λ k. h (Holds-front id xs ys k));
}

find_of_equal_cells : (s s' : Store) (id : ℕ) → cell s id ≡ cell s' id → find s id ≡ find s' id
unfolding find
find_of_equal_cells s s' id e = rw e refl

-- The pointer of the queue goes.
pub find-after_pop :
    (p : MemoryPool) (s : Store) (id j : ℕ) → Alive p s 2 id → find (after_pop s id) j ≡ find s j
find-after_pop p s id j h = elim (Bool-cases (id == j)) [
  | inl hit ↦
      let e : id ≡ j = ground arith in
      rw (← e) (
        find_of_cell (after_pop s id) id _ (cell-after_pop_held p s id h)
        ∙ sym (find_of_cell s id h.held h.here))
  | inr miss ↦ find_of_equal_cells (after_pop s id) s j (cell-after_pop_other s id j (ground arith))
]
