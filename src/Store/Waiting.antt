-- ===== src/Store/Waiting.antt =====
-- `wait` and `query` of an assignment: which calls of callbacks end the waiting.
use dlslime.Prelude.{
  ℕ, ◌+◌, ◌^◌, ◌<◌, ◌≡◌, refl, sym, ◌∙◌, Bool, true, false, ◌&&◌, some, List, [], ◌∷◌, Result, ok,
  ◌>>=◌, arith, ◌==◌, if◌then◌else◌, Option-cases, inl, inr, ok-injective, >>=-eq-ok, add32,
}
use dlslime.Store.{
  Store, Cell, RdmaAssignment, Callback, count_finished, ignore, client, cell, find, invoke, query,
  wait_all, call,
}
use dlslime.Store.Frame.{slot-set, slot_out, invoke_lem}

abbrev pub is_default : Callback → Bool
is_default count_finished = true
is_default ignore = false
is_default (client f) = false

query-call :
    (s : Store) (id code j : ℕ) (c : Cell) (f : Callback)
    → cell s id ≡ some c
    → c.object.callback_info.finished + 1 < 2 ^ 31
    → query (call s id c.object.callback_info code f) j
      ≡ (if id == j && is_default f then ok true else query s j)
unfolding query call
query-call s id code j c count_finished e h =
    let i = c.object.callback_info in
    let new : Cell = record c {
      object = record (c.object) { callback_info = record i { finished = add32 i.finished 1 } };
    } in
    ground (arith, slot-set s.cells id j (some new), slot_out s.cells id)
query-call s id code j c ignore e h = ground arith
query-call s id code j c (client f) e h = ground arith

pub cell_of_find :
    (s : Store) (id : ℕ) {a : RdmaAssignment}
    → find s id ≡ ok a
    → (c : Cell) × (cell s id ≡ some c) × (c.object ≡ a)
unfolding find
cell_of_find s id {a} h = elim (Option-cases (cell s id)) [
  | inl gone ↦ cc
  | inr (c, e) ↦ (c, e, ground arith)
]

-- What a call of an assignment's callback changes for those who wait: it ends the waiting for that
-- assignment if its callback is the default one, and otherwise, and for every other assignment,
-- `query` answers as before. The assignment has been finished fewer than 2^31 - 1 times.
pub query-invoke :
    (s s' : Store) (id code j : ℕ) (a : RdmaAssignment)
    → find s id ≡ ok a
    → a.callback_info.finished + 1 < 2 ^ 31
    → invoke s id code ≡ ok s'
    → query s' j ≡ (if id == j && is_default a.callback_info.callback then ok true else query s j)
query-invoke s s' id code j a h bound e =
    let (c, at, same) = cell_of_find s id h in
    let made = ok-injective (sym (invoke_lem s id code c at) ∙ e) in
    rw (← made, ← same)
      (query-call s id code j c c.object.callback_info.callback at (rw (← same) at bound))

pub find-call :
    (s : Store) (id code j : ℕ) (c : Cell) (f : Callback)
    → cell s id ≡ some c
    → (id == j && is_default f) ≡ false
    → find (call s id c.object.callback_info code f) j ≡ find s j
unfolding find call
find-call s id code j c count_finished e h =
    let i = c.object.callback_info in
    let new : Cell = record c {
      object = record (c.object) { callback_info = record i { finished = add32 i.finished 1 } };
    } in
    ground (arith, slot-set s.cells id j (some new))
find-call s id code j c ignore e h = refl
find-call s id code j c (client f) e h = refl

custom_at :
    (s : Store) (id j : ℕ) (c : Cell) (a : RdmaAssignment)
    → cell s id ≡ some c
    → find s j ≡ ok a
    → is_default a.callback_info.callback ≡ false
    → (id == j && is_default c.object.callback_info.callback) ≡ false
unfolding find
custom_at s id j c a at h custom = ground arith

find-invoke :
    (s s' : Store) (id code j : ℕ) (a : RdmaAssignment)
    → find s j ≡ ok a
    → is_default a.callback_info.callback ≡ false
    → invoke s id code ≡ ok s'
    → find s' j ≡ ok a
unfolding invoke find
find-invoke s s' id code j a h custom e = elim (Option-cases (cell s id)) [
  | inl gone ↦ cc
  | inr (c, at) ↦
      let made = ok-injective (sym (invoke_lem s id code c at) ∙ e) in
      rw (← made) (
        find-call s id code j c c.object.callback_info.callback at
          (custom_at s id j c a at h custom)
        ∙ h)
]

-- Callbacks called in a row, each with a code.
unfoldable pub invoke_all : Store → List (ℕ × ℕ) → Result Store
invoke_all s [] = ok s
invoke_all s ((id, code) ∷ calls) = do s' ← invoke s id code; invoke_all s' calls

find-invoke_all :
    (s s' : Store) (calls : List (ℕ × ℕ)) (j : ℕ) (a : RdmaAssignment)
    → find s j ≡ ok a
    → is_default a.callback_info.callback ≡ false
    → invoke_all s calls ≡ ok s'
    → find s' j ≡ ok a
unfolding invoke_all
find-invoke_all s s' [] j a h custom e = rw (← ok-injective e) h
find-invoke_all s s' ((id, code) ∷ calls) j a h custom e =
    let (t, step, rest) = >>=-eq-ok (invoke s id code) (λ t. invoke_all t calls) e in
    find-invoke_all t s' calls j a (find-invoke s t id code j a h custom step) custom rest

-- An assignment that a client submits with a callback of its own has no use for `wait`: whichever
-- callbacks are called, its own any number of times, `query` answers no and `wait` does not return.
pub query-invoke_all_custom :
    (s s' : Store) (calls : List (ℕ × ℕ)) (j : ℕ) (a : RdmaAssignment)
    → find s j ≡ ok a
    → is_default a.callback_info.callback ≡ false
    → a.callback_info.finished ≡ 0
    → invoke_all s calls ≡ ok s'
    → (query s' j ≡ ok false) × (wait_all s' (some j ∷ []) ≡ ok false)
unfolding query wait_all
query-invoke_all_custom s s' calls j a h custom fresh e =
    ground (arith, find-invoke_all s s' calls j a h custom e)
