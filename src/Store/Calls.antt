-- ===== src/Store/Calls.antt =====
-- A callback leaves the object that it belongs to in place.
use dlslime.Prelude.{
  ℕ, ◌≡◌, refl, sym, ap, ◌∙◌, some, ok, arith, add32, ◌==◌, Bool-cases, inl, inr, ok-injective,
}
use mathlib.Core.Option.{some-injective}
use dlslime.Store.{Store, Cell, Callback, count_finished, ignore, client, cell, call, invoke}
use dlslime.Store.Frame.{slot-set, slot_out, invoke_lem}

cell-call :
    (s : Store) (id code : ℕ) (c : Cell) (f : Callback)
    → cell s id ≡ some c
    → (d : Cell) × (cell (call s id c.object.callback_info code f) id ≡ some d)
      × (d.refs ≡ c.refs)
      × (d.object.callback_info.batch_size ≡ c.object.callback_info.batch_size)
unfolding call cell
cell-call s id code c count_finished h =
    let i = c.object.callback_info in
    let d : Cell = record c {
      object = record (c.object) { callback_info = record i { finished = add32 i.finished 1 } };
    } in
    (d, ground (arith, slot-set s.cells id id (some d), slot_out s.cells id), refl, refl)
cell-call s id code c ignore h = (c, h, refl, refl)
cell-call s id code c (client f) h = (c, h, refl, refl)

-- The callback of an object that is there can be called, and the object stays, with its holders.
pub invoke-here :
    (s : Store) (id code : ℕ) (c : Cell)
    → cell s id ≡ some c
    → (s' : Store) × (d : Cell) × (invoke s id code ≡ ok s')
      × (cell s' id ≡ some d)
      × (d.refs ≡ c.refs)
      × (d.object.callback_info.batch_size ≡ c.object.callback_info.batch_size)
invoke-here s id code c h =
    let (d, there, held, size) = cell-call s id code c c.object.callback_info.callback h in
    (
      call s id c.object.callback_info code c.object.callback_info.callback,
      d,
      invoke_lem s id code c h,
      there,
      held,
      size,
    )

-- The same assignment with the same holders, but for the count of its callback.
pub record Same (c d : Cell) : Type 0 where
  pub refs : d.refs ≡ c.refs
  pub batch : d.object.batch ≡ c.object.batch
  pub opcode : d.object.callback_info.opcode ≡ c.object.callback_info.opcode

pub Same-refl : (c : Cell) → Same c c
Same-refl c = record { refs = refl; batch = refl; opcode = refl }

call-Same :
    (s : Store) (id code : ℕ) (c : Cell) (f : Callback) (j : ℕ) (d : Cell)
    → cell s id ≡ some c
    → cell s j ≡ some d
    → (e : Cell) × (cell (call s id c.object.callback_info code f) j ≡ some e) × Same d e
unfolding call cell
call-Same s id code c count_finished j d h k =
    let i = c.object.callback_info in
    let c' : Cell = record c {
      object = record (c.object) { callback_info = record i { finished = add32 i.finished 1 } };
    } in
    elim (Bool-cases (id == j)) [
      | inl hit ↦
          let place : id ≡ j = ground arith in
          let same : c ≡ d = some-injective _ _ (sym h ∙ ap (cell s) place ∙ k) in
          (
            c',
            ground (arith, slot-set s.cells id j (some c'), slot_out s.cells id),
            rw (← same) (record { refs = refl; batch = refl; opcode = refl }),
          )
      | inr miss ↦ (d, ground (arith, slot-set s.cells id j (some c')), Same-refl d)
    ]
call-Same s id code c ignore j d h k = (d, k, Same-refl d)
call-Same s id code c (client f) j d h k = (d, k, Same-refl d)

-- The callback of one object leaves every object in place.
pub invoke-Same :
    (s s' : Store) (id code : ℕ) (c : Cell) (j : ℕ) (d : Cell)
    → cell s id ≡ some c
    → invoke s id code ≡ ok s'
    → cell s j ≡ some d
    → (e : Cell) × (cell s' j ≡ some e) × Same d e
invoke-Same s s' id code c j d h run k =
    let made : call s id c.object.callback_info code c.object.callback_info.callback ≡ s' =
      ok-injective (sym (invoke_lem s id code c h) ∙ run) in
    rw (← made) (call-Same s id code c c.object.callback_info.callback j d h k)
