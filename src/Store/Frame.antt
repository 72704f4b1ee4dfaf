-- ===== src/Store/Frame.antt =====
-- What the operations on the store leave as it is.
use dlslime.Prelude.{
  ℕ, zero, suc, ◌+◌, ◌≤◌, ◌<◌, ◌≡◌, refl, sym, ◌∙◌, ◌&&◌, Option, none, some, List, [], ◌∷◌, length,
  get_elem?, set, ok, err, arith, ltb, ◌==◌, if◌then◌else◌, length-set, length-append,
  get_elem?-append_left, get_elem?-append_length, Bool-cases, Option-cases, use_after_free, inl,
  inr, ok-injective,
}
use dlslime.Store.{
  Store, Cell, RdmaAssignment, Callback, count_finished, ignore, client, cell, find, make_shared,
  acquire, release, invoke, put, copied, dropped, flatten, call, with_callback_info,
}

pub slot-set :
    (cs : List (Option Cell)) (i j : ℕ) (c : Option Cell)
    → flatten (get_elem? (set cs i c) j)
      ≡ (if i == j && ltb i (length cs) then c else flatten (get_elem? cs j))
slot-set [] i j c = ground arith
slot-set (x ∷ cs) zero zero c = ground arith
slot-set (x ∷ cs) zero (suc j) c = ground arith
slot-set (x ∷ cs) (suc i) zero c = ground arith
slot-set (x ∷ cs) (suc i) (suc j) c = ground (arith, slot-set cs i j c)

pub slot_out : (cs : List (Option Cell)) (i : ℕ) → length cs ≤ i → flatten (get_elem? cs i) ≡ none
slot_out [] i h = refl
slot_out (x ∷ cs) zero h = absurd (omega arith)
slot_out (x ∷ cs) (suc i) h = slot_out cs i (omega arith)

pub cell-acquire :
    (s : Store) (id j : ℕ)
    → cell (acquire s id) j ≡ (if id == j then copied (cell s j) else cell s j)
unfolding acquire
cell-acquire s id j =
    ground (arith, slot-set s.cells id j (copied (cell s id)), slot_out s.cells id)

pub cell-release :
    (s : Store) (id j : ℕ)
    → cell (release s id) j ≡ (if id == j then dropped (cell s j) else cell s j)
unfolding release
cell-release s id j =
    ground (arith, slot-set s.cells id j (dropped (cell s id)), slot_out s.cells id)

-- All but the count of an assignment's `callback_info`.
pub record SameShape (a b : RdmaAssignment) : Type 0 where
  pub opcode : a.opcode ≡ b.opcode
  pub batch : a.batch ≡ b.batch
  pub batch_size : a.batch_size ≡ b.batch_size
  pub info_opcode : a.callback_info.opcode ≡ b.callback_info.opcode
  pub info_size : a.callback_info.batch_size ≡ b.callback_info.batch_size
  pub callback : a.callback_info.callback ≡ b.callback_info.callback

-- Every object that is left was there before, with the same shape.
pub record Keeps (s s' : Store) : Type 0 where
  pub size : length s'.cells ≡ length s.cells
  pub shapes :
      (id : ℕ) (b : RdmaAssignment)
      → find s' id ≡ ok b
      → (a : RdmaAssignment) × (find s id ≡ ok a) × SameShape a b

pub SameShape-refl : (a : RdmaAssignment) → SameShape a a
SameShape-refl a = record {
  opcode = refl;
  batch = refl;
  batch_size = refl;
  info_opcode = refl;
  info_size = refl;
  callback = refl;
}

pub Keeps-refl : (s : Store) → Keeps s s
Keeps-refl s = record { size = refl; shapes = λ id b h. (b, h, SameShape-refl b) }

SameShape-trans : {a b c : RdmaAssignment} → SameShape a b → SameShape b c → SameShape a c
SameShape-trans h k = record {
  opcode = h.opcode ∙ k.opcode;
  batch = h.batch ∙ k.batch;
  batch_size = h.batch_size ∙ k.batch_size;
  info_opcode = h.info_opcode ∙ k.info_opcode;
  info_size = h.info_size ∙ k.info_size;
  callback = h.callback ∙ k.callback;
}

pub Keeps-trans : {s t u : Store} → Keeps s t → Keeps t u → Keeps s u
Keeps-trans h k = record {
  size = k.size ∙ h.size;
  shapes = λ id c e.
      let (b, e', m) = k.shapes id c e in
      let (a, e'', n) = h.shapes id b e' in (a, e'', SameShape-trans n m);
}

pub find-acquire : (s : Store) (id j : ℕ) → find (acquire s id) j ≡ find s j
unfolding find
find-acquire s id j = ground (arith, cell-acquire s id j)

pub size-acquire : (s : Store) (id : ℕ) → length (acquire s id).cells ≡ length s.cells
unfolding acquire
size-acquire s id = length-set s.cells id _

pub size-release : (s : Store) (id : ℕ) → length (release s id).cells ≡ length s.cells
unfolding release
size-release s id = length-set s.cells id _

pub acquire-Keeps : (s : Store) (id : ℕ) → Keeps s (acquire s id)
acquire-Keeps s id = record {
  size = size-acquire s id;
  shapes = λ j b h. (b, sym (find-acquire s id j) ∙ h, SameShape-refl b);
}

find-release :
    (s : Store) (id j : ℕ) {b : RdmaAssignment} → find (release s id) j ≡ ok b → find s j ≡ ok b
unfolding find
find-release s id j h = ground (arith, cell-release s id j)

pub release-Keeps : (s : Store) (id : ℕ) → Keeps s (release s id)
release-Keeps s id = record {
  size = size-release s id;
  shapes = λ j b h. (b, find-release s id j h, SameShape-refl b);
}

-- The object with another count.
abbrev with_finished : RdmaAssignment → ℕ → RdmaAssignment
with_finished a n = record a { callback_info = record (a.callback_info) { finished = n } }

with_finished-Keeps :
    (s : Store) (id n : ℕ) (c : Cell)
    → cell s id ≡ some c
    → Keeps s (put s id (some (record c { object = with_finished c.object n })))
unfolding put find cell
with_finished-Keeps s id n c e = record {
  size = length-set s.cells id _;
  shapes = λ j b h.
      let new : Cell = record c { object = with_finished c.object n } in
      elim (Bool-cases (id == j && ltb id (length s.cells))) [
        | inl hit ↦ (c.object, ground arith, ground (arith, slot-set s.cells id j (some new)))
        | inr miss ↦ (b, ground (arith, slot-set s.cells id j (some new)), SameShape-refl b)
      ];
}

call-Keeps :
    (s : Store) (id code : ℕ) (c : Cell) (f : Callback)
    → cell s id ≡ some c
    → Keeps s (call s id c.object.callback_info code f)
unfolding call
call-Keeps s id code c count_finished e =
    rw (e, with_callback_info) (with_finished-Keeps s id _ c e)
call-Keeps s id code c ignore e = Keeps-refl s
call-Keeps s id code c (client f) e = record {
  size = refl;
  shapes = λ j b h. (b, unfold find cell in h, SameShape-refl b);
}

pub invoke_lem :
    (s : Store) (id code : ℕ) (c : Cell)
    → cell s id ≡ some c
    → invoke s id code ≡ ok (call s id c.object.callback_info code c.object.callback_info.callback)
unfolding invoke
invoke_lem s id code c e = rw e

pub invoke-Keeps : (s s' : Store) (id code : ℕ) → invoke s id code ≡ ok s' → Keeps s s'
unfolding invoke
invoke-Keeps s s' id code h = elim (Option-cases (cell s id)) [
  | inl gone ↦ cc
  | inr (c, e) ↦
      let made : call s id c.object.callback_info code c.object.callback_info.callback ≡ s' =
        ok-injective (sym (invoke_lem s id code c e) ∙ h) in
      rw (← made) (call-Keeps s id code c c.object.callback_info.callback e)
]

pub size-make_shared :
    (s : Store) (a : RdmaAssignment) → length (make_shared s a).0.cells ≡ length s.cells + 1
unfolding make_shared
size-make_shared s a =
    omega (arith, length-append s.cells (some (record { refs = 1; object = a }) ∷ []))

pub find-make_shared_new :
    (s : Store) (a : RdmaAssignment) → find (make_shared s a).0 (make_shared s a).1 ≡ ok a
unfolding make_shared find
find-make_shared_new s a =
    rw (get_elem?-append_length s.cells [] (some (record { refs = 1; object = a })))

pub cell-make_shared_old :
    (s : Store) (a : RdmaAssignment) (id : ℕ)
    → id < length s.cells
    → cell (make_shared s a).0 id ≡ cell s id
unfolding make_shared cell
cell-make_shared_old s a id h = rw (get_elem?-append_left s.cells _ id h)

pub find-lt-size :
    (s : Store) (id : ℕ) {a : RdmaAssignment} → find s id ≡ ok a → id < length s.cells
unfolding find
find-lt-size s id h = ground (arith, slot_out s.cells id)

pub find-make_shared_old :
    (s : Store) (a : RdmaAssignment) (id : ℕ)
    → id < length s.cells
    → find (make_shared s a).0 id ≡ find s id
unfolding find
find-make_shared_old s a id h = rw (cell-make_shared_old s a id h)

pub cell-make_shared_new :
    (s : Store) (a : RdmaAssignment)
    → cell (make_shared s a).0 (length s.cells) ≡ some (record { refs = 1; object = a })
unfolding make_shared cell
cell-make_shared_new s a =
    rw (get_elem?-append_length s.cells [] (some (record { refs = 1; object = a })))

pub make_shared-place : (s : Store) (a : RdmaAssignment) → (make_shared s a).1 ≡ length s.cells
unfolding make_shared
make_shared-place s a = refl

pub find_of_cell : (s : Store) (id : ℕ) (c : Cell) → cell s id ≡ some c → find s id ≡ ok c.object
unfolding find
find_of_cell s id c h = rw h

pub find_of_same_cell :
    (s s' : Store) (id : ℕ) {b : RdmaAssignment}
    → cell s' id ≡ cell s id
    → find s' id ≡ ok b
    → find s id ≡ ok b
unfolding find
find_of_same_cell s s' id e h = rw (← e) h

pub find_of_no_cell : (s : Store) (id : ℕ) → cell s id ≡ none → find s id ≡ err use_after_free
unfolding find
find_of_no_cell s id h = rw h
