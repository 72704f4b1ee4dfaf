-- ===== src/Json/Table.antt =====
-- The tables of memory regions that csrc/engine/rdma/memory_pool.h and csrc/engine/nvlink/memory_pool.h
-- keep by key: one side writes its table as JSON, the other reads it entry by entry into its own.
use dlslime.Prelude.{
  ◌≡◌, refl, sym, ap, subst, ◌∙◌, String, str_eq, eq_iff, eq_refl, Option, none, some, List, [],
  ◌∷◌, lookup, insert, lookup-insert, Result, ok, UniqueKeys, arith, Bool-cases, Option-cases, inl,
  inr,
}
use mathlib.Core.Option.{some-injective}
use dlslime.Json.{JsonLib}

abbrev pub AllValues : {M : Type 0} → (M → Type 0) → List (String × M) → Type 0
AllValues Valid [] = Unit
AllValues Valid ((k, m) ∷ rest) = Valid m × AllValues Valid rest

pub AllValues-lookup :
    {M : Type 0} (Valid : M → Type 0) (ms : List (String × M)) (k : String) {m : M}
    → AllValues Valid ms
    → lookup k ms ≡ some m
    → Valid m
unfolding lookup
AllValues-lookup Valid [] k a h = cc
AllValues-lookup {M} Valid ((i, w) ∷ ms) k {m} (first, a) h = elim (Bool-cases (str_eq i k)) [
  | inl hit ↦ let e : w ≡ m = some-injective _ _ (rw hit at h) in rw (← e) first
  | inr miss ↦ AllValues-lookup Valid ms k a (rw miss at h)
]

-- The newer value, if there is one.
abbrev pub newer : {M R : Type 0} → (M → R) → Option M → Option R → Option R
newer view none old = old
newer view (some m) old = some (view m)

lookup-cons_self :
    {A : Type 0} (k : String) (v : A) (l : List (String × A)) → lookup k ((k, v) ∷ l) ≡ some v
unfolding lookup
lookup-cons_self k v l = rw eq_refl

-- A region is valid, is described in JSON, and is viewed by the peer that reads the description.
module _ (j : JsonLib) {M R : Type 0} (Valid : M → Type 0) (describe : M → j.Json)
    (view : M → R) where
  open j use {
    Json, null, set_field, get_field, get_field-null, get_field-set_field, items, lookup-items,
    IsTable, null-IsTable, set_field-IsTable, items-UniqueKeys,
  }

  abbrev described : Option M → Option Json
  described none = none
  described (some m) = some (describe m)

  -- Every entry of the list is the description of the region that the table has under that key.
  abbrev Describes : List (String × M) → List (String × Json) → Type 0
  Describes ms l =
      (k : String) (v : Json)
      → lookup k l ≡ some v
      → (m : M) × (lookup k ms ≡ some m) × Valid m × (v ≡ describe m)

  Describes-tail :
      (ms : List (String × M)) (k : String) (v : Json) (l : List (String × Json))
      → lookup k l ≡ none
      → Describes ms ((k, v) ∷ l)
      → Describes ms l
  unfolding lookup
  Describes-tail ms k v l fresh d i w h = d i w (ground (arith, eq_iff k i))

  abbrev pick : Option Json → Option M → Option R → Option R
  pick none own old = old
  pick (some v) own old = newer view own old

  -- How a table is written, and the loop that reads one into the table of a state.
  module _ {P : Type 0} (table : List (String × M) → Json) (table-nil : table [] ≡ null)
      (table-cons : (k : String) (m : M) (ms : List (String × M))
        → table ((k, m) ∷ ms) ≡ set_field (table ms) k (describe m))
      (at : List (String × R) → P) (read : P → List (String × Json) → Result P)
      (read-nil : (p : P) → read p [] ≡ ok p)
      (read-cons : (t : List (String × R)) (k : String) (m : M) (l : List (String × Json))
        → Valid m
        → read (at t) ((k, describe m) ∷ l) ≡ read (at (insert k (view m) t)) l) where
    written-IsTable : (ms : List (String × M)) → IsTable (table ms)
    written-IsTable [] = subst IsTable (sym table-nil) null-IsTable
    written-IsTable ((k, m) ∷ ms) =
        subst IsTable (sym (table-cons k m ms))
          (set_field-IsTable (table ms) k (describe m) (written-IsTable ms))

    get_field-table :
        (ms : List (String × M)) (k : String) → get_field (table ms) k ≡ described (lookup k ms)
    unfolding lookup
    get_field-table [] k = rw table-nil (get_field-null k)
    get_field-table ((i, m) ∷ ms) k =
        rw (table-cons, get_field-set_field) (ground (arith, get_field-table ms k))

    items-Describes :
        (ms : List (String × M)) → AllValues Valid ms → Describes ms (items (table ms))
    items-Describes ms a k v h =
        let e : described (lookup k ms) ≡ some v =
          sym (get_field-table ms k) ∙ sym (lookup-items (table ms) k (written-IsTable ms)) ∙ h in
        elim (Option-cases (lookup k ms)) [
          | inl missing ↦ cc
          | inr (m, found) ↦ (
            m,
            found,
            AllValues-lookup Valid ms k a found,
            some-injective _ _ (sym e ∙ ap described found),
          )
        ]

    read-Describes :
        (ms : List (String × M)) (t : List (String × R)) (l : List (String × Json))
        → UniqueKeys l
        → Describes ms l
        → (t' : List (String × R)) × (read (at t) l ≡ ok (at t'))
          × ((i : String) → lookup i t' ≡ pick (lookup i l) (lookup i ms) (lookup i t))
    unfolding lookup
    read-Describes ms t [] u d = (t, read-nil (at t), λ i. refl)
    read-Describes ms t ((k, v) ∷ l) (fresh, u) d =
        let (m, known, valid, e) = d k v (lookup-cons_self k v l) in
        let (t', run, found) =
          read-Describes ms (insert k (view m) t) l u (Describes-tail ms k v l fresh d) in
        (
          t',
          ap (λ w. read (at t) ((k, w) ∷ l)) e ∙ read-cons t k m l valid ∙ run,
          λ i. ground (arith, eq_iff k i, lookup-insert k i (view m) t, found i),
        )

    -- The loop over a written table reads it whole: each of the table's keys then has the view of the
    -- table's region, and every other key has what it had.
    pub read-table :
        (ms : List (String × M)) (t : List (String × R))
        → AllValues Valid ms
        → (t' : List (String × R)) × (read (at t) (items (table ms)) ≡ ok (at t'))
          × ((i : String) → lookup i t' ≡ newer view (lookup i ms) (lookup i t))
    read-table ms t a =
        let (t', run, found) =
          read-Describes ms t (items (table ms)) (items-UniqueKeys (table ms))
            (items-Describes ms a) in
        (
          t',
          run,
          λ i. ground (
            arith,
            found i,
            lookup-items (table ms) i (written-IsTable ms),
            get_field-table ms i,
          ),
        )
