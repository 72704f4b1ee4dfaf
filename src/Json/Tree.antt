-- ===== src/Json/Tree.antt =====
-- A JSON library as trees: it shows that the laws of `JsonLib` can hold together, and serves the
-- examples.
use dlslime.Prelude.{
  ℕ, suc, ◌%◌, ◌^◌, ◌-◌, ◌≡◌, refl, String, str_eq, eq_refl, Option, none, some, List, [], ◌∷◌,
  if◌then◌else◌, lookup, insert, erase, lookup-insert, lookup-erase, UniqueKeys, get_elem?, length,
  ℤ, pos, negsuc, arith,
}
use dlslime.Json.{JsonLib}

mutual
  pub data Tree : Type 0 where
    null : Tree
    num : ℕ → Tree
    int : ℤ → Tree
    obj : Fields → Tree
    arr : Items → Tree

  pub data Fields : Type 0 where
    end : Fields
    field : String → Tree → Fields → Fields

  pub data Items : Type 0 where
    nil : Items
    cons : Tree → Items → Items

unfoldable pub fields : List (String × Tree) → Fields
fields [] = end
fields ((k, v) ∷ fs) = field k v (fields fs)

unfoldable pub entries : Fields → List (String × Tree)
entries end = []
entries (field k v fs) = (k, v) ∷ entries fs

unfoldable pub elements : List Tree → Items
elements [] = nil
elements (x ∷ xs) = cons x (elements xs)

unfoldable pub to_list : Items → List Tree
to_list nil = []
to_list (cons x xs) = x ∷ to_list xs

unfoldable pub members : Tree → List (String × Tree)
unfolding entries
members (obj fs) = entries fs
members _ = []

-- The first entry of each key.
unfoldable pub distinct : List (String × Tree) → List (String × Tree)
distinct [] = []
distinct ((k, v) ∷ fs) = (k, v) ∷ erase k (distinct fs)

unfoldable pub at_index : Tree → ℕ → Option Tree
unfolding to_list
at_index (arr xs) i = get_elem? (to_list xs) i
at_index _ i = none

unfoldable pub count : Tree → ℕ
unfolding to_list
count (arr xs) = length (to_list xs)
count (obj fs) = length (entries fs)
count null = 0
count _ = 1

unfoldable pub uint : ℕ → Tree → Option ℕ
uint w (num n) = some (n % 2 ^ w)
uint w (int (pos n)) = some (n % 2 ^ w)
uint w (int (negsuc n)) = some (2 ^ w - suc (n % 2 ^ w))
uint w _ = none

unfoldable pub int64 : Tree → Option ℤ
int64 (int z) = some z
int64 (num n) = some (pos n)
int64 _ = none

entries-fields : (fs : List (String × Tree)) → entries (fields fs) ≡ fs
unfolding entries fields
entries-fields [] = refl
entries-fields ((k, v) ∷ fs) = rw (entries-fields fs)

to_list-elements : (xs : List Tree) → to_list (elements xs) ≡ xs
unfolding to_list elements
to_list-elements [] = refl
to_list-elements (x ∷ xs) = rw (to_list-elements xs)

pub lookup-distinct :
    (k : String) (fs : List (String × Tree)) → lookup k (distinct fs) ≡ lookup k fs
unfolding lookup distinct
lookup-distinct k [] = refl
lookup-distinct k ((i, v) ∷ fs) =
    ground (arith, lookup-erase i k (distinct fs), lookup-distinct k fs)

erase-UniqueKeys :
    (k : String) (fs : List (String × Tree)) → UniqueKeys fs → UniqueKeys (erase k fs)
unfolding erase
erase-UniqueKeys k [] u = tt
erase-UniqueKeys k ((i, v) ∷ fs) u = ground (arith, erase-UniqueKeys k fs u.1, lookup-erase k i fs)

pub distinct-UniqueKeys : (fs : List (String × Tree)) → UniqueKeys (distinct fs)
unfolding distinct
distinct-UniqueKeys [] = tt
distinct-UniqueKeys ((k, v) ∷ fs) = (
  rw (lookup-erase k k (distinct fs), eq_refl) refl,
  erase-UniqueKeys k (distinct fs) (distinct-UniqueKeys fs),
)

pub lookup-object :
    (fs : List (String × Tree)) (k : String) → lookup k (members (obj (fields fs))) ≡ lookup k fs
unfolding members
lookup-object fs k = rw (entries-fields fs)

pub lookup-put :
    (j : Tree) (k i : String) (v : Tree)
    → lookup i (members (obj (fields (insert k v (members j)))))
      ≡ (if str_eq k i then some v else lookup i (members j))
lookup-put j k i v = rw (lookup-object (insert k v (members j)) i) (lookup-insert k i v (members j))

pub at_index-elements : (xs : List Tree) (i : ℕ) → at_index (arr (elements xs)) i ≡ get_elem? xs i
unfolding at_index
at_index-elements xs i = rw (to_list-elements xs)

pub count-elements : (xs : List Tree) → count (arr (elements xs)) ≡ length xs
unfolding count
count-elements xs = rw (to_list-elements xs)

pub uint-num : (w n : ℕ) → uint w (num n) ≡ some (n % 2 ^ w)
unfolding uint
uint-num w n = refl

pub int64-int : (z : ℤ) → int64 (int z) ≡ some z
unfolding int64
int64-int z = refl

pub lookup-null : (k : String) → lookup k (members null) ≡ none
unfolding lookup members
lookup-null k = refl

abbrev IsTable : Tree → Type 0
IsTable null = Unit
IsTable (num n) = ⊥
IsTable (int z) = ⊥
IsTable (obj fs) = Unit
IsTable (arr xs) = ⊥

abbrev pub tree_lib : JsonLib
tree_lib = record {
  Json = Tree;
  null = null;
  num = num;
  int = int;
  object = λ fs. obj (fields fs);
  array = λ xs. arr (elements xs);
  set_field = λ j k v. obj (fields (insert k v (members j)));
  get_field = λ j k. lookup k (members j);
  get_index = at_index;
  get_uint = uint;
  get_int64 = int64;
  items = λ j. distinct (members j);
  size = count;
  get_field-null = lookup-null;
  get_field-object = lookup-object;
  get_field-set_field = lookup-put;
  get_index-array = at_index-elements;
  size-array = count-elements;
  get_uint-num = uint-num;
  get_int64-int = int64-int;
  IsTable = IsTable;
  null-IsTable = tt;
  set_field-IsTable = λ j k v table. tt;
  lookup-items = λ j k table. lookup-distinct k (members j);
  items-UniqueKeys = λ j. distinct-UniqueKeys (members j);
}
