-- ===== src/Json.antt =====
-- The JSON values that the engine exchanges. The library csrc/utils/json.hpp is a copy of another
-- project, so its values and calls are the fields of a record, with the laws that the engine
-- relies on. `Json/Tree.antt` has a value of the record.
pub mod Table
pub mod Tree
use dlslime.Prelude.{
  ℕ, ◌%◌, ◌^◌, ◌≡◌, String, str_eq, Option, none, some, List, map, if◌then◌else◌, lookup,
  UniqueKeys, get_elem?, length, ℤ,
}

pub record JsonLib : Type 1 where
  pub Json : Type 0
  pub null : Json
  -- `json(uintN_t)` and `json(int64_t)`.
  pub num : ℕ → Json
  pub int : ℤ → Json
  -- `json{{key, value}, ...}` and an array that is filled index by index.
  pub object : List (String × Json) → Json
  pub array : List Json → Json
  -- `j[key] = value`.
  pub set_field : Json → String → Json → Json
  -- `j[key]` and `j[i]`; `none` where there is no such element.
  pub get_field : Json → String → Option Json
  pub get_index : Json → ℕ → Option Json
  -- `j.get<T>()` for an unsigned type of so many bits and for `int64_t`; `none` is a type error.
  pub get_uint : ℕ → Json → Option ℕ
  pub get_int64 : Json → Option ℤ
  pub items : Json → List (String × Json)
  pub size : Json → ℕ
  pub get_field-null : (k : String) → get_field null k ≡ none
  pub get_field-object :
      (fs : List (String × Json)) (k : String) → get_field (object fs) k ≡ lookup k fs
  pub get_field-set_field :
      (j : Json) (k i : String) (v : Json)
      → get_field (set_field j k v) i ≡ (if str_eq k i then some v else get_field j i)
  pub get_index-array : (xs : List Json) (i : ℕ) → get_index (array xs) i ≡ get_elem? xs i
  pub size-array : (xs : List Json) → size (array xs) ≡ length xs
  pub get_uint-num : (w n : ℕ) → get_uint w (num n) ≡ some (n % 2 ^ w)
  pub get_int64-int : (z : ℤ) → get_int64 (int z) ≡ some z
  -- The values that have fields: null, on which the first assignment makes an object, and objects.
  pub IsTable : Json → Type 0
  pub null-IsTable : IsTable null
  pub set_field-IsTable : (j : Json) (k : String) (v : Json) → IsTable j → IsTable (set_field j k v)
  pub lookup-items : (j : Json) (k : String) → IsTable j → lookup k (items j) ≡ get_field j k
  pub items-UniqueKeys : (j : Json) → UniqueKeys (items j)
