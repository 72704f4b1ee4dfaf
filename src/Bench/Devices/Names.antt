-- ===== src/Bench/Devices/Names.antt =====
-- Device names on the command line.
use Prim.Native.Char.{Char, code}
use Prim.Native.String.append.{nil as nil-append, cons as cons-append}
use dlslime.Prelude.{◌≡◌, ◌≢◌, refl, ◌∙◌, ap, String, ◌++ₛ◌, List, [], ◌∷◌, arith}
use dlslime.Bench.Devices.{push, tokens_of, split_device_name}

-- The names with the delimiter between them.
abbrev pub joined : Char → List String → String
joined d [] = ""
joined d (name ∷ []) = name
joined d (name ∷ next ∷ names) = name ++ₛ String.◌∷◌ d (joined d (next ∷ names))

abbrev pub Lacks : Char → String → Type 0
Lacks d String.[] = Unit
Lacks d (String.◌∷◌ c s) = (code c ≢ code d) × Lacks d s

-- No name has the delimiter in it, and the last one is not empty.
abbrev pub AreNames : Char → List String → Type 0
AreNames d [] = Unit
AreNames d (name ∷ []) = Lacks d name × (name ≢ "")
AreNames d (name ∷ next ∷ names) = Lacks d name × AreNames d (next ∷ names)

cons-ne-nil : (c : Char) (s : String) → String.◌∷◌ c s ≢ ""
cons-ne-nil c s h = cc

module _ (d : Char) where
  tokens_of_cons :
      (c : Char) (s : String)
      → code c ≢ code d
      → tokens_of (code d) (String.◌∷◌ c s) ≡ push c (tokens_of (code d) s)
  unfolding tokens_of
  tokens_of_cons c s differs = ground arith

  tokens_of-append :
      (name rest : String)
      → Lacks d name
      → tokens_of (code d) (name ++ₛ String.◌∷◌ d rest) ≡ name ∷ tokens_of (code d) rest
  unfolding tokens_of
  tokens_of-append String.[] rest h = rw (nil-append (String.◌∷◌ d rest)) (ground arith)
  tokens_of-append (String.◌∷◌ c name) rest (differs, h) =
      rw (cons-append c name (String.◌∷◌ d rest)) (
        tokens_of_cons c (name ++ₛ String.◌∷◌ d rest) differs
        ∙ ap (push c) (tokens_of-append name rest h))

  tokens_of-last : (name : String) → Lacks d name → name ≢ "" → tokens_of (code d) name ≡ name ∷ []
  unfolding tokens_of
  tokens_of-last String.[] h some_text = absurd (some_text refl)
  tokens_of-last (String.◌∷◌ c String.[]) (differs, h) some_text = ground arith
  tokens_of-last (String.◌∷◌ c (String.◌∷◌ e name)) (differs, h) some_text =
      tokens_of_cons c (String.◌∷◌ e name) differs
      ∙ ap (push c) (tokens_of-last (String.◌∷◌ e name) h (cons-ne-nil e name))

  tokens_of-joined :
      (names : List String) → AreNames d names → tokens_of (code d) (joined d names) ≡ names
  unfolding tokens_of
  tokens_of-joined [] h = refl
  tokens_of-joined (name ∷ []) (h, some_text) = tokens_of-last name h some_text
  tokens_of-joined (name ∷ next ∷ names) (h, hs) =
      tokens_of-append name (joined d (next ∷ names)) h
      ∙ ap (λ l. name ∷ l) (tokens_of-joined (next ∷ names) hs)

-- A list of device names with a delimiter between them is read as exactly these names, if no name has
-- the delimiter in it and the last one is not empty.
pub split_device_name-joined :
    (d : Char) (names : List String)
    → AreNames d names
    → split_device_name (joined d names) (code d) ≡ names
unfolding split_device_name
split_device_name-joined d names h = tokens_of-joined d names h
