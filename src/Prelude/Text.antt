-- ===== src/Prelude/Text.antt =====
-- `std::to_string` of an unsigned number, and `atoi`.
use Prim.Native.Nat.{ℕ, zero, suc, ◌+◌, ◌-◌, ◌*◌, ◌/◌, ◌%◌, ◌<◌}
use Prim.Native.Char.{code}
use Prim.Native.String.{String, ◌++◌}
use mathlib.Core.Bool.{Bool, ◌&&◌, ◌||◌}
use mathlib.Core.List.{[], ◌∷◌}
use mathlib.Core.Logic.{dite}
use mathlib.Core.Option.{Option, none, some}
use mathlib.Core.Path.{◌≡◌, refl}
use mathlib.Core.WellFounded.{Acc}
use native.Mathlib.Decide.{dec_lt}
use native.Mathlib.Omega.{arith}
use dlslime.Prelude.Tests.{leb, ◌==◌, if◌then◌else◌}
use dlslime.Prelude.Lists.{get_elem?}
use dlslime.Prelude.Int.{ℤ, pos, negsuc}

unfoldable pub accessible : (k n : ℕ) → n < k → Acc ◌<◌ n
accessible zero n h = absurd (omega arith)
accessible (suc k) n h = Acc.intro n λ m lt. accessible k m (omega arith)

pub shorter : {n : ℕ} → 9 < n → n / 10 < n
shorter h = omega arith

abbrev pub or_empty : Option String → String
or_empty none = ""
or_empty (some s) = s

abbrev pub digit : ℕ → String
digit d = or_empty (get_elem? ("0" ∷ "1" ∷ "2" ∷ "3" ∷ "4" ∷ "5" ∷ "6" ∷ "7" ∷ "8" ∷ "9" ∷ []) d)

-- The digits of a number before those that are there.
unfoldable pub digits : (n : ℕ) → Acc ◌<◌ n → String → String
digits n (Acc.intro _ smaller) later =
    dite (dec_lt 9 n)
      (λ h. digits (n / 10) (smaller (n / 10) (shorter h)) (digit (n % 10) ++ later))
      (λ _. digit n ++ later)

unfoldable pub to_string : ℕ → String
unfolding digits accessible
to_string n = digits n (accessible (suc n) n (omega arith)) ""

to_string-test : to_string 2048000 ≡ "2048000"
unfolding to_string dec_lt
to_string-test = refl

-- The value of the digits at the start, after `n`.
unfoldable pub leading : ℕ → String → ℕ
leading n String.[] = n
leading n (String.◌∷◌ c s) =
    let more = leading (n * 10 + (code c - b'0')) s in
    if leb b'0' (code c) && leb (code c) b'9' then more else n

abbrev pub negated : ℕ → ℤ
negated zero = pos 0
negated (suc n) = negsuc n

-- An optional sign.
unfoldable pub signed : String → ℤ
unfolding leading
signed String.[] = pos 0
signed (String.◌∷◌ c s) =
    if code c == b'-'
    then negated (leading 0 s)
    else if code c == b'+'
    then pos (leading 0 s)
    else pos (leading 0 (String.◌∷◌ c s))

abbrev pub is_space : ℕ → Bool
is_space c = c == 32 || (leb 9 c && leb c 13)

-- `atoi`; the number is taken to fit an `int`.
unfoldable pub atoi : String → ℤ
unfolding signed
atoi String.[] = pos 0
atoi (String.◌∷◌ c s) =
    let rest = atoi s in if is_space (code c) then rest else signed (String.◌∷◌ c s)

atoi-tests : (atoi " -12x" ≡ negsuc 11) × (atoi "+2" ≡ pos 2) × (atoi "debug" ≡ pos 0)
unfolding atoi
atoi-tests = (refl, refl, refl)
