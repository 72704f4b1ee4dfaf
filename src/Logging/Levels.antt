-- ===== src/Logging/Levels.antt =====
-- The order of the levels of messages.
use dlslime.Prelude.{
  ℕ, ◌≤◌, ◌≡◌, ◌≢◌, true, String, ◌++ₛ◌, Option, List, ◌∷◌, ℤ, pos, negsuc, arith, Bool-cases, inl,
  inr,
}
use dlslime.Logging.{get_log_level, at_least, log}

at_least-antitone : (l : ℤ) (m n : ℕ) → m ≤ n → at_least l n ≡ true → at_least l m ≡ true
at_least-antitone (pos l) m n h shown = ground arith
at_least-antitone (negsuc l) m n h shown = cc

-- Where a message of some level is logged, a message of a level that is not higher is logged too.
pub log-antitone :
    (env : String → Option String) (m n : ℕ) (kind message : String) (written : List String)
    → m ≤ n
    → log env kind n message written ≢ written
    → log env kind m message written ≡ ("[" ++ₛ kind ++ₛ "]" ++ₛ message) ∷ written
unfolding log
log-antitone env m n kind message written h logged =
    elim (Bool-cases (at_least (get_log_level env) n)) [
      | inl shown ↦ simp (at_least-antitone (get_log_level env) m n h shown)
      | inr hidden ↦ absurd (logged (simp hidden))
    ]
