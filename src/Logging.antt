-- ===== src/Logging.antt =====
-- csrc/utils/logging.h: which messages are logged.
pub mod Levels
use dlslime.Prelude.{
  ℕ, ◌+◌, Bool, true, false, String, str_eq, ◌++ₛ◌, Option, none, some, List, [], ◌∷◌, ℤ, pos,
  negsuc, leb, if◌then◌else◌, atoi,
}

-- `env` is `getenv`, none where the variable is not set.
unfoldable pub get_env_variable : (String → Option String) → Option String → String
get_env_variable env none = ""
get_env_variable env (some env_var_name) = elim (env env_var_name) [ none ↦ "" | some lvl ↦ lvl ]

unfoldable pub get_log_level : (String → Option String) → ℤ
unfolding get_env_variable
get_log_level env =
    let lvl = get_env_variable env (some "SLIME_LOG_LEVEL") in
    if str_eq lvl "" then pos 0 else atoi lvl

abbrev pub at_least : ℤ → ℕ → Bool
at_least (pos n) level = leb level n
at_least (negsuc n) level = false

abbrev pub error_level : ℕ
error_level = 0

abbrev pub warn_level : ℕ
warn_level = 0

abbrev pub info_level : ℕ
info_level = 1

abbrev pub debug_level : ℕ
debug_level = 2

-- SLIME_LOG_LEVEL: one more entry before those written so far, if the level is high enough. The
-- colours and the place of the call are left out of the text.
unfoldable pub log : (String → Option String) → String → ℕ → String → List String → List String
unfolding get_log_level
log env kind level message written =
    if at_least (get_log_level env) level
    then ("[" ++ₛ kind ++ₛ "]" ++ₛ message) ∷ written
    else written
