-- ===== src/Scheduler/Startup.antt =====
-- The contexts of a new scheduler.
use dlslime.Prelude.{ℕ, ◌+◌, ◌≡◌, ◌⊎◌, false, String, List, [], ◌∷◌}
use dlslime.RdmaInfo.{RdmaInfo}
use dlslime.Context.{Context, qp_list_len}
use dlslime.Context.Init.{Verbs}
use dlslime.Context.Init.Code.{Ready}
use dlslime.Scheduler.{Scheduler}

-- The context is ready, or `init` has left it uninitialized.
abbrev pub Started : Verbs → Context → Type 0
Started v c = Ready v false qp_list_len c ⊎ (c.initialized ≡ false)

-- One context for each name, in order, from device `i` on.
abbrev pub AllStarted : (ℕ → Verbs) → ℕ → List String → List Context → Type 0
AllStarted v i [] [] = Unit
AllStarted v i [] (c ∷ cs) = ⊥
AllStarted v i (name ∷ names) [] = ⊥
AllStarted v i (name ∷ names) (c ∷ cs) =
    (c.device_name ≡ name) × Started (v i) c × AllStarted v (i + 1) names cs
