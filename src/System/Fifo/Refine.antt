-- ===== src/System/Fifo/Refine.antt =====
-- A queue pair that carries accepted reads is such a queue.
use dlslime.Prelude.{ℕ, Option, none, some, List, [], ◌∷◌}
use dlslime.MemoryPool.{MemoryPool}
use dlslime.WorkRequest.{CallbackInfoWithQpi}
use dlslime.System.{System, Flight}
use dlslime.System
use dlslime.System.Fifo.{Fifo}
use dlslime.System.Fifo

abbrev cons_serving : Option CallbackInfoWithQpi → ℕ → List (ℕ × ℕ) → List (ℕ × ℕ)
cons_serving none slots rest = rest
cons_serving (some c) slots rest = (c.info, slots) ∷ rest

abbrev serving_of : List Flight → List (ℕ × ℕ)
serving_of [] = []
serving_of (f ∷ fs) = cons_serving f.wr_id f.slots (serving_of fs)

-- What is left of a queue pair without its details.
abbrev pub view : System → Fifo
view s = record { queued = s.qp.assign_queue; serving = serving_of s.flights; served = s.finished }
