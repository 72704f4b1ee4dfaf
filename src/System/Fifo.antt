-- ===== src/System/Fifo.antt =====
-- What a queue pair promises, without its threads, its heap and its hardware: a queue that serves in
-- order, as many at a time as a window of slots allows.
pub mod Refine
mod Tests
use dlslime.Prelude.{ℕ, ◌+◌, ◌<◌, ◌≡◌, List, [], ◌∷◌, ◌++◌}
use dlslime.RdmaInfo.{max_send_wr}

-- Each assignment that is being served comes with the slots that it takes.
pub record Fifo : Type 0 where
  pub queued : List ℕ
  pub serving : List (ℕ × ℕ)
  pub served : List ℕ

abbrev pub taken : List (ℕ × ℕ) → ℕ
taken [] = 0
taken ((id, slots) ∷ rest) = slots + taken rest

pub data FifoStep (f : Fifo) : Fifo → Type 0 where
  rests : FifoStep f f
  enqueues : (ids : List ℕ) → FifoStep f (record f { queued = f.queued ++ ids })
  -- The first in the queue, if its slots fit the window besides those that are taken.
  starts :
      (id slots : ℕ) (rest : List ℕ)
      → f.queued ≡ id ∷ rest
      → taken f.serving + slots < max_send_wr
      → FifoStep f (record f { queued = rest; serving = f.serving ++ ((id, slots) ∷ []) })
  -- The one that has been served for longest.
  finishes :
      (id slots : ℕ) (rest : List (ℕ × ℕ))
      → f.serving ≡ (id, slots) ∷ rest
      → FifoStep f (record f { serving = rest; served = f.served ++ (id ∷ []) })

pub data FifoReach (f : Fifo) : Fifo → Type 0 where
  here : FifoReach f f
  next : {g h : Fifo} → FifoReach f g → FifoStep g h → FifoReach f h

abbrev pub empty_fifo : Fifo
empty_fifo = record { queued = []; serving = []; served = [] }
