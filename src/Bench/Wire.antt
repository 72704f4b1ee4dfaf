-- ===== src/Bench/Wire.antt =====
-- The messages between the two processes of a benchmark, over ZMQ's PUSH and PULL sockets: a message
-- that is sent arrives, and messages arrive in order.
use Prim.Native.Char.{code}
use dlslime.Prelude.{String, List, [], ◌∷◌, ◌++◌, Result, ok, err, no_end, ◌==◌, if◌then◌else◌}

-- What a process has sent, and what is still to arrive for it.
pub record Wire : Type 0 where
  pub sent : List String
  pub arriving : List String

unfoldable pub send : Wire → String → Wire
send w message = record w { sent = w.sent ++ (message ∷ []) }

-- `recv` waits without end for a message that never comes.
unfoldable pub recv : Wire → Result (String × Wire)
recv w = elim w.arriving [
  | [] ↦ err no_end
  | message ∷ rest ↦ ok (message, record w { arriving = rest })
]

-- The text before the first byte 0.
unfoldable pub c_str : String → String
c_str String.[] = String.[]
c_str (String.◌∷◌ c s) = let rest = c_str s in if code c == 0 then String.[] else String.◌∷◌ c rest
