-- ===== src/System/Hardware.antt =====
-- How many slots of the send queue the requests under way take.
use dlslime.Prelude.{ℕ, suc, ◌+◌, ◌<◌, ◌≡◌, some, List, [], ◌∷◌, ◌++◌, length, arith}
use dlslime.Assignment.{AssignmentBatch}
use dlslime.MemoryPool.{MemoryPool}
use dlslime.WorkRequest.{SendWr, CallbackInfoWithQpi}
use dlslime.WorkRequest.Batch.{AreReadsOf}
use dlslime.System.{Flight, flights_of}

abbrev pub total : List Flight → ℕ
total [] = 0
total (f ∷ fs) = f.slots + total fs

pub total-append : (xs ys : List Flight) → total (xs ++ ys) ≡ total xs + total ys
total-append [] ys = omega arith
total-append (f ∷ fs) ys = omega (arith, total-append fs ys)

-- A batch of reads is under way as one request with the batch's callback, and takes as many slots
-- as it has assignments.
pub flights_of-AreReadsOf :
    (p : MemoryPool) (n : ℕ) (c : CallbackInfoWithQpi) (i : ℕ) (batch : AssignmentBatch)
    (wrs : List SendWr)
    → i + length batch ≡ n
    → 0 < length batch
    → AreReadsOf p n c i batch wrs
    → flights_of i wrs ≡ record { wr_id = some c; slots = n } ∷ []
flights_of-AreReadsOf p n c i [] wrs e some_work reads = absurd (omega arith)
flights_of-AreReadsOf p n c i (a ∷ batch) [] e some_work reads = absurd reads
flights_of-AreReadsOf p n c i (a ∷ []) (wr ∷ []) e some_work (read, rest) =
    let (signaled, marked, end) = read.last (omega arith) in ground arith
flights_of-AreReadsOf p n c i (a ∷ []) (wr ∷ w ∷ wrs) e some_work (read, rest) = absurd rest
flights_of-AreReadsOf p n c i (a ∷ b ∷ batch) (wr ∷ wrs) e some_work (read, rest) =
    let (silent, unmarked, chained) = read.middle (omega arith) in
    let next : i + 1 ≡ suc i = omega arith in
    rw silent (
      flights_of-AreReadsOf p n c (suc i) (b ∷ batch) wrs (omega arith) (omega arith)
        (rw next at rest))
