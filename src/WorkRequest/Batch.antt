-- ===== src/WorkRequest/Batch.antt =====
-- The requests of a batched read: their chain, their completion and their addresses.
use dlslime.Prelude.{
  ℕ, suc, ◌+◌, ◌<◌, ◌%◌, ◌^◌, ◌≡◌, refl, true, false, none, some, List, [], ◌∷◌, length, ok, add32,
  add64, u32, arith, >>=-eq-ok, ok-injective, ◌∙◌, sym,
}
use dlslime.Assignment.{Assignment, AssignmentBatch}
use dlslime.MemoryPool.{MemoryPool, Mr, get_mr, get_remote_mr}
use dlslime.Store.{RdmaAssignment}
use dlslime.Context.{Qp}
use dlslime.WorkRequest.{
  SendWr, Sge, CallbackInfoWithQpi, wr_rdma_read, build_read_wr, read_wr, read_wrs, post_read_batch,
  nonempty, code_of_ret,
}

-- What request `i` of a batch of `n` has to be for assignment `a`: a read between the addresses that
-- the two regions give, of the length's low 32 bits, chained to the next one; only the last one is
-- signalled and carries the callback.
pub record IsReadOf (p : MemoryPool) (n : ℕ) (c : CallbackInfoWithQpi) (i : ℕ) (a : Assignment)
    (wr : SendWr) : Type 0 where
  pub region : Mr
  pub known : get_mr p a.mr_key ≡ some region
  pub opcode : wr.opcode ≡ wr_rdma_read
  pub addr : wr.sge.addr ≡ (region.addr + a.source_offset) % 2 ^ 64
  pub length : wr.sge.length ≡ a.length % 2 ^ 32
  pub lkey : wr.sge.lkey ≡ region.lkey
  pub remote_addr : wr.remote_addr ≡ ((get_remote_mr p a.mr_key).addr + a.target_offset) % 2 ^ 64
  pub rkey : wr.rkey ≡ (get_remote_mr p a.mr_key).rkey
  pub middle : suc i < n → (wr.signaled ≡ false) × (wr.wr_id ≡ none) × (wr.next ≡ some (suc i))
  pub last : suc i ≡ n → (wr.signaled ≡ true) × (wr.wr_id ≡ some c) × (wr.next ≡ none)

abbrev pub AreReadsOf :
    MemoryPool → ℕ → CallbackInfoWithQpi → ℕ → AssignmentBatch → List SendWr → Type 0
AreReadsOf p n c i [] [] = Unit
AreReadsOf p n c i [] (wr ∷ wrs) = ⊥
AreReadsOf p n c i (a ∷ batch) [] = ⊥
AreReadsOf p n c i (a ∷ batch) (wr ∷ wrs) =
    IsReadOf p n c i a wr × AreReadsOf p n c (i + 1) batch wrs

abbrev sge_in : Mr → Assignment → Sge
sge_in m a = record { addr = add64 m.addr a.source_offset; length = u32 a.length; lkey = m.lkey }

read_wr-IsReadOf :
    (p : MemoryPool) (n : ℕ) (c : CallbackInfoWithQpi) (i : ℕ) (a : Assignment) (m : Mr)
    → get_mr p a.mr_key ≡ some m
    → (wr : SendWr) × (read_wr p n c i a ≡ ok wr) × IsReadOf p n c i a wr
unfolding read_wr
read_wr-IsReadOf p n c i a m known = (
  build_read_wr p n c i a (sge_in m a),
  rw known refl,
  record {
    region = m;
    known = known;
    opcode = refl;
    addr = refl;
    length = refl;
    lkey = refl;
    remote_addr = refl;
    rkey = refl;
    middle = λ h. ground arith;
    last = λ h. ground arith;
  },
)

-- Every key of the batch names a region that the context has registered.
abbrev pub AllKnown : MemoryPool → AssignmentBatch → Type 0
AllKnown p [] = Unit
AllKnown p (a ∷ batch) = ((m : Mr) × (get_mr p a.mr_key ≡ some m)) × AllKnown p batch

read_wrs-AreReadsOf :
    (p : MemoryPool) (n : ℕ) (c : CallbackInfoWithQpi) (i : ℕ) (batch : AssignmentBatch)
    → AllKnown p batch
    → (wrs : List SendWr) × (read_wrs p n c i batch ≡ ok wrs) × AreReadsOf p n c i batch wrs
unfolding read_wrs
read_wrs-AreReadsOf p n c i [] k = ([], refl, tt)
read_wrs-AreReadsOf p n c i (a ∷ batch) ((m, known), k) =
    let (wr, run, is_read) = read_wr-IsReadOf p n c i a m known in
    let (wrs, runs, are_reads) = read_wrs-AreReadsOf p n c (i + 1) batch k in
    (wr ∷ wrs, rw (run, runs) refl, (is_read, are_reads))

length-AreReadsOf :
    (p : MemoryPool) (n : ℕ) (c : CallbackInfoWithQpi) (i : ℕ) (batch : AssignmentBatch)
    (wrs : List SendWr)
    → AreReadsOf p n c i batch wrs
    → length wrs ≡ length batch
length-AreReadsOf p n c i [] [] r = refl
length-AreReadsOf p n c i [] (wr ∷ wrs) r = absurd r
length-AreReadsOf p n c i (a ∷ batch) [] r = absurd r
length-AreReadsOf p n c i (a ∷ batch) (wr ∷ wrs) r =
    omega (arith, length-AreReadsOf p n c (i + 1) batch wrs r.1)

nonempty_lem : (wrs : List SendWr) → 0 < length wrs → nonempty wrs ≡ ok wrs
unfolding nonempty
nonempty_lem [] h = absurd (omega arith)
nonempty_lem (wr ∷ wrs) h = refl

-- A batch of registered keys that is not empty is posted whole: the request list has one read for
-- each assignment, in order, chained to its end, of which the last one alone is signalled and
-- carries the callback. The number of assignments goes onto the count of outstanding reads, also
-- where the verbs library refuses the list and the result is -1.
pub post_read_batch-AreReadsOf :
    (p : MemoryPool) (qpi : ℕ) (q : Qp) (id : ℕ) (a : RdmaAssignment) (ret : ℕ)
    → AllKnown p a.batch
    → a.batch_size ≡ length a.batch
    → 0 < length a.batch
    → (wrs : List SendWr) × (post_read_batch p qpi q id a ret
        ≡ ok (
          record q { outstanding_rdma_reads = add32 q.outstanding_rdma_reads (length a.batch) },
          wrs,
          code_of_ret ret,
        ))
      × (length wrs ≡ length a.batch)
      × AreReadsOf p (length a.batch) (record { info = id; qpi = qpi }) 0 a.batch wrs
unfolding post_read_batch
post_read_batch-AreReadsOf p qpi q id a ret k size some_left =
    let (wrs, runs, reads) =
      read_wrs-AreReadsOf p (length a.batch) (record { info = id; qpi = qpi }) 0 a.batch k in
    let long =
      length-AreReadsOf p (length a.batch) (record { info = id; qpi = qpi }) 0 a.batch wrs reads in
    (wrs, rw (size, runs, nonempty_lem wrs (omega (arith, long))) refl, long, reads)

read_wr-ok :
    (p : MemoryPool) (n : ℕ) (c : CallbackInfoWithQpi) (i : ℕ) (a : Assignment) {wr : SendWr}
    → read_wr p n c i a ≡ ok wr
    → (m : Mr) × (get_mr p a.mr_key ≡ some m)
unfolding read_wr
read_wr-ok p n c i a h = ground arith

read_wrs-ok :
    (p : MemoryPool) (n : ℕ) (c : CallbackInfoWithQpi) (i : ℕ) (batch : AssignmentBatch)
    {wrs : List SendWr}
    → read_wrs p n c i batch ≡ ok wrs
    → AllKnown p batch
unfolding read_wrs
read_wrs-ok p n c i [] h = tt
read_wrs-ok p n c i (a ∷ batch) h =
    let (wr, first, more) = >>=-eq-ok (read_wr p n c i a) _ h in
    let (wrs, rest, made) = >>=-eq-ok (read_wrs p n c (i + 1) batch) _ more in
    (read_wr-ok p n c i a first, read_wrs-ok p n c (i + 1) batch rest)

-- A loop that ends without a fault has made the reads.
pub read_wrs-ok-AreReadsOf :
    (p : MemoryPool) (n : ℕ) (c : CallbackInfoWithQpi) (i : ℕ) (batch : AssignmentBatch)
    {wrs : List SendWr}
    → read_wrs p n c i batch ≡ ok wrs
    → AreReadsOf p n c i batch wrs
read_wrs-ok-AreReadsOf p n c i batch h =
    let (wrs', runs, reads) = read_wrs-AreReadsOf p n c i batch (read_wrs-ok p n c i batch h) in
    rw (ok-injective (sym h ∙ runs)) reads
