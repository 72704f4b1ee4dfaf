-- ===== src/Bench/Transfer/Checked.antt =====
-- From the target's bytes to the initiator's test: the requests of a batch, once the hardware has
-- done them, leave a buffer that passes.
use native.Mathlib.Decide.{dec_lt}
use native.Mathlib.Nat.{mul-le-mul_right, suc-mul, mod-eq_of_lt}
use dlslime.Prelude.{
  ℕ, zero, suc, ◌+◌, ◌-◌, ◌*◌, ◌%◌, ◌^◌, ◌<◌, ◌≤◌, ◌≡◌, ◌∙◌, ap, sym, true, some, List, [], ◌∷◌,
  length, get_elem?, ok, ltb, arith, >>=-eq-ok, ok-injective, ltb→lt, ℤ,
}
use dlslime.Assignment.{new_assignment}
use dlslime.MemoryPool.{MemoryPool, Mr, get_mr, get_remote_mr}
use dlslime.Store.{RdmaAssignment}
use dlslime.Context.{Qp}
use dlslime.WorkRequest.{SendWr, CallbackInfoWithQpi, read_wrs, post_read_batch, nonempty}
use dlslime.WorkRequest.Batch.{IsReadOf, AreReadsOf, read_wrs-ok-AreReadsOf}
use dlslime.Bench.Memory.{Block, used_size, get_elem?-fill_from, check_from-Matches}
use dlslime.Bench.Transfer.{
  Flags, assert, memory_allocate_target, check_initiator_copied, batch_from,
}
use dlslime.Bench.Transfer.Copies.{assert-ok}

-- What the documentation of an RDMA READ promises of a request that has succeeded: the bytes `to` of
-- the buffer at address `here` have, in the request's range, those of the peer's buffer at address
-- `there`, which holds `from`.
abbrev pub HasRead : ℕ → ℕ → List ℕ → List ℕ → SendWr → Type 0
HasRead here there from to wr =
    (k : ℕ)
    → k < wr.sge.length
    → get_elem? to (wr.sge.addr - here + k) ≡ get_elem? from (wr.remote_addr - there + k)

abbrev pub AllRead : ℕ → ℕ → List ℕ → List ℕ → List SendWr → Type 0
AllRead here there from to [] = Unit
AllRead here there from to (wr ∷ wrs) =
    HasRead here there from to wr × AllRead here there from to wrs

some-injective : {a b : Mr} → some a ≡ some b → a ≡ b
some-injective h = cc

module _ (p : MemoryPool) (m : Mr) (known : get_mr p "buffer" ≡ some m) (b : ℕ) where
  abbrev there : ℕ
  there = (get_remote_mr p "buffer").addr

  request-Reads :
      (n i j : ℕ) (c : CallbackInfoWithQpi) (i' : ℕ) (from to : List ℕ) (wr : SendWr)
      → IsReadOf p n c i' (new_assignment "buffer" (i * b % 2 ^ 64) (i * b % 2 ^ 64) b) wr
      → HasRead m.addr there from to wr
      → b < 2 ^ 32
      → m.addr + (i * b + b) < 2 ^ 64
      → there + (i * b + b) < 2 ^ 64
      → i * b ≤ j
      → j < i * b + b
      → get_elem? to j ≡ get_elem? from j
  request-Reads n i j c i' from to wr is_read done narrow own peer low high =
      let region : is_read.region ≡ m = some-injective (sym is_read.known ∙ known) in
      let same : is_read.region.addr ≡ m.addr = ap (λ (r : Mr). r.addr) region in
      let o = i * b in
      let k = j - o in
      let in_to : wr.sge.addr - m.addr + k ≡ j = omega (arith, is_read.addr, same) in
      let in_from : wr.remote_addr - there + k ≡ j = omega (arith, is_read.remote_addr) in
      let here = done k (omega (arith, is_read.length)) in (rw in_to at (rw in_from at here))

  -- The requests from index `i` on bring over the blocks from there on.
  requests-Read :
      (n c_n i j : ℕ) (c : CallbackInfoWithQpi) (from to : List ℕ) (wrs : List SendWr)
      → AreReadsOf p c_n c i (batch_from "buffer" b n i) wrs
      → AllRead m.addr there from to wrs
      → b < 2 ^ 32
      → m.addr + (i + n) * b < 2 ^ 64
      → there + (i + n) * b < 2 ^ 64
      → i * b ≤ j
      → j < (i + n) * b
      → get_elem? to j ≡ get_elem? from j
  unfolding batch_from
  requests-Read zero c_n i j c from to wrs reads done narrow own peer low high =
      let e : (i + 0) * b ≡ i * b = ap (λ m. m * b) (omega arith) in absurd (omega (arith, e))
  requests-Read (suc n) c_n i j c from to [] reads done narrow own peer low high = absurd reads
  requests-Read (suc n) c_n i j c from to (wr ∷ wrs) (first, rest) (now, later) narrow own peer low
        high =
      let e : i + suc n ≡ i + 1 + n = omega arith in
      let next : (i + 1) * b ≡ i * b + b = ap (λ m. m * b) (omega arith) ∙ suc-mul i b in
      let fits : (i + 1) * b ≤ (i + suc n) * b = mul-le-mul_right b (omega arith) in
      elim (dec_lt j (i * b + b)) [
        | yes inside ↦
            request-Reads c_n i j c i from to wr first now narrow (omega (arith, next, fits))
              (omega (arith, next, fits)) low inside
        | no behind ↦
            requests-Read n c_n (i + 1) j c from to wrs rest later narrow (rw e at own)
              (rw e at peer) (omega (arith, next)) (rw e at high)
      ]

-- What the target's allocation leaves, in a block of the size that was asked for.
memory_allocate_target-ok :
    (f : Flags) (d : Block) {target_block : Block} (k : ℕ)
    → memory_allocate_target f (some d) ≡ ok target_block
    → length d.bytes ≡ f.buffer_size
    → (used_size f.batch_size f.block_size < f.buffer_size)
      × (k < f.buffer_size → get_elem? target_block.bytes k ≡ some (k % 128))
unfolding memory_allocate_target
memory_allocate_target-ok f d k h size =
    let (u, large, made) =
      >>=-eq-ok (assert (ltb (used_size f.batch_size f.block_size) f.buffer_size)) _ h in
    let e = ap (λ (t : Block). t.bytes) (ok-injective made) in
    (
      ltb→lt (used_size f.batch_size f.block_size) f.buffer_size (assert-ok _ large),
      λ inside.
          sym (ap (λ l. get_elem? l k) e)
          ∙ get_elem?-fill_from f.buffer_size 0 k d.bytes (omega arith) (omega arith)
              (omega (arith, size)),
    )

nonempty-ok : (list : List SendWr) {wrs : List SendWr} → nonempty list ≡ ok wrs → list ≡ wrs
unfolding nonempty
nonempty-ok [] h = cc
nonempty-ok (wr ∷ list) h = ok-injective h

-- What has been posted are the reads of the batch.
post_read_batch-ok :
    (p : MemoryPool) (qpi : ℕ) (q q' : Qp) (id : ℕ) (a : RdmaAssignment) (ret : ℕ)
    (wrs : List SendWr) (code : ℤ)
    → post_read_batch p qpi q id a ret ≡ ok (q', wrs, code)
    → AreReadsOf p a.batch_size (record { info = id; qpi = qpi }) 0 a.batch wrs
unfolding post_read_batch
post_read_batch-ok p qpi q q' id a ret wrs code posted =
    let c : CallbackInfoWithQpi = record { info = id; qpi = qpi } in
    let (list, runs, more) = >>=-eq-ok (read_wrs p a.batch_size c 0 a.batch) _ posted in
    let (list', filled, end) = >>=-eq-ok (nonempty list) _ more in
    let last : list' ≡ wrs = ap (λ (t : Qp × List SendWr × ℤ). t.1) (ok-injective end) in
    read_wrs-ok-AreReadsOf p a.batch_size c 0 a.batch
      (runs ∙ ap ok (nonempty-ok list filled ∙ last))

-- An initiator that reads a batch of the benchmark, under the key that both sides have registered,
-- finds its buffer as it has to be: if the requests that `post_read_batch` hands over have all been
-- done by the hardware, whatever the buffer held before, then `checkInitiatorCopied` succeeds. The
-- sizes are supposed not to wrap: a block is below 4 GiB, and the batch lies within the
-- 64-bit addresses of both sides.
pub check_initiator_copied-AllRead :
    (f : Flags) (d target_block : Block) (p : MemoryPool) (m : Mr) (qpi : ℕ) (q q' : Qp) (id : ℕ)
    (a : RdmaAssignment) (ret : ℕ) (wrs : List SendWr) (code : ℤ) (to : List ℕ)
    → memory_allocate_target f (some d) ≡ ok target_block
    → length d.bytes ≡ f.buffer_size
    → get_mr p "buffer" ≡ some m
    → a.batch ≡ batch_from "buffer" f.block_size f.batch_size 0
    → post_read_batch p qpi q id a ret ≡ ok (q', wrs, code)
    → AllRead m.addr (get_remote_mr p "buffer").addr target_block.bytes to wrs
    → f.block_size < 2 ^ 32
    → m.addr + f.batch_size * f.block_size < 2 ^ 64
    → (get_remote_mr p "buffer").addr + f.batch_size * f.block_size < 2 ^ 64
    → check_initiator_copied f to ≡ ok true
unfolding check_initiator_copied
check_initiator_copied-AllRead f d target_block p m qpi q q' id a ret wrs code to made size known
      work posted done narrow own peer =
    let b = f.block_size in
    let whole : used_size f.batch_size b ≡ f.batch_size * b = mod-eq_of_lt (omega arith) in
    let from_0 : f.batch_size ≡ 0 + f.batch_size = omega arith in
    let reads = post_read_batch-ok p qpi q q' id a ret wrs code posted in
    let brought : (k : ℕ) → k < f.batch_size * b → get_elem? to k ≡ get_elem? target_block.bytes k =
      λ k inside.
        requests-Read p m known b f.batch_size a.batch_size 0 k (record { info = id; qpi = qpi })
          target_block.bytes to wrs (rw work at reads) done narrow (rw from_0 at own)
          (rw from_0 at peer) (omega arith) (rw from_0 at inside) in
    rw whole (
      check_from-Matches (f.batch_size * b) 0 to (λ k low high.
        let (large, filled) = memory_allocate_target-ok f d k made size in
        brought k (omega arith) ∙ filled (omega (arith, large, whole))))
