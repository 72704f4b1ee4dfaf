-- ===== src/Bench/Transfer/Copies.antt =====
-- What a batch of the initiator brings over.
use native.Mathlib.Nat.{mul-le-mul_right, suc-mul, mod-eq_of_lt}
use dlslime.Prelude.{
  ℕ, zero, ◌+◌, ◌*◌, ◌%◌, ◌^◌, ◌<◌, ◌≤◌, ◌≡◌, refl, ◌∙◌, ap, sym, subst, Bool, true, false,
  or_fault, null_dereference, >>=-eq-ok, ok-injective, ltb→lt, length-replicate, suc, String,
  Option, some, length, get_elem?, ok, ltb, arith,
}
use dlslime.Assignment.{Assignment, new_assignment}
use dlslime.Bench.Memory.{Block, used_size, zeroed}
use dlslime.Bench.Transfer.{Flags, assert, memory_allocate_initiator, batch_from}

get_elem?-batch_from :
    (key : String) (b n i k : ℕ)
    → k < n
    → (i + n) * b < 2 ^ 64
    → get_elem? (batch_from key b n i) k ≡ some (new_assignment key ((i + k) * b) ((i + k) * b) b)
unfolding batch_from
get_elem?-batch_from key b zero i k h small = absurd (omega arith)
get_elem?-batch_from key b (suc n) i zero h small =
    let at : (i + 0) * b ≡ i * b = ap (λ m. m * b) (omega arith) in
    let low : i * b ≤ (i + suc n) * b = mul-le-mul_right b (omega arith) in
    let whole : i * b % 2 ^ 64 ≡ i * b = omega arith in rw (at, whole) refl
get_elem?-batch_from key b (suc n) i (suc k) h small =
    let at : i + suc k ≡ i + 1 + k = omega arith in
    let end : i + suc n ≡ i + 1 + n = omega arith in
    rw at (get_elem?-batch_from key b n (i + 1) k (omega arith) (rw end at small))

pub assert-ok : (c : Bool) {u : Unit} → assert c ≡ ok u → c ≡ true
assert-ok true h = refl
assert-ok false h = cc

-- An allocation that succeeds has room for a batch.
pub memory_allocate_initiator-ok :
    (f : Flags) (block : Option Block) {data_block : Block}
    → memory_allocate_initiator f block ≡ ok data_block
    → (used_size f.batch_size f.block_size < f.buffer_size)
      × (length data_block.bytes ≡ f.buffer_size)
unfolding memory_allocate_initiator zeroed
memory_allocate_initiator-ok f block h =
    let (u, large, more) =
      >>=-eq-ok (assert (ltb (used_size f.batch_size f.block_size) f.buffer_size)) _ h in
    let (b, there, made) = >>=-eq-ok (or_fault null_dereference block) _ more in
    let e = ap (λ (d : Block). length d.bytes) (ok-injective made) in
    (
      ltb→lt (used_size f.batch_size f.block_size) f.buffer_size (assert-ok _ large),
      sym e ∙ length-replicate f.buffer_size 0,
    )

-- The assignments of a batch are the consecutive blocks of the buffer: the one at index `k` copies
-- `block_size` bytes between the offsets `k * block_size`, which end within the buffer that the
-- initiator has allocated. The size of a batch is supposed to fit 64 bits.
pub batch_from-InBounds :
    (f : Flags) (block : Option Block) (data_block : Block) (k : ℕ)
    → memory_allocate_initiator f block ≡ ok data_block
    → f.batch_size * f.block_size < 2 ^ 64
    → k < f.batch_size
    → (a : Assignment) × (get_elem? (batch_from "buffer" f.block_size f.batch_size 0) k ≡ some a)
      × (a.source_offset ≡ k * f.block_size)
      × (a.target_offset ≡ k * f.block_size)
      × (a.source_offset + a.length < length data_block.bytes)
      × (a.target_offset + a.length < f.buffer_size)
batch_from-InBounds f block data_block k made small h =
    let b = f.block_size in
    let (large, long) = memory_allocate_initiator-ok f block made in
    let whole : used_size f.batch_size b ≡ f.batch_size * b = mod-eq_of_lt small in
    let at : 0 + k ≡ k = omega arith in
    let none_before : 0 + f.batch_size ≡ f.batch_size = omega arith in
    let last : suc k * b ≤ f.batch_size * b = mul-le-mul_right b h in
    let next = suc-mul k b in
    (
      new_assignment "buffer" (k * b) (k * b) b,
      rw at at (
          get_elem?-batch_from "buffer" b f.batch_size 0 k h
            (subst (λ n. n * b < 2 ^ 64) (sym none_before) small)),
      refl,
      refl,
      omega (arith, large, long, whole, last, next),
      omega (arith, large, whole, last, next),
    )
