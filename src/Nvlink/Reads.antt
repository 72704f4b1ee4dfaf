-- ===== src/Nvlink/Reads.antt =====
-- The copies of a batch.
use dlslime.Prelude.{
  ◌+◌, ◌%◌, ◌^◌, add64, replicate, ◌≡◌, refl, sym, ap, ◌∙◌, String, Option, none, some, List, [],
  ◌∷◌, lookup, lookup-insert, eq_iff, arith,
}
use dlslime.Assignment.{Assignment, AssignmentBatch}
use dlslime.Nvlink.Pool.{NvlinkMr, NvlinkMemoryPool, get_mr, get_remote_mr, default_mr, found_in}
use dlslime.Nvlink.{Copy, read_batch, copy_of}

-- A key without a region counts as one of address 0.
abbrev pub nowhere : NvlinkMr
nowhere = record { addr = 0; offset = 0; length = 0; ipc_handle = replicate 64 0 }

abbrev or_nowhere : Option NvlinkMr → NvlinkMr
or_nowhere none = nowhere
or_nowhere (some m) = m

abbrev pub region_at : List (String × NvlinkMr) → String → NvlinkMr
region_at entries key = or_nowhere (lookup key entries)

-- The copies that a batch asks for, by the regions that a pool has at first: each into the pool's own
-- region of the key, out of the peer's, between addresses of 64 bits.
abbrev pub copies_of : NvlinkMemoryPool → AssignmentBatch → List Copy
copies_of p [] = []
copies_of p (assign ∷ batch) =
    let own = region_at p.mrs assign.mr_key in
    let remote = region_at p.remote_mrs assign.mr_key in
    record {
      dst = (own.addr + own.offset + assign.source_offset) % 2 ^ 64;
      src = (remote.addr + remote.offset + assign.target_offset) % 2 ^ 64;
      count = assign.length;
    }
    ∷ copies_of p batch

copy_of_lem :
    (own remote : NvlinkMr) (assign : Assignment)
    → copy_of own remote assign ≡ record {
      dst = (own.addr + own.offset + assign.source_offset) % 2 ^ 64;
      src = (remote.addr + remote.offset + assign.target_offset) % 2 ^ 64;
      count = assign.length;
    }
copy_of_lem own remote assign =
    let dst : add64 own.addr (add64 own.offset assign.source_offset)
        ≡ (own.addr + own.offset + assign.source_offset) % 2 ^ 64 =
      omega arith in
    let src : add64 remote.addr (add64 remote.offset assign.target_offset)
        ≡ (remote.addr + remote.offset + assign.target_offset) % 2 ^ 64 =
      omega arith in
    λ i. record { dst = dst i; src = src i; count = assign.length }

-- Two pools with the same regions, the default counted as one.
record Same (p q : NvlinkMemoryPool) : Type 0 where
  own : (k : String) → region_at p.mrs k ≡ region_at q.mrs k
  remote : (k : String) → region_at p.remote_mrs k ≡ region_at q.remote_mrs k

found_in-region_at :
    (key k : String) (entries : List (String × NvlinkMr)) (o : Option NvlinkMr)
    → lookup key entries ≡ o
    → (region_at (found_in key entries o).0 k ≡ region_at entries k)
      × ((found_in key entries o).1 ≡ region_at entries key)
found_in-region_at key k entries none e =
    (ground (arith, lookup-insert key k default_mr entries, eq_iff key k), ap or_nowhere (sym e))
found_in-region_at key k entries (some m) e = (refl, ap or_nowhere (sym e))

get_mr-Same :
    (p : NvlinkMemoryPool) (key : String)
    → Same (get_mr p key).0 p × ((get_mr p key).1 ≡ region_at p.mrs key)
unfolding get_mr
get_mr-Same p key = (
  record {
    own = λ k. (found_in-region_at key k p.mrs (lookup key p.mrs) refl).0;
    remote = λ k. refl;
  },
  (found_in-region_at key key p.mrs (lookup key p.mrs) refl).1,
)

get_remote_mr-Same :
    (p : NvlinkMemoryPool) (key : String)
    → Same (get_remote_mr p key).0 p × ((get_remote_mr p key).1 ≡ region_at p.remote_mrs key)
unfolding get_remote_mr
get_remote_mr-Same p key = (
  record {
    own = λ k. refl;
    remote = λ k. (found_in-region_at key k p.remote_mrs (lookup key p.remote_mrs) refl).0;
  },
  (found_in-region_at key key p.remote_mrs (lookup key p.remote_mrs) refl).1,
)

copies_of-Same :
    (p q : NvlinkMemoryPool) (batch : AssignmentBatch)
    → Same p q
    → copies_of p batch ≡ copies_of q batch
copies_of-Same p q [] same = refl
copies_of-Same p q (assign ∷ batch) same =
    rw (same.own assign.mr_key, same.remote assign.mr_key, copies_of-Same p q batch same) refl

Same-trans : {p q r : NvlinkMemoryPool} → Same p q → Same q r → Same p r
Same-trans f g = record { own = λ k. f.own k ∙ g.own k; remote = λ k. f.remote k ∙ g.remote k }

read_batch-Same :
    (p : NvlinkMemoryPool) (batch : AssignmentBatch)
    → ((read_batch p batch).1 ≡ copies_of p batch) × Same (read_batch p batch).0 p
unfolding read_batch
read_batch-Same p [] = (refl, record { own = λ k. refl; remote = λ k. refl })
read_batch-Same p (assign ∷ batch) =
    let key = assign.mr_key in
    let p1 = (get_mr p key).0 in
    let p2 = (get_remote_mr p1 key).0 in
    let (same1, source) = get_mr-Same p key in
    let (same2, target) = get_remote_mr-Same p1 key in
    let (copies, same3) = read_batch-Same p2 batch in
    let same = Same-trans same2 same1 in
    (
      rw (copies, copies_of-Same p2 p batch same, source, target, same1.remote key)
          (ap (λ x. x ∷ copies_of p batch)
            (copy_of_lem (region_at p.mrs key) (region_at p.remote_mrs key) assign)),
      Same-trans same3 same,
    )

-- A batch starts one copy per assignment, in their order and of its length, into the pool's own region of
-- the key and out of its peer's, each at the region's address and offset and the assignment's offset into
-- it; a key that one of them lacks counts as a region of
-- address 0. The lookups leave every region of the pool as it is.
pub read_batch-copies_of :
    (p : NvlinkMemoryPool) (batch : AssignmentBatch) (k : String)
    → ((read_batch p batch).1 ≡ copies_of p batch)
      × (region_at (read_batch p batch).0.mrs k ≡ region_at p.mrs k)
      × (region_at (read_batch p batch).0.remote_mrs k ≡ region_at p.remote_mrs k)
read_batch-copies_of p batch k =
    let (copies, same) = read_batch-Same p batch in (copies, same.own k, same.remote k)
