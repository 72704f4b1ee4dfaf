-- ===== src/Nvlink/Tests.antt =====
-- A batch of two copies, one of them of a key without a region.
use dlslime.Prelude.{String, ℕ, ◌+◌, ◌≡◌, refl, List, [], ◌∷◌, replicate, ok, arith}
use dlslime.Json.Tree.{tree_lib}
use dlslime.Assignment.{new_assignment, AssignmentBatch}
use dlslime.Nvlink.Pool.{NvlinkMr, NvlinkMemoryPool}
use dlslime.Nvlink.{read_batch, connect, endpoint_info}
use dlslime.Nvlink.Exchange.{connect-endpoint_info_nvlink, peer_view}
use dlslime.Nvlink.Reads.{copies_of, region_at, read_batch-copies_of}
use dlslime.Prelude.{lookup}

abbrev region : NvlinkMr
region = record { addr = 5000; offset = 16; length = 4096; ipc_handle = replicate 64 200 }

abbrev pool : NvlinkMemoryPool
pool = record {
  mrs = ("kv", region) ∷ [];
  remote_mrs = ("kv", record region { addr = 70000; offset = 0 }) ∷ [];
}

abbrev batch : AssignmentBatch
batch = new_assignment "kv" 8 4 64 ∷ new_assignment "act" 0 0 32 ∷ []

two_copies :
    copies_of pool batch
    ≡ record { dst = 5020; src = 70008; count = 64 } ∷ record { dst = 0; src = 0; count = 32 } ∷ []
unfolding lookup
two_copies = refl

read_batch-copies_of_example :
    ((read_batch pool batch).1 ≡ copies_of pool batch)
    × (region_at (read_batch pool batch).0.mrs "act" ≡ region_at pool.mrs "act")
    × (region_at (read_batch pool batch).0.remote_mrs "act" ≡ region_at pool.remote_mrs "act")
read_batch-copies_of_example = read_batch-copies_of pool batch "act"

-- A library that opens a handle at an address that its length gives.
abbrev ipc_open : List ℕ → ℕ
ipc_open [] = 1000
ipc_open (b ∷ bytes) = 1 + ipc_open bytes

abbrev fresh_pool : NvlinkMemoryPool
fresh_pool = record { mrs = []; remote_mrs = [] }

connect-endpoint_info_nvlink_example :
    (q : NvlinkMemoryPool) × (connect tree_lib ipc_open fresh_pool (endpoint_info tree_lib pool)
      ≡ ok q)
    × (q.mrs ≡ [])
    × ((i : String) → lookup i q.remote_mrs ≡ peer_view ipc_open (lookup i pool.mrs) (lookup i []))
connect-endpoint_info_nvlink_example =
    connect-endpoint_info_nvlink tree_lib ipc_open fresh_pool pool (
      record {
        offset = omega arith;
        length = omega arith;
        handle_size = refl;
        handle_bytes = ground arith;
      },
      tt,
    )
