-- ===== src/MemoryPool/Tests.antt =====
-- A pool with one region, and a peer that reads its description.
use dlslime.Prelude.{String, ◌≡◌, none, [], ok, arith}
use dlslime.Json.Tree.{tree_lib}
use dlslime.MemoryPool.{
  MemoryPool, get_mr, get_remote_mr, register_remote_memory_regions, mr_info, new_pool,
}
use dlslime.MemoryPool.Exchange.{register_remote-mr_info, peer_view}
use dlslime.Samples.{pool}

register_remote-mr_info_example :
    (q : MemoryPool) × (register_remote_memory_regions tree_lib
        (new_pool none)
        (mr_info tree_lib pool)
      ≡ ok q)
    × (q.mrs ≡ [])
    × ((i : String)
        → get_remote_mr q i ≡ peer_view (get_mr pool i) (get_remote_mr (new_pool none) i))
register_remote-mr_info_example =
    register_remote-mr_info tree_lib pool (new_pool none)
      (record { addr = omega arith; length = omega arith; rkey = omega arith }, tt)
