-- ===== src/Nvlink.antt =====
-- csrc/engine/nvlink: the memory pool of the NVLink transport, and its copies between devices.
pub mod Pool
pub mod Reads
pub mod Peer
pub mod Exchange
mod Tests
use dlslime.Prelude.{
  ℕ, zero, suc, ◌+◌, ◌-◌, ◌%◌, String, Option, none, some, List, [], ◌∷◌, Result, ok, err, or_fault,
  ◌>>=◌, lookup, insert, erase, json_error, process_exit, ℤ, pos, negsuc, add64,
}
use dlslime.Json.{JsonLib}
use dlslime.Assignment.{Assignment, AssignmentBatch}
use dlslime.Nvlink.Pool
use dlslime.Nvlink.Pool.{NvlinkMr, NvlinkMemoryPool, IpcGet, get_mr, get_remote_mr, mr_info}

-- The arguments of `cudaMemcpyAsync`: target, source and length of a copy.
pub record Copy : Type 0 where
  pub dst : ℕ
  pub src : ℕ
  pub count : ℕ

-- The addresses are sums of `uint64_t`.
abbrev pub copy_of : NvlinkMr → NvlinkMr → Assignment → Copy
copy_of source target assign = record {
  dst = add64 source.addr (add64 source.offset assign.source_offset);
  src = add64 target.addr (add64 target.offset assign.target_offset);
  count = assign.length;
}

-- `NVLinkContext::read_batch`, with the pool after its lookups and the copies in order.
unfoldable pub read_batch : NvlinkMemoryPool → AssignmentBatch → NvlinkMemoryPool × List Copy
read_batch p [] = (p, [])
read_batch p (assign ∷ batch) =
    let (p1, source) = get_mr p assign.mr_key in
    let (p2, target) = get_remote_mr p1 assign.mr_key in
    let (p3, copies) = read_batch p2 batch in (p3, copy_of source target assign ∷ copies)

-- `NVLinkContext::register_memory_region`; the result 0 says nothing of the pool.
unfoldable pub register_memory_region :
    IpcGet → NvlinkMemoryPool → String → ℕ → ℕ → ℕ → Result (NvlinkMemoryPool × ℤ)
register_memory_region ipc_get p mr_key addr offset length = do
  q ← Pool.register_memory_region ipc_get p mr_key addr offset length
  ok (q, pos 0)

unfoldable pub endpoint_info : (j : JsonLib) → NvlinkMemoryPool → j.Json
endpoint_info j p = j.object (("mr_info", mr_info j p) ∷ [])

module _ (j : JsonLib) (ipc_open : List ℕ → ℕ) where
  open j use {Json, get_field, items}

  -- `NVLinkContext::register_remote_memory_region`
  unfoldable pub register_remote_memory_region :
      NvlinkMemoryPool → String → Json → Result (NvlinkMemoryPool × ℤ)
  register_remote_memory_region p mr_key info = do
    q ← Pool.register_remote_memory_region j ipc_open p mr_key info
    ok (q, pos 0)

  -- The loop of `connect`.
  pub register_items : NvlinkMemoryPool → List (String × Json) → Result NvlinkMemoryPool
  register_items p [] = ok p
  register_items p ((k, v) ∷ rest) = do
    q ← Pool.register_remote_memory_region j ipc_open p k v
    register_items q rest

  pub connect : NvlinkMemoryPool → Json → Result NvlinkMemoryPool
  unfolding register_items
  connect p info = do
    mrs ← or_fault json_error (get_field info "mr_info")
    register_items p (items mrs)
