-- ===== src/Context.antt =====
-- csrc/engine/rdma/rdma_context.h: the state of an RDMA context, its queue pairs, and the choice of
-- one of them.
pub mod Selection
pub mod Init
pub mod Lifecycle
pub mod Destroy
pub mod Submit
pub mod Connect
mod Tests
use dlslime.Prelude.{
  ℕ, zero, suc, ◌+◌, ◌%◌, ◌≡◌, String, Bool, true, false, Option, none, some, List, [], ◌∷◌, map,
  replicate, length, ℤ, pos, negsuc, u64_mod, ◌-◌, Result, ok, ◌>>=◌, ◌++ₛ◌, to_string,
}
use dlslime.Json.{JsonLib}
use dlslime.MemoryPool.{MemoryPool, RegMr, new_pool}
use dlslime.MemoryPool
use dlslime.RdmaInfo.{RdmaInfo, to_json}

-- `qp_management_t`. `qp` is a handle, none for a null pointer; the queue holds the places of
-- assignments in the store, oldest first. `wq_future` tells whether the future is valid.
pub record Qp : Type 0 where
  pub qp : Option ℕ
  pub remote_rdma_info : RdmaInfo
  pub local_rdma_info : RdmaInfo
  pub assign_queue : List ℕ
  pub outstanding_rdma_reads : ℕ  -- std::atomic<int>
  pub wq_future : Bool
  pub stop_wq_future : Bool

pub record Context : Type 0 where
  pub device_name : String
  pub ib_ctx : Option ℕ
  pub pd : Option ℕ
  pub comp_channel : Option ℕ
  pub cq : Option ℕ
  pub ib_port : ℕ  -- uint8_t
  pub memory_pool : MemoryPool
  pub qp_management : List Qp
  pub last_qp_selection : ℤ
  pub initialized : Bool
  pub connected : Bool
  pub cq_future : Bool
  pub stop_cq_future : Bool

abbrev pub qp_list_len : ℕ
qp_list_len = 4

-- A `rdma_info()` leaves its fields as the memory has them: `unset` stands for those bits.
abbrev pub new_qp : RdmaInfo → Qp
new_qp unset = record {
  qp = none;
  remote_rdma_info = unset;
  local_rdma_info = unset;
  assign_queue = [];
  outstanding_rdma_reads = 0;
  wq_future = false;
  stop_wq_future = false;
}

-- `RDMAContext()`. The port `uint8_t ib_port_ = -1` is 255.
abbrev pub new_context : RdmaInfo → Context
new_context unset = record {
  device_name = "";
  ib_ctx = none;
  pd = none;
  comp_channel = none;
  cq = none;
  ib_port = 255;
  memory_pool = new_pool none;
  qp_management = replicate qp_list_len (new_qp unset);
  last_qp_selection = negsuc 0;
  initialized = false;
  connected = false;
  cq_future = false;
  stop_cq_future = false;
}

-- `(last + 1) % n`, where the sum is an `int`, the rest a `size_t` and the result an `int` again.
abbrev pub next_selection : ℤ → ℕ → ℕ
next_selection (pos k) n = (k + 1) % n
next_selection (negsuc zero) n = 0 % n
next_selection (negsuc (suc k)) n = (u64_mod - suc k) % n

unfoldable pub select_qpi : Context → Context × ℕ
select_qpi c =
    let qpi = next_selection c.last_qp_selection qp_list_len in
    (record c { last_qp_selection = pos qpi }, qpi)

unfoldable pub register_memory_region : RegMr → Context → String → ℕ → ℕ → Result Context
register_memory_region reg_mr c mr_key data_ptr length = do
  p ← MemoryPool.register_memory_region reg_mr c.memory_pool mr_key data_ptr length
  ok (record c { memory_pool = p })

-- `get_dev_ib`
unfoldable pub get_dev_ib : Context → String
get_dev_ib c = "@" ++ₛ c.device_name ++ₛ "#" ++ₛ to_string c.ib_port

-- `validate_assignment` accepts everything for the time being.
unfoldable pub validate_assignment : Context → Bool
validate_assignment c = true

module _ (j : JsonLib) where
  open j use {Json, object, array}

  pub register_remote_memory_region : Context → String → Json → Result Context
  register_remote_memory_region c mr_key info = do
    p ← MemoryPool.register_remote_memory_region j c.memory_pool mr_key info
    ok (record c { memory_pool = p })

  unfoldable pub local_rdma_info : Context → Json
  local_rdma_info c = array (map (λ q. to_json j q.local_rdma_info) c.qp_management)

  pub remote_rdma_info : Context → Json
  remote_rdma_info c = array (map (λ q. to_json j q.remote_rdma_info) c.qp_management)

  unfoldable pub endpoint_info : Context → Json
  unfolding local_rdma_info
  endpoint_info c =
      object
        (("rdma_info", local_rdma_info c) ∷ ("mr_info", MemoryPool.mr_info j c.memory_pool) ∷ [])
