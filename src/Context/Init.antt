-- ===== src/Context/Init.antt =====
-- `RDMAContext::init` of csrc/engine/rdma/rdma_context.cpp: the device is opened, its port and GID are
-- looked up, and the queue pairs are created.
pub mod Code
pub mod Returns
mod Tests
use dlslime.Prelude.{
  ℕ, zero, suc, ◌+◌, ◌%◌, ◌^◌, Bool, true, false, String, str_eq, Option, none, some, List, [], ◌∷◌,
  ◌&&◌, ◌||◌, ℤ, pos, negsuc, Result, ok, err, or_fault, ◌>>=◌, runtime_error, assertion_failed,
  no_end, if◌then◌else◌,
}
use dlslime.MemoryPool.{new_pool}
use dlslime.RdmaInfo.{Gid, RdmaInfo}
use dlslime.Gids.{Device, find_sgid_type, gid_type_roce_v2, af_inet}
use dlslime.Context.{Context, Qp}

-- IBV_LINK_LAYER_*
pub data LinkLayer : Type 0 where
  unspecified : LinkLayer
  infiniband : LinkLayer
  ethernet : LinkLayer

-- The fields of `ibv_port_attr` that are read.
pub record PortAttr : Type 0 where
  pub link_layer : LinkLayer
  pub lid : ℕ
  pub active_mtu : ℕ

pub record CreatedQp : Type 0 where
  pub handle : ℕ
  pub qp_num : ℕ

-- What the verbs library answers. A handle is a number, none a null pointer; a device is known by
-- its place in the list. `lrand48` are the random numbers.
pub record Verbs : Type 0 where
  pub devices : Option (List String)
  pub open_device : ℕ → Option ℕ
  pub query_port : ℕ → ℕ → Option PortAttr
  pub gids : ℕ → Device
  pub alloc_pd : Option ℕ
  pub create_comp_channel : Option ℕ
  pub create_cq : Option ℕ
  pub create_qp : ℕ → Option CreatedQp
  pub lrand48 : ℕ → ℕ

pub record Initialized : Type 0 where
  pub context : Context
  pub code : ℤ

-- A log entry and `return -1`.
abbrev pub fails : Context → Result Initialized
fails c = ok (record { context = c; code = negsuc 0 })

-- The first device of the name, from index `i` on.
abbrev find_device : String → ℕ → List String → Option ℕ
find_device dev_name i [] = none
find_device dev_name i (d ∷ devices) =
    let rest = find_device dev_name (i + 1) devices in if str_eq d dev_name then some i else rest

-- `ib_ctx_` after the loop over the devices: a context that was opened before stays if none has the
-- name.
abbrev found_context : Verbs → Option ℕ → Option ℕ → Option ℕ
found_context v old none = old
found_context v old (some i) = v.open_device i

abbrev or_default_device : Verbs → Option ℕ → Result ℕ
or_default_device v none = or_fault runtime_error (v.open_device 0)
or_default_device v (some h) = ok h

abbrev mismatch : LinkLayer → String → Bool
mismatch infiniband link_type = str_eq link_type "RoCE"
mismatch ethernet link_type = str_eq link_type "IB"
mismatch unspecified link_type = false

-- `gidx`: -1 for InfiniBand, and otherwise what the search finds, in at most `fuel` rounds.
abbrev gidx_of : Verbs → ℕ → ℕ → ℕ → LinkLayer → Result ℤ
gidx_of v fuel ctx port infiniband = ok (negsuc 0)
gidx_of v fuel ctx port ethernet =
    or_fault no_end (find_sgid_type (v.gids ctx) port gid_type_roce_v2 af_inet fuel)
gidx_of v fuel ctx port unspecified =
    or_fault no_end (find_sgid_type (v.gids ctx) port gid_type_roce_v2 af_inet fuel)

-- The variable `gid`: on InfiniBand, or where port 1 gives no GID, it stays as it is.
abbrev or_old : Gid → Option Gid → Gid
or_old gid none = gid
or_old gid (some g) = g

abbrev gid_of : Device → ℤ → Gid → Gid
gid_of d (negsuc n) gid = gid
gid_of d (pos n) gid = or_old gid (d.query_gid 1 n)

abbrev pub local_info : CreatedQp → ℤ → Gid → PortAttr → ℕ → RdmaInfo
local_info made gidx gid attr random = record {
  qpn = made.qp_num;
  gid = gid;
  gidx = gidx;
  lid = attr.lid;
  psn = random % 2 ^ 24;
  mtu = attr.active_mtu;
}

-- The loop over the queue pairs, from index `i` on.
unfoldable pub init_qps : Verbs → ℕ → ℤ → PortAttr → Gid → ℕ → List Qp → List Qp × ℤ
init_qps v ctx gidx attr gid i [] = ([], pos 0)
init_qps v ctx gidx attr gid i (q ∷ qs) =
    let gid' = gid_of (v.gids ctx) gidx gid in
    let (rest, code) = init_qps v ctx gidx attr gid' (i + 1) qs in
    elim (v.create_qp i) [
      | none ↦ (record q { qp = none } ∷ qs, negsuc 0)
      | some made ↦ (
        record q {
          qp = some made.handle;
          local_rdma_info = local_info made gidx gid' attr (v.lrand48 i);
        }
            ∷ rest,
        code,
      )
    ]

abbrev is_zero : ℤ → Bool
is_zero (pos zero) = true
is_zero (pos (suc n)) = false
is_zero (negsuc n) = false

-- The completion queue and the queue pairs. `gid` is what the variable holds at first.
unfoldable pub init_cq : Verbs → Gid → ℕ → ℤ → PortAttr → Context → Result Initialized
unfolding init_qps
init_cq v gid ctx gidx attr c =
    let c' = record c { comp_channel = v.create_comp_channel; cq = v.create_cq } in
    do
      cq ← or_fault assertion_failed v.create_cq
      let (qps, code) = init_qps v ctx gidx attr gid 0 c.qp_management
      ok (record {
        context = record c' { qp_management = qps; initialized = c'.initialized || is_zero code };
        code = code;
      })

-- The protection domain, which starts a new memory pool.
unfoldable pub init_pd : Verbs → Gid → ℕ → ℤ → PortAttr → Context → Option ℕ → Result Initialized
unfolding init_cq
init_pd v gid ctx gidx attr c none = fails (record c { pd = none })
init_pd v gid ctx gidx attr c (some pd) =
    init_cq v gid ctx gidx attr (record c { pd = some pd; memory_pool = new_pool (some pd) })

-- A search that fails on a port that is not InfiniBand ends `init`.
unfoldable pub init_gid : Verbs → Gid → ℕ → PortAttr → Context → LinkLayer → ℤ → Result Initialized
unfolding init_pd
init_gid v gid ctx attr c infiniband gidx = init_pd v gid ctx gidx attr c v.alloc_pd
init_gid v gid ctx attr c ethernet (negsuc n) = fails c
init_gid v gid ctx attr c ethernet (pos n) = init_pd v gid ctx (pos n) attr c v.alloc_pd
init_gid v gid ctx attr c unspecified (negsuc n) = fails c
init_gid v gid ctx attr c unspecified (pos n) = init_pd v gid ctx (pos n) attr c v.alloc_pd

unfoldable pub init_port : Verbs → ℕ → Gid → ℕ → ℕ → String → Context → Result Initialized
unfolding init_gid
init_port v fuel gid ctx ib_port link_type c = do
  attr ← or_fault runtime_error (v.query_port ctx ib_port)
  elim (mismatch attr.link_layer link_type) [
    | true ↦ fails c
    | false ↦ do
      gidx ← gidx_of v fuel ctx ib_port attr.link_layer
      init_gid v gid ctx attr c attr.link_layer gidx
  ]

unfoldable pub init_device :
    Verbs → ℕ → Gid → Context → String → ℕ → String → Option (List String) → Result Initialized
unfolding init_port
init_device v fuel gid c dev_name ib_port link_type none = fails c
init_device v fuel gid c dev_name ib_port link_type (some []) = fails c
init_device v fuel gid c dev_name ib_port link_type (some (d ∷ devices)) = do
  ctx ← or_default_device v (found_context v c.ib_ctx (find_device dev_name 0 (d ∷ devices)))
  init_port v fuel gid ctx ib_port link_type (record c { ib_ctx = some ctx; ib_port = ib_port })

-- The name is noted before anything else.
unfoldable pub init : Verbs → ℕ → Gid → Context → String → ℕ → String → Result Initialized
unfolding init_device
init v fuel gid c dev_name ib_port link_type =
    let c' = record c { device_name = dev_name } in
    elim c.initialized [
      | true ↦ fails c'
      | false ↦ init_device v fuel gid c' dev_name ib_port link_type v.devices
    ]
