-- ===== src/RdmaInfo/Exchange.antt =====
-- The description of a queue pair survives the trip through JSON.
use dlslime.Prelude.{◌<◌, ◌≡◌, ◌^◌, lookup, ok, arith}
use dlslime.Json.{JsonLib}
use dlslime.RdmaInfo.{RdmaInfo, rdma_info_of_json, to_json, uint_field}

-- The fields fit their C++ types.
pub record InRange (r : RdmaInfo) : Type 0 where
  pub qpn : r.qpn < 2 ^ 32
  pub subnet_prefix : r.gid.subnet_prefix < 2 ^ 64
  pub interface_id : r.gid.interface_id < 2 ^ 64
  pub lid : r.lid < 2 ^ 16
  pub psn : r.psn < 2 ^ 64
  pub mtu : r.mtu < 2 ^ 64

module _ (j : JsonLib) where
  open j use {get_field-object, get_uint-num, get_int64-int}

  -- What `to_json` writes, the constructor from JSON reads back with every field unchanged,
  -- provided that the fields fit their C++ types.
  pub rdma_info_of_json-to_json :
      (r : RdmaInfo) → InRange r → rdma_info_of_json j (to_json j r) ≡ ok r
  unfolding rdma_info_of_json to_json uint_field lookup
  rdma_info_of_json-to_json r h =
      simp (get_field-object, get_uint-num, get_int64-int) (ground arith)
