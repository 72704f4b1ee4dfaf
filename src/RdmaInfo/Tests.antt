-- ===== src/RdmaInfo/Tests.antt =====
-- A queue pair's description, written and read.
use dlslime.Prelude.{◌≡◌, ok, arith}
use dlslime.Json.Tree.{tree_lib}
use dlslime.RdmaInfo.{rdma_info_of_json, to_json}
use dlslime.RdmaInfo.Exchange.{rdma_info_of_json-to_json}
use dlslime.Samples.{info}

rdma_info_of_json-to_json_example : rdma_info_of_json tree_lib (to_json tree_lib info) ≡ ok info
rdma_info_of_json-to_json_example = rdma_info_of_json-to_json tree_lib info (record {
  qpn = omega arith;
  subnet_prefix = omega arith;
  interface_id = omega arith;
  lid = omega arith;
  psn = omega arith;
  mtu = omega arith;
})
