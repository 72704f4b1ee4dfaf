-- ===== src/Context/Init/Tests.antt =====
-- A context on an InfiniBand port.
use dlslime.Prelude.{◌≡◌, refl, true, some, [], ◌∷◌, ok, arith, pos, negsuc}
use dlslime.MemoryPool.{new_pool}
use dlslime.RdmaInfo.{RdmaInfo}
use dlslime.Context.{Context, new_context, new_qp}
use dlslime.Context.Init.{init, init_device, init_port, init_gid, init_pd, init_cq, init_qps}
use dlslime.Context.Init.Code.{AnswersInRange, Ends, init-Ends}
use dlslime.Samples.{info, verbs}

verbs-AnswersInRange : AnswersInRange verbs
verbs-AnswersInRange = record {
  qp_num = λ i made e. ground arith;
  gid = λ ctx i g e. cc;
  port = λ ctx i attr e. ground arith;
}

abbrev made_info : RdmaInfo
made_info = record info { qpn = 300; gidx = negsuc 0; lid = 2; psn = 77; mtu = 5 }

abbrev ready : Context
ready = record (new_context info) {
  device_name = "mlx5_0";
  ib_ctx = some 10;
  pd = some 20;
  comp_channel = some 30;
  cq = some 40;
  ib_port = 1;
  memory_pool = new_pool (some 20);
  qp_management =
      record (new_qp info) { qp = some 0; local_rdma_info = made_info }
      ∷ record (new_qp info) { qp = some 1; local_rdma_info = made_info }
      ∷ record (new_qp info) { qp = some 2; local_rdma_info = made_info }
      ∷ record (new_qp info) { qp = some 3; local_rdma_info = made_info }
      ∷ [];
  initialized = true;
}

init-made :
    init verbs 1 info.gid (new_context info) "mlx5_0" 1 "IB"
    ≡ ok (record { context = ready; code = pos 0 })
unfolding init init_device init_port init_gid init_pd init_cq init_qps
init-made = refl

init-Ends_example :
    Ends verbs verbs-AnswersInRange
      (record (new_context info) { device_name = "mlx5_0" })
      (record { context = ready; code = pos 0 })
init-Ends_example =
    init-Ends verbs verbs-AnswersInRange 1 info.gid (new_context info) "mlx5_0" 1 "IB"
      (record { context = ready; code = pos 0 })
      (record { subnet_prefix = omega arith; interface_id = omega arith }) init-made
