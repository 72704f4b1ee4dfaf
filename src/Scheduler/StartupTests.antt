-- ===== src/Scheduler/StartupTests.antt =====
-- A scheduler on two devices, of which the second is not the RoCE port that is asked for.
use dlslime.Prelude.{
  ℕ, zero, suc, ◌≡◌, refl, Option, some, none, List, [], ◌∷◌, ◌++◌, map, ok, true, false, Bool,
  Result, err,
}
use dlslime.RdmaInfo.{Gid}
use dlslime.Gids.{
  Device, File, contents, failed, newline, v2_type, find_sgid_type, find_from, query_gid_type,
  read_sysfs_file,
}
use dlslime.Context.{Context}
use dlslime.Context.Init.{
  Verbs, ethernet, init, init_device, init_port, init_gid, init_pd, init_cq, init_qps,
}
use dlslime.Scheduler.{Scheduler, new_scheduler, init_all}
use dlslime.Samples.{info, verbs}

abbrev gid_at : ℕ → Option Gid
gid_at zero = some (record { subnet_prefix = 0; interface_id = 9 })
gid_at (suc n) = none

abbrev file_at : ℕ → File
file_at zero = contents (v2_type ++ newline ∷ [])
file_at (suc n) = failed 2

abbrev device : Device
device = record {
  query_gid = λ port i. gid_at i;
  type_file = λ port i. file_at i;
  gid_attrs = λ port. none;
}

abbrev roce : Verbs
roce = record verbs {
  query_port = λ ctx port. some (record { link_layer = ethernet; lid = 2; active_mtu = 5 });
  gids = λ ctx. device;
}

abbrev machine : ℕ → Verbs
machine zero = roce
machine (suc i) = verbs

abbrev flags : Result Scheduler → List Bool
flags (ok s) = map (λ (c : Context). c.initialized) s.rdma_ctxs
flags (err e) = []

one_ready :
    flags (new_scheduler machine 2 info.gid info ("mlx5_0" ∷ "mlx5_1" ∷ [])) ≡ true ∷ false ∷ []
unfolding new_scheduler init_all init init_device init_port init_gid init_pd init_cq init_qps
    find_sgid_type find_from query_gid_type read_sysfs_file
one_ready = refl
