-- ===== src/Samples.antt =====
-- Sample values for the tests.
use dlslime.Prelude.{arith, refl, some, none, [], ◌∷◌, negsuc, pos}
use dlslime.MemoryPool.{Mr, RemoteMr, MemoryPool}
use dlslime.RdmaInfo.{RdmaInfo}
use dlslime.RdmaInfo.Exchange.{InRange}
use dlslime.Scheduler.Exchange.{Compatible}
use dlslime.Assignment.{Assignment, new_assignment}
use dlslime.Gids.{Device, failed}
use dlslime.Context.Init.{Verbs, infiniband}
use dlslime.Context.{Qp, Context, new_qp, new_context}

abbrev pub region : Mr
region = record { addr = 1000; length = 4096; lkey = 7; rkey = 8 }

abbrev pub remote_region : RemoteMr
remote_region = record { addr = 9000; length = 4096; rkey = 18 }

abbrev pub pool : MemoryPool
pool = record { pd = some 1; mrs = ("kv", region) ∷ []; remote_mrs = ("kv", remote_region) ∷ [] }

abbrev pub info : RdmaInfo
info = record {
  qpn = 300;
  gid = record { subnet_prefix = 0; interface_id = 5 };
  gidx = pos 3;
  lid = 2;
  psn = 77;
  mtu = 3;
}

-- A queue pair of an InfiniBand link.
abbrev pub info_ib : RdmaInfo
info_ib = record info { gidx = negsuc 0 }

abbrev pub qp : Qp
qp = new_qp info

abbrev pub context : Context
context = record (new_context info) { memory_pool = pool }

abbrev pub first : Assignment
first = new_assignment "kv" 0 16 64

abbrev pub second : Assignment
second = new_assignment "kv" 64 80 64

-- A machine with one InfiniBand port.
abbrev pub no_gids : Device
no_gids = record {
  query_gid = λ port i. none;
  type_file = λ port i. failed 2;
  gid_attrs = λ port. none;
}

abbrev pub verbs : Verbs
verbs = record {
  devices = some ("mlx5_0" ∷ []);
  open_device = λ i. some 10;
  query_port = λ ctx port. some (record { link_layer = infiniband; lid = 2; active_mtu = 5 });
  gids = λ ctx. no_gids;
  alloc_pd = some 20;
  create_comp_channel = some 30;
  create_cq = some 40;
  create_qp = λ i. some (record { handle = i; qp_num = 300 });
  lrand48 = λ i. 77;
}

pub info-InRange : InRange info
info-InRange = record {
  qpn = omega arith;
  subnet_prefix = omega arith;
  interface_id = omega arith;
  lid = omega arith;
  psn = omega arith;
  mtu = omega arith;
}

-- A context fits one like it.
pub context-Compatible : Compatible context context
context-Compatible = record {
  fresh = refl;
  regions = (record { addr = omega arith; length = omega arith; rkey = omega arith }, tt);
  infos = (info-InRange, (info-InRange, (info-InRange, (info-InRange, tt))));
  enough = omega arith;
}
