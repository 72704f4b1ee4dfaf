-- ===== src/Bench/Scheduling/Tests.antt =====
-- Two processes with one scheduler each.
use dlslime.Prelude.{◌≡◌, refl, true, none, some, List, [], ◌∷◌, ok, arith, negsuc}
use dlslime.Json.Tree.{Tree, tree_lib}
use dlslime.Scheduler.{Scheduler, scheduler_info}
use dlslime.Bench.Scheduling.{World}
use dlslime.Bench.Scheduling.Session.{Tcp, init_connections}
use dlslime.Bench.Scheduling.Pairing.{AllConnected, init_connections-AllConnected}
use dlslime.Samples.{context-Compatible, context, info, verbs, region}

abbrev pub scheduler : Scheduler
scheduler = record { rdma_ctxs = context ∷ []; last_rdma_selection = negsuc 0 }

abbrev pub world : World Tree
world = record {
  verbs = λ i k. verbs;
  devices = some ("mlx5_0" ∷ []);
  reg_mr = λ pd addr length access. some region;
  answers = λ i k. record { rtr = λ n. 0; rts = λ n. 0; notify = λ n. 0 };
  fuel = 5;
  gid = info.gid;
  unset = info;
  nodes = 2;
  numa_alloc_onnode = λ i size. none;
  clock = λ k. k;
  serve = λ ss s batch ids. (ss, s);
  memory = λ i b. [];
  dump = λ j. "told";
  parse = λ text. some (scheduler_info tree_lib scheduler);
}

abbrev pub opened : Tcp
opened = record {
  tcp_context = true;
  send_socket = true;
  recv_socket = true;
  wire = record { sent = []; arriving = "told" ∷ "TERMINATE" ∷ [] };
}

init_connections-AllConnected_example :
    (ss' : List Scheduler) × (init_connections tree_lib world 0 (scheduler ∷ []) opened
      ≡ ok (
        ss',
        record opened { wire = record { sent = "told" ∷ []; arriving = "TERMINATE" ∷ [] } },
      ))
    × AllConnected (scheduler ∷ []) (scheduler ∷ []) ss'
init_connections-AllConnected_example =
    init_connections-AllConnected tree_lib world
      (λ i k. record { rtr = λ n. refl; rts = λ n. refl; notify = λ n. refl }) 0 (scheduler ∷ [])
      (scheduler ∷ []) opened ("TERMINATE" ∷ []) refl refl refl
      (omega arith, (context-Compatible, tt), tt) (refl, tt)
