-- ===== src/Bench/Scheduling/SessionTests.antt =====
-- Both processes of the benchmark with one device, from the command line to the value that `main`
-- returns.
use dlslime.Prelude.{
  ℕ, ◌≡◌, refl, lookup, insert, erase, false, none, some, List, [], ◌∷◌, ◌*◌, ◌^◌, ℤ, Result, ok,
  err, pos, to_string, replicate, Option,
}
use native.Mathlib.Decide.{dec_lt}
use dlslime.Json.Tree
use dlslime.Json.Tree.{Tree, tree_lib}
use dlslime.MemoryPool
use dlslime.RdmaInfo.{rdma_info_of_json, uint_field, to_json}
use dlslime.Store.{Store, make_shared, acquire, release, put, cell, query, find, wait_all}
use dlslime.Context.{endpoint_info, local_rdma_info, register_memory_region, select_qpi}
use dlslime.Context.Connect
use dlslime.Context.Init.{init, init_device, init_port, init_gid, init_pd, init_cq, init_qps}
use dlslime.Context.Lifecycle.{launch_future, stop_future}
use dlslime.Context.Submit.{submit, split, split_from, enqueue}
use dlslime.Scheduler
use dlslime.Scheduler.{scheduler_info}
use dlslime.Bench.Memory.{zeroed, fill_from, check_from}
use dlslime.Bench.Wire.{send, recv}
use dlslime.Bench.Devices.{
  nic_devices, nsockets_of, nsplit_of, partition_from, sch_devices, split_device_name, tokens_of,
}
use dlslime.Bench.Transfer.{batch_from, release_all}
use dlslime.Bench.Scheduling.{
  Flags, World, default_flags, memory_allocate_initiator, memory_allocate_target,
  check_initiator_copied, allocate_all, socket_schedulers, all_schedulers,
}
use dlslime.Bench.Scheduling.Loop.{
  submit_one, submit_threads, submit_sockets, submit_all, batch_of, release_batch, served,
  wait_each, round, rounds,
}
use dlslime.Bench.Scheduling.Session
use dlslime.Bench.Scheduling.Session.{Tcp, Ended, run_mode}
use dlslime.Bench.Scheduling.Tests.{world}
use dlslime.Bench.Transfer.RoundsTests.{finish}

abbrev finish_all : List (Option ℕ) → Store → Store
finish_all [] s = s
finish_all (none ∷ ids) s = finish_all ids s
finish_all (some id ∷ ids) s = finish_all ids (finish s id)

abbrev two_rounds : World Tree
two_rounds = record world {
  numa_alloc_onnode = λ i size. some (record { addr = 1000; bytes = replicate size 77 });
  clock = λ k. k * (4 * 10 ^ 9);
  serve = λ ss s batch ids. (ss, finish_all ids s);
  memory = λ i b. 0 ∷ 1 ∷ 2 ∷ 3 ∷ 4 ∷ 5 ∷ 6 ∷ 7 ∷ 0 ∷ [];
}

abbrev tiny : Flags
tiny = record default_flags {
  mode = "initiator";
  device_name = "";
  num_thread = 1;
  buffer_size = 9;
  block_size = 4;
  batch_size = 2;
  concurrent_num = 2;
}

abbrev closed : Tcp
closed = record {
  tcp_context = false;
  send_socket = false;
  recv_socket = false;
  wire = record { sent = []; arriving = "told" ∷ "TERMINATE" ∷ [] };
}

abbrev code_of : Result Ended → Option (ℤ × Tcp)
code_of (ok e) = some (e.code, e.tcp)
code_of (err fault) = none

initiator-ends :
    code_of (run_mode tree_lib two_rounds tiny closed)
    ≡ some (
      pos 0,
      record closed {
        wire = record { sent = "told" ∷ "TERMINATE" ∷ []; arriving = "TERMINATE" ∷ [] };
      },
    )
unfolding run_mode Session.initiator Session.shares Session.init_tcp Session.init_connections
    Session.init_connection Session.tcp_send Session.tcp_recv Session.terminate_session
    Session.reset_tcp_sockets Session.check_all Session.at_socket Session.target
    Session.wait_remote_terminate nic_devices nsockets_of nsplit_of partition_from sch_devices
    split_device_name tokens_of allocate_all socket_schedulers all_schedulers
    Scheduler.new_scheduler Scheduler.init_all Scheduler.available_nic
    Scheduler.register_memory_region Scheduler.register_all Scheduler.infos Scheduler.scheduler_info
    Scheduler.connect_all Scheduler.connect Scheduler.stop_all Scheduler.submit_assignment
    Scheduler.select_rdma submit_one submit_threads submit_sockets batch_of release_batch wait_all
    to_string dec_lt fill_from memory_allocate_target init init_device init_port init_gid init_pd
    init_cq init_qps memory_allocate_initiator zeroed register_memory_region
    MemoryPool.register_memory_region insert send recv endpoint_info local_rdma_info Connect.connect
    Connect.connect_qps Connect.bring_up Connect.behind Connect.remote_at Connect.route
    rdma_info_of_json uint_field to_json MemoryPool.register_remote_memory_regions
    MemoryPool.register_items MemoryPool.register_remote_memory_region MemoryPool.remote_mr_of_json
    MemoryPool.get_number MemoryPool.mr_info MemoryPool.mrs_json MemoryPool.mr_json lookup
    Tree.members Tree.entries Tree.fields Tree.elements Tree.at_index Tree.to_list Tree.distinct
    Tree.uint Tree.int64 Tree.count erase launch_future stop_future rounds round submit_all submit
    select_qpi split split_from enqueue make_shared acquire release put cell batch_from wait_each
    served query find release_all check_initiator_copied check_from
initiator-ends = refl

target-ends :
    code_of (run_mode tree_lib two_rounds (record tiny { mode = "target" }) closed)
    ≡ some (pos 0, record closed { wire = record { sent = "told" ∷ []; arriving = [] } })
unfolding run_mode Session.initiator Session.shares Session.init_tcp Session.init_connections
    Session.init_connection Session.tcp_send Session.tcp_recv Session.terminate_session
    Session.reset_tcp_sockets Session.check_all Session.at_socket Session.target
    Session.wait_remote_terminate nic_devices nsockets_of nsplit_of partition_from sch_devices
    split_device_name tokens_of allocate_all socket_schedulers all_schedulers
    Scheduler.new_scheduler Scheduler.init_all Scheduler.available_nic
    Scheduler.register_memory_region Scheduler.register_all Scheduler.infos Scheduler.scheduler_info
    Scheduler.connect_all Scheduler.connect Scheduler.stop_all Scheduler.submit_assignment
    Scheduler.select_rdma submit_one submit_threads submit_sockets batch_of release_batch wait_all
    to_string dec_lt fill_from memory_allocate_target init init_device init_port init_gid init_pd
    init_cq init_qps memory_allocate_initiator zeroed register_memory_region
    MemoryPool.register_memory_region insert send recv endpoint_info local_rdma_info Connect.connect
    Connect.connect_qps Connect.bring_up Connect.behind Connect.remote_at Connect.route
    rdma_info_of_json uint_field to_json MemoryPool.register_remote_memory_regions
    MemoryPool.register_items MemoryPool.register_remote_memory_region MemoryPool.remote_mr_of_json
    MemoryPool.get_number MemoryPool.mr_info MemoryPool.mrs_json MemoryPool.mr_json lookup
    Tree.members Tree.entries Tree.fields Tree.elements Tree.at_index Tree.to_list Tree.distinct
    Tree.uint Tree.int64 Tree.count erase launch_future stop_future rounds round submit_all submit
    select_qpi split split_from enqueue make_shared acquire release put cell batch_from wait_each
    served query find release_all check_initiator_copied check_from
target-ends = refl
