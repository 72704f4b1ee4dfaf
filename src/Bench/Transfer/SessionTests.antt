-- ===== src/Bench/Transfer/SessionTests.antt =====
-- Both processes of the benchmark, from the command line to the value that `main` returns.
use dlslime.Prelude.{
  ◌≡◌, refl, ℕ, String, ◌<◌, ◌%◌, get_elem?, lookup, insert, erase, some, [], ◌∷◌, ok, err,
  assertion_failed, pos,
}
use dlslime.Json.Tree
use dlslime.Json.Tree.{Tree, tree_lib}
use dlslime.MemoryPool
use dlslime.RdmaInfo.{rdma_info_of_json, uint_field, to_json}
use dlslime.Store.{make_shared, acquire, release, put, cell, query, find}
use dlslime.Store.Dump.{wait}
use dlslime.Context.{Context, endpoint_info, local_rdma_info, register_memory_region, select_qpi}
use dlslime.Context.Connect
use dlslime.Context.Init.{init, init_device, init_port, init_gid, init_pd, init_cq, init_qps}
use dlslime.Context.Lifecycle.{launch_future, stop_future}
use dlslime.Context.Submit.{submit, split, split_from, enqueue}
use dlslime.Bench.Transfer.Ends.{initiator-ok}
use dlslime.Bench.Memory.{Block, zeroed, fill_from, check_from}
use dlslime.Bench.Wire.{send, recv, c_str}
use dlslime.Bench.Transfer.{
  Flags, World, memory_allocate_initiator, memory_allocate_target, batch_from, submit_all, served,
  wait_each, round, rounds, release_all, check_initiator_copied,
}
use dlslime.Bench.Transfer.Session.{run_mode, initiator, target, connect}
use dlslime.Bench.Transfer.RoundsTests.{world, tiny}
use dlslime.Samples.{context}

abbrev told : World Tree
told = record world { parse = λ text. some (endpoint_info tree_lib context); dump = λ j. "told" }

abbrev reading : Flags
reading = record tiny { mode = "initiator"; device_name = "mlx5_0"; link_type = "IB" }

initiator-ends :
    run_mode tree_lib told reading (record { sent = []; arriving = "told" ∷ [] })
    ≡ ok
        (record { code = pos 0; wire = record { sent = "told" ∷ "TERMINATE" ∷ []; arriving = [] } })
unfolding run_mode initiator connect init init_device init_port init_gid init_pd init_cq init_qps
    memory_allocate_initiator zeroed register_memory_region MemoryPool.register_memory_region insert
    send recv endpoint_info local_rdma_info Connect.connect Connect.connect_qps Connect.bring_up
    Connect.behind Connect.remote_at Connect.route rdma_info_of_json uint_field to_json
    MemoryPool.register_remote_memory_regions MemoryPool.register_items
    MemoryPool.register_remote_memory_region MemoryPool.remote_mr_of_json MemoryPool.get_number
    MemoryPool.mr_info MemoryPool.mrs_json MemoryPool.mr_json lookup Tree.members Tree.entries
    Tree.fields Tree.elements Tree.at_index Tree.to_list Tree.distinct Tree.uint Tree.int64
    Tree.count erase launch_future stop_future rounds round submit_all submit select_qpi split
    split_from enqueue make_shared acquire release put cell batch_from wait_each served wait query
    find release_all check_initiator_copied check_from
initiator-ends = refl

initiator_done :
    initiator tree_lib told reading (record { sent = []; arriving = "told" ∷ [] })
    ≡ ok
        (record { code = pos 0; wire = record { sent = "told" ∷ "TERMINATE" ∷ []; arriving = [] } })
unfolding initiator connect init init_device init_port init_gid init_pd init_cq init_qps
    memory_allocate_initiator zeroed register_memory_region MemoryPool.register_memory_region insert
    send recv endpoint_info local_rdma_info Connect.connect Connect.connect_qps Connect.bring_up
    Connect.behind Connect.remote_at Connect.route rdma_info_of_json uint_field to_json
    MemoryPool.register_remote_memory_regions MemoryPool.register_items
    MemoryPool.register_remote_memory_region MemoryPool.remote_mr_of_json MemoryPool.get_number
    MemoryPool.mr_info MemoryPool.mrs_json MemoryPool.mr_json lookup Tree.members Tree.entries
    Tree.fields Tree.elements Tree.at_index Tree.to_list Tree.distinct Tree.uint Tree.int64
    Tree.count erase launch_future stop_future rounds round submit_all submit select_qpi split
    split_from enqueue make_shared acquire release put cell batch_from wait_each served wait query
    find release_all check_initiator_copied check_from
initiator_done = refl

initiator-ok_example :
    (pos 0 ≡ pos 0)
    × (c : Context) × ("told" ∷ "TERMINATE" ∷ []
        ≡ told.dump (endpoint_info tree_lib c) ∷ "TERMINATE" ∷ [])
    × (message : String) × ("told" ∷ [] ≡ message ∷ [])
    × (block : Block) × (memory_allocate_initiator reading (told.malloc 9) ≡ ok block)
    × ((k : ℕ) → k < 8 → get_elem? (told.memory block) k ≡ some (k % 128))
initiator-ok_example =
    initiator-ok tree_lib told reading (record { sent = []; arriving = "told" ∷ [] })
      (record { code = pos 0; wire = record { sent = "told" ∷ "TERMINATE" ∷ []; arriving = [] } })
      initiator_done

abbrev read_from : Flags
read_from = record reading { mode = "target" }

target-ends :
    run_mode tree_lib told read_from (record { sent = []; arriving = "told" ∷ "TERMINATE" ∷ [] })
    ≡ ok (record { code = pos 0; wire = record { sent = "told" ∷ []; arriving = [] } })
unfolding run_mode target connect init init_device init_port init_gid init_pd init_cq init_qps
    memory_allocate_target fill_from c_str register_memory_region MemoryPool.register_memory_region
    insert send recv endpoint_info local_rdma_info Connect.connect Connect.connect_qps
    Connect.bring_up Connect.behind Connect.remote_at Connect.route rdma_info_of_json uint_field
    to_json MemoryPool.register_remote_memory_regions MemoryPool.register_items
    MemoryPool.register_remote_memory_region MemoryPool.remote_mr_of_json MemoryPool.get_number
    MemoryPool.mr_info MemoryPool.mrs_json MemoryPool.mr_json lookup Tree.members Tree.entries
    Tree.fields Tree.elements Tree.at_index Tree.to_list Tree.distinct Tree.uint Tree.int64
    Tree.count erase launch_future stop_future rounds round submit_all submit select_qpi split
    split_from enqueue make_shared acquire release put cell batch_from wait_each served wait query
    find release_all check_initiator_copied check_from
target-ends = refl

other_mode-ends :
    run_mode tree_lib told (record reading { mode = "both" }) (record { sent = []; arriving = [] })
    ≡ err assertion_failed
unfolding run_mode
other_mode-ends = refl
