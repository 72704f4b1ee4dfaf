-- ===== src/Bench/Scheduling/Session.antt =====
-- bench/cpp/scheduler_bench.cpp: the exchange of the two processes, and each of them as a whole.
use dlslime.Prelude.{
  ℕ, zero, suc, ◌+◌, ◌*◌, ◌/◌, Bool, true, false, String, str_eq, List, [], ◌∷◌, length, map,
  get_elem?, ℤ, pos, negsuc, Result, ok, err, or_fault, ◌>>=◌, assertion_failed, json_error,
  null_dereference, out_of_bounds, division_by_zero, if◌then◌else◌,
}
use dlslime.Json.{JsonLib}
use dlslime.Store.{empty_store}
use dlslime.Scheduler
use dlslime.Scheduler.{Scheduler, scheduler_info, stop_all}
use dlslime.Bench.Memory.{Block}
use dlslime.Bench.Wire.{Wire, send, recv}
use dlslime.Bench.Devices.{nic_devices, nsockets_of, nsplit_of, partition_from}
use dlslime.Bench.Transfer.{assert}
use dlslime.Bench.Scheduling.{
  Flags, World, memory_allocate_initiator, memory_allocate_target, check_initiator_copied,
  allocate_all, all_schedulers,
}
use dlslime.Bench.Scheduling.Loop.{Running, rounds}

-- The three global pointers, whether they are set, and the messages.
pub record Tcp : Type 0 where
  pub tcp_context : Bool
  pub send_socket : Bool
  pub recv_socket : Bool
  pub wire : Wire

unfoldable pub init_tcp : Tcp → Tcp
init_tcp t = record t { tcp_context = true; send_socket = true; recv_socket = true }

-- Each pointer that is set is closed, deleted and set to null.
unfoldable pub reset_tcp_sockets : Tcp → Tcp
reset_tcp_sockets t =
    let sent = if t.send_socket then record t { send_socket = false } else t in
    let received = if sent.recv_socket then record sent { recv_socket = false } else sent in
    if received.tcp_context then record received { tcp_context = false } else received

abbrev pub through : Bool → Result {0} Unit
through true = ok tt
through false = err null_dereference

unfoldable pub tcp_send : Tcp → String → Result Tcp
tcp_send t message = do there ← through t.send_socket; ok (record t { wire = send t.wire message })

unfoldable pub tcp_recv : Tcp → Result (String × Tcp)
tcp_recv t = do
  there ← through t.recv_socket
  (message, wire) ← recv t.wire
  ok (message, record t { wire = wire })

unfoldable pub wait_remote_terminate : Tcp → Result (Tcp × ℤ)
unfolding tcp_recv reset_tcp_sockets
wait_remote_terminate t = do
  (signal, t') ← tcp_recv t
  ok (if str_eq signal "TERMINATE" then (reset_tcp_sockets t', pos 0) else (t', negsuc 0))

unfoldable pub terminate_session : Tcp → Result (Tcp × ℤ)
unfolding tcp_send reset_tcp_sockets
terminate_session t = do t' ← tcp_send t "TERMINATE"; ok (reset_tcp_sockets t', pos 0)

-- How a process ends: the value that `main` returns, the sockets, and the schedulers as their
-- destructors leave them.
pub record Ended : Type 0 where
  pub code : ℤ
  pub tcp : Tcp
  pub schedulers : List Scheduler

-- What the head of both `target` and `initiator` works out.
pub record Shares : Type 0 where
  pub nsockets : ℕ
  pub parts : List (List String)

-- `sch_id / FLAGS_num_thread`
unfoldable pub at_socket : ℕ → ℕ → Result ℕ
at_socket zero sch_id = err division_by_zero
at_socket (suc n) sch_id = ok (sch_id / suc n)

module _ (j : JsonLib) (w : World j.Json) where
  -- `i` is the number of the scheduler.
  unfoldable pub init_connection : ℕ → Scheduler → Tcp → Result (Scheduler × Tcp)
  unfolding tcp_send tcp_recv
  init_connection i s t = do
    told ← tcp_send t (w.dump (scheduler_info j s))
    (message, told') ← tcp_recv told
    remote ← or_fault json_error (w.parse message)
    s' ← Scheduler.connect j (w.answers i) s remote
    ok (s', told')

  -- The loop over the schedulers, from number `i` on.
  unfoldable pub init_connections : ℕ → List Scheduler → Tcp → Result (List Scheduler × Tcp)
  unfolding init_connection
  init_connections i [] t = ok ([], t)
  init_connections i (s ∷ ss) t = do
    (s', t') ← init_connection i s t
    (ss', t'') ← init_connections (i + 1) ss t'
    ok (s' ∷ ss', t'')

  unfoldable pub shares : Flags → Result Shares
  shares f = do
    let devices = nic_devices w.devices f.device_name
    let nsockets = nsockets_of f.numa_affinity w.nodes (length devices)
    nsplit ← nsplit_of (length devices) nsockets
    ok (record { nsockets = nsockets; parts = partition_from devices nsplit nsockets 0 })

  -- A result of -1 of the wait for the end is not looked at.
  unfoldable pub target : Flags → Tcp → Result Ended
  unfolding shares wait_remote_terminate init_tcp init_connections
  target f t = do
    sh ← shares f
    blocks ←
        allocate_all (λ i. memory_allocate_target f (w.numa_alloc_onnode i f.buffer_size))
          sh.nsockets 0
    ss ← all_schedulers w f 0 sh.parts blocks
    (linked, t') ← init_connections 0 ss (init_tcp t)
    (t'', code) ← wait_remote_terminate t'
    ok (record { code = pos 0; tcp = t''; schedulers = map stop_all linked })

  -- The loop over `sch_id` that checks the buffers, each as often as its socket has schedulers.
  unfoldable pub check_all : Flags → List Block → ℕ → ℕ → Result {0} Unit
  unfolding at_socket
  check_all f blocks zero sch_id = ok tt
  check_all f blocks (suc n) sch_id = do
    socket_id ← at_socket f.num_thread sch_id
    block ← or_fault out_of_bounds (get_elem? blocks socket_id)
    copied ← check_initiator_copied f (w.memory socket_id block)
    same ← assert copied
    check_all f blocks n (sch_id + 1)

  -- The report that is printed before the end is not modelled.
  unfoldable pub initiator : Flags → Tcp → Result Ended
  unfolding shares terminate_session init_tcp init_connections check_all
  initiator f t = do
    sh ← shares f
    blocks ←
        allocate_all (λ i. memory_allocate_initiator f (w.numa_alloc_onnode i f.buffer_size))
          sh.nsockets 0
    ss ← all_schedulers w f 0 sh.parts blocks
    (linked, t') ← init_connections 0 ss (init_tcp t)
    let start : Running = record {
      schedulers = linked;
      store = empty_store;
      total_bytes = 0;
      total_trips = 0;
    }
    r ← rounds w f sh.nsockets w.fuel 1 start
    (t'', code) ← terminate_session t'
    checked ← check_all f blocks (sh.nsockets * f.num_thread) 0
    ok (record { code = pos 0; tcp = t''; schedulers = map stop_all r.schedulers })

  -- `main` after the command line has been read.
  unfoldable pub run_mode : Flags → Tcp → Result Ended
  unfolding initiator target
  run_mode f t =
      if str_eq f.mode "initiator"
      then initiator f t
      else if str_eq f.mode "target"
      then target f t
      else err assertion_failed
