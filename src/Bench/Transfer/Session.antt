-- ===== src/Bench/Transfer/Session.antt =====
-- bench/cpp/transfer_bench.cpp: the exchange of the two processes, and each of them as a whole.
use dlslime.Prelude.{
  zero, suc, Bool, true, false, str_eq, ℤ, pos, negsuc, Result, ok, err, or_fault, ◌>>=◌, u8,
  assertion_failed, json_error, if◌then◌else◌,
}
use dlslime.Json.{JsonLib}
use dlslime.Store.{empty_store}
use dlslime.Context.{Context, new_context, register_memory_region, endpoint_info}
use dlslime.Context.Init.{init}
use dlslime.Context.Lifecycle.{launch_future, stop_future}
use dlslime.Context.Connect
use dlslime.Bench.Wire.{Wire, send, recv, c_str}
use dlslime.Bench.Transfer.{
  Flags, World, Running, assert, memory_allocate_initiator, memory_allocate_target,
  check_initiator_copied, rounds,
}

pub record Linked : Type 0 where
  pub context : Context
  pub wire : Wire
  pub code : ℤ

-- How a process ends: the value that `main` returns, and its messages.
pub record Ended : Type 0 where
  pub code : ℤ
  pub wire : Wire

abbrev pub is_zero : ℤ → Bool
is_zero (pos zero) = true
is_zero (pos (suc n)) = false
is_zero (negsuc n) = false

module _ (j : JsonLib) (w : World j.Json) where
  -- The result of `RDMAContext::connect` is not looked at.
  unfoldable pub connect : Context → Wire → Result Linked
  connect c wire = do
    let told = send wire (w.dump (endpoint_info j c))
    (message, told') ← recv told
    remote ← or_fault json_error (w.parse message)
    r ← Connect.connect j w.answers c remote
    ok (record { context = r.context; wire = told'; code = pos 0 })

  -- Up to the connection: the context, its buffer under the key "buffer", and the peer.
  unfoldable pub target : Flags → Wire → Result Ended
  unfolding connect
  target f wire = do
    i ← init w.verbs w.fuel w.gid (new_context w.unset) f.device_name (u8 f.ib_port) f.link_type
    data_block ← memory_allocate_target f (w.malloc f.buffer_size)
    c ← register_memory_region w.reg_mr i.context "buffer" data_block.addr f.buffer_size
    l ← connect c wire
    connected ← assert (is_zero l.code)
    (signal, wire') ← recv l.wire
    terminated ← assert (str_eq (c_str signal) "TERMINATE")
    ok (record { code = pos 0; wire = wire' })

  -- The report that is printed before the end is not modelled.
  unfoldable pub initiator : Flags → Wire → Result Ended
  unfolding connect
  initiator f wire = do
    i ← init w.verbs w.fuel w.gid (new_context w.unset) f.device_name (u8 f.ib_port) f.link_type
    data_block ← memory_allocate_initiator f (w.malloc f.buffer_size)
    c ← register_memory_region w.reg_mr i.context "buffer" data_block.addr f.buffer_size
    l ← connect c wire
    connected ← assert (is_zero l.code)
    let start : Running = record {
      context = launch_future l.context;
      store = empty_store;
      total_bytes = 0;
      total_trips = 0;
    }
    r ← rounds w f w.fuel 1 start
    let told = send l.wire "TERMINATE"
    let stopped = stop_future r.context
    copied ← check_initiator_copied f (w.memory data_block)
    same ← assert copied
    ok (record { code = pos 0; wire = told })

  -- `main` after the command line has been read.
  unfoldable pub run_mode : Flags → Wire → Result Ended
  unfolding initiator target
  run_mode f wire =
      if str_eq f.mode "initiator"
      then initiator f wire
      else if str_eq f.mode "target"
      then target f wire
      else err assertion_failed
