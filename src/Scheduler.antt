-- ===== src/Scheduler.antt =====
-- csrc/engine/rdma/rdma_scheduler.h and rdma_scheduler.cpp: several contexts, one per device, and the
-- choice of one of them for each submission.
pub mod Submission
pub mod Exchange
pub mod Startup
mod Tests
mod StartupTests
use dlslime.Prelude.{
  ℕ, zero, suc, ◌+◌, ◌≡◌, String, Bool, true, false, Option, none, some, List, [], ◌∷◌, map, length,
  get_elem?, set, ℤ, pos, negsuc, Result, ok, err, or_fault, ◌>>=◌, division_by_zero, out_of_bounds,
  assertion_failed, json_error, ◌==◌, if◌then◌else◌,
}
use dlslime.Json.{JsonLib}
use dlslime.MemoryPool.{RegMr}
use dlslime.Assignment.{OpCode, AssignmentBatch}
use dlslime.Store.{Store}
use dlslime.Context
use dlslime.Context.{Context, next_selection, endpoint_info}
use dlslime.Context.Submit
use dlslime.Context.Connect
use dlslime.Context.Connect.{Answers}
use dlslime.Context.Init.{Verbs, init}
use dlslime.Context.Lifecycle.{launch_future, stop_future}
use dlslime.RdmaInfo.{Gid, RdmaInfo}

-- The members that some member function uses.
pub record Scheduler : Type 0 where
  pub rdma_ctxs : List Context
  pub last_rdma_selection : ℤ

-- `available_nic` of csrc/utils/utils.cpp; none is a null list.
unfoldable pub available_nic : Option (List String) → List String
available_nic none = []
available_nic (some devices) = devices

abbrev pub or_available : Option (List String) → List String → List String
or_available devices [] = available_nic devices
or_available devices (name ∷ names) = name ∷ names

-- A context for each name, from device `i` on; the result of `init` is not looked at. `v` are the
-- answers of the verbs library, `gid` and `unset` what the memory holds.
unfoldable pub init_all : (ℕ → Verbs) → ℕ → Gid → RdmaInfo → ℕ → List String → Result (List Context)
init_all v fuel gid unset i [] = ok []
init_all v fuel gid unset i (name ∷ names) = do
  r ← init (v i) fuel gid (Context.new_context unset) name 1 "RoCE"
  cs ← init_all v fuel gid unset (i + 1) names
  ok (r.context ∷ cs)

-- `RDMAScheduler(dev_names_args)`
unfoldable pub new_scheduler : (ℕ → Verbs) → ℕ → Gid → RdmaInfo → List String → Result Scheduler
unfolding init_all
new_scheduler v fuel gid unset dev_names = do
  cs ← init_all v fuel gid unset 0 (or_available (v 0).devices dev_names)
  ok (record { rdma_ctxs = cs; last_rdma_selection = negsuc 0 })

-- `~RDMAScheduler`
unfoldable pub stop_all : Scheduler → Scheduler
stop_all s = record s { rdma_ctxs = map (λ c. (stop_future c).0) s.rdma_ctxs }

-- What the selection becomes with so many contexts.
abbrev selected : Scheduler → ℕ → Result (Scheduler × ℕ)
selected s zero = err division_by_zero
selected s (suc n) =
    let i = next_selection s.last_rdma_selection (suc n) in
    ok (record s { last_rdma_selection = pos i }, i)

unfoldable pub select_rdma : Scheduler → Result (Scheduler × ℕ)
select_rdma s = selected s (length s.rdma_ctxs)

-- The scheduler, the store, and the assignments that a `RDMASchedulerAssignment` holds.
pub record Submitted : Type 0 where
  pub scheduler : Scheduler
  pub store : Store
  pub rdma_assignment_batch : List (Option ℕ)

unfoldable pub submit_assignment : Scheduler → Store → OpCode → AssignmentBatch → Result Submitted
submit_assignment s store opcode batch = do
  (s', i) ← select_rdma s
  c ← or_fault out_of_bounds (get_elem? s'.rdma_ctxs i)
  r ← Submit.submit c store opcode batch none
  ok (record {
    scheduler = record s' { rdma_ctxs = set s'.rdma_ctxs i r.context };
    store = r.store;
    rdma_assignment_batch = r.result ∷ [];
  })

unfoldable pub register_all : RegMr → String → ℕ → ℕ → List Context → Result (List Context)
register_all reg_mr mr_key data_ptr length [] = ok []
register_all reg_mr mr_key data_ptr length (c ∷ cs) = do
  c' ← Context.register_memory_region reg_mr c mr_key data_ptr length
  cs' ← register_all reg_mr mr_key data_ptr length cs
  ok (c' ∷ cs')

unfoldable pub register_memory_region : RegMr → Scheduler → String → ℕ → ℕ → Result Scheduler
unfolding register_all
register_memory_region reg_mr s mr_key data_ptr length = do
  cs ← register_all reg_mr mr_key data_ptr length s.rdma_ctxs
  ok (record s { rdma_ctxs = cs })

module _ (j : JsonLib) where
  open j use {Json, null, array, get_index, size}

  -- Without a context the value stays null.
  unfoldable pub infos : List Context → Json
  infos [] = null
  infos (c ∷ cs) = array (map (endpoint_info j) (c ∷ cs))

  unfoldable pub scheduler_info : Scheduler → Json
  unfolding infos
  scheduler_info s = infos s.rdma_ctxs

  module _ (a : ℕ → Answers) where
    -- The loop over the contexts, from index `i` on. The result of a context's `connect` is not
    -- looked at.
    unfoldable pub connect_all : Json → ℕ → List Context → Result (List Context)
    connect_all info i [] = ok []
    connect_all info i (c ∷ cs) = do
      remote ← or_fault json_error (get_index info i)
      r ← Connect.connect j (a i) c remote
      cs' ← connect_all info (i + 1) cs
      ok (launch_future r.context ∷ cs')

    unfoldable pub connect : Scheduler → Json → Result Scheduler
    unfolding connect_all
    connect s info =
        let connected = connect_all info 0 s.rdma_ctxs in
        if length s.rdma_ctxs == size info
        then (connected >>= λ cs. ok (record s { rdma_ctxs = cs }))
        else err assertion_failed
