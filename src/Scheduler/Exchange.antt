-- ===== src/Scheduler/Exchange.antt =====
-- Two schedulers that connect, context by context.
use dlslime.Prelude.{
  ℕ, suc, ◌+◌, ◌<◌, ◌≤◌, ◌≡◌, refl, ap, ◌∙◌, true, false, String, some, List, [], ◌∷◌, map, length,
  length-map, get_elem?, ok, arith, ◌==◌, ==_iff,
}
use native.Mathlib.Nat.{add-zero, zero-add}
use dlslime.Json.{JsonLib}
use dlslime.MemoryPool.{get_mr, get_remote_mr}
use dlslime.MemoryPool.Exchange.{AllInRange, peer_view}
use dlslime.Context.{Context, Qp, endpoint_info}
use dlslime.Context.Connect.{Answers}
use dlslime.Context.Connect.Peer.{paired, any, AllSucceed, InfosInRange, connect-endpoint_info}
use dlslime.Context.Lifecycle.{started, launch_future}
use dlslime.Scheduler.{Scheduler, connect_all, connect, scheduler_info, infos}

-- A new context, and a peer whose numbers fit their C++ types and that has queue pairs enough.
pub record Compatible (c peer : Context) : Type 0 where
  pub fresh : c.connected ≡ false
  pub regions : AllInRange peer.memory_pool.mrs
  pub infos : InfosInRange peer.qp_management
  pub enough : length c.qp_management ≤ length peer.qp_management

-- The lists are of one length and fit context by context.
abbrev pub AllCompatible : List Context → List Context → Type 0
AllCompatible [] [] = Unit
AllCompatible [] (p ∷ ps) = ⊥
AllCompatible (c ∷ cs) [] = ⊥
AllCompatible (c ∷ cs) (p ∷ ps) = Compatible c p × AllCompatible cs ps

-- Every queue pair has the future of a dispatching thread.
abbrev pub running : List Qp → List Qp
running [] = []
running (q ∷ qs) = record q { wq_future = true } ∷ running qs

map-started : (qs : List Qp) → map started qs ≡ running qs
map-started [] = refl
map-started (q ∷ qs) = ap (λ l. record q { wq_future = true } ∷ l) (map-started qs)

-- What a context becomes that connects to a peer: its queue pairs have the peer's descriptions and
-- their threads run, and the peer's regions are known.
pub record IsLinked (c peer c' : Context) : Type 0 where
  pub qps : c'.qp_management ≡ running (paired c.qp_management peer.qp_management)
  pub regions :
      (k : String)
      → get_remote_mr c'.memory_pool k
        ≡ peer_view (get_mr peer.memory_pool k) (get_remote_mr c.memory_pool k)
  pub connected : c'.connected ≡ any c.qp_management
  pub polling : c'.cq_future ≡ true

abbrev pub AllLinked : List Context → List Context → List Context → Type 0
AllLinked (c ∷ cs) (p ∷ ps) (c' ∷ cs') = IsLinked c p c' × AllLinked cs ps cs'
AllLinked (c ∷ cs) (p ∷ ps) [] = ⊥
AllLinked (c ∷ cs) [] cs' = ⊥
AllLinked [] ps [] = Unit
AllLinked [] ps (c' ∷ cs') = ⊥

AllCompatible-length : (cs ps : List Context) → AllCompatible cs ps → length cs ≡ length ps
AllCompatible-length [] [] f = refl
AllCompatible-length [] (p ∷ ps) f = absurd f
AllCompatible-length (c ∷ cs) [] f = absurd f
AllCompatible-length (c ∷ cs) (p ∷ ps) (first, rest) = ap suc (AllCompatible-length cs ps rest)

module _ (j : JsonLib) (a : ℕ → Answers) (good : (i : ℕ) → AllSucceed (a i)) where
  open j use {Json, get_index, array, get_index-array, size-array}

  later :
      (info : Json) (i : ℕ) (p : Context) (ps : List Context)
      → ((k : ℕ) → get_index info (i + k) ≡ get_elem? (map (endpoint_info j) (p ∷ ps)) k)
      → (k : ℕ) → get_index info (i + 1 + k) ≡ get_elem? (map (endpoint_info j) ps) k
  later info i p ps at k = let e : i + 1 + k ≡ i + suc k = omega arith in rw e (at (suc k))

  connect_all-AllLinked :
      (info : Json) (i : ℕ) (cs ps : List Context)
      → ((k : ℕ) → get_index info (i + k) ≡ get_elem? (map (endpoint_info j) ps) k)
      → AllCompatible cs ps
      → (cs' : List Context) × (connect_all j a info i cs ≡ ok cs') × AllLinked cs ps cs'
  unfolding connect_all launch_future
  connect_all-AllLinked info i [] ps at f = ([], refl, tt)
  connect_all-AllLinked info i (c ∷ cs) [] at f = absurd f
  connect_all-AllLinked info i (c ∷ cs) (p ∷ ps) at (first, rest) =
      let here : get_index info i ≡ some (endpoint_info j p) = rw add-zero at (at 0) in
      let (r, run, code, qps, calls, regions, connected) =
        connect-endpoint_info j (a i) (good i) c p first.fresh first.regions first.infos
          first.enough in
      let (cs', runs, linked) =
        connect_all-AllLinked info (i + 1) cs ps (later info i p ps at) rest in
      (
        launch_future r.context ∷ cs',
        simp (here, run, runs),
        (
          record {
            qps = ap (map started) qps ∙ map-started (paired c.qp_management p.qp_management);
            regions = regions;
            connected = connected;
            polling = refl;
          },
          linked,
        ),
      )

  infos-array : (ps : List Context) → 0 < length ps → infos j ps ≡ array (map (endpoint_info j) ps)
  unfolding infos
  infos-array [] h = absurd (omega arith)
  infos-array (p ∷ ps) h = refl

  -- A scheduler with new contexts that reads what a peer's `scheduler_info` says, where both have the
  -- same number of contexts, one at least, the peer's numbers fit their C++ types and the verbs
  -- library succeeds, connects each context to the peer's context of the same index and starts its
  -- threads: the futures of its polling thread and of all dispatching threads are valid.
  pub connect-scheduler_info :
      (s peer : Scheduler)
      → 0 < length peer.rdma_ctxs
      → AllCompatible s.rdma_ctxs peer.rdma_ctxs
      → (s' : Scheduler) × (connect j a s (scheduler_info j peer) ≡ ok s')
        × AllLinked s.rdma_ctxs peer.rdma_ctxs s'.rdma_ctxs
  unfolding connect scheduler_info
  connect-scheduler_info s peer some_ctx f =
      let ps = peer.rdma_ctxs in
      let told = infos-array ps some_ctx in
      let at : (k : ℕ)
          → get_index (array (map (endpoint_info j) ps)) (0 + k)
            ≡ get_elem? (map (endpoint_info j) ps) k =
        λ k. rw zero-add (get_index-array (map (endpoint_info j) ps) k) in
      let (cs', run, linked) =
        connect_all-AllLinked (array (map (endpoint_info j) ps)) 0 s.rdma_ctxs ps at f in
      let sized : j.size (array (map (endpoint_info j) ps)) ≡ length ps =
        size-array (map (endpoint_info j) ps) ∙ length-map ps (endpoint_info j) in
      let equal : (length s.rdma_ctxs == length ps) ≡ true =
        (==_iff (length s.rdma_ctxs) (length ps)).1 (AllCompatible-length s.rdma_ctxs ps f) in
      (record s { rdma_ctxs = cs' }, simp (told, sized, equal, run), linked)
