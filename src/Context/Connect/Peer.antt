-- ===== src/Context/Connect/Peer.antt =====
-- A context that connects to what its peer says of itself.
use dlslime.Prelude.{
  ℕ, suc, min, u32, ap, negsuc, ◌<◌, ◌+◌, ◌≤◌, ◌≡◌, refl, Bool, true, false, String, some, List, [],
  ◌∷◌, map, get_elem?, length, pos, ok, arith, lookup,
}
use native.Mathlib.Nat.{add-zero, zero-add}
use dlslime.Json.{JsonLib}
use dlslime.MemoryPool
use dlslime.MemoryPool.{get_mr, get_remote_mr}
use dlslime.MemoryPool.Exchange.{AllInRange, peer_view, register_remote-mr_info}
use dlslime.RdmaInfo.{RdmaInfo, to_json}
use dlslime.RdmaInfo.Exchange.{InRange, rdma_info_of_json-to_json}
use dlslime.Context.{Context, Qp, endpoint_info}
use dlslime.Context.Connect.{
  Answers, RtrAttr, RtsAttr, by_lid, by_gid, route, u8_of_ℤ, VerbsCall, to_rtr, to_rts, notify_cq,
  rtr_attr, rts_attr, connect_qps, Connected, connect,
}

-- Every queue pair knows the one at the same index on the other side.
abbrev pub paired : List Qp → List Qp → List Qp
paired [] peers = []
paired (q ∷ qs) [] = q ∷ qs
paired (q ∷ qs) (peer ∷ peers) =
    record q { remote_rdma_info = peer.local_rdma_info } ∷ paired qs peers

-- The attributes with which a queue pair becomes ready to receive from its peer. The index -1 of a GID
-- stands for InfiniBand, where the address is a local identifier.
pub record Receives (local remote : RdmaInfo) (attr : RtrAttr) : Type 0 where
  pub peer : attr.dest_qp_num ≡ remote.qpn
  pub psn : attr.rq_psn ≡ u32 remote.psn
  pub mtu : attr.path_mtu ≡ min (u32 local.mtu) (u32 remote.mtu)
  pub by_lid : local.gidx ≡ negsuc 0 → attr.route ≡ by_lid local.lid
  pub by_gid : (k : ℕ) → k < 256 → local.gidx ≡ pos k → attr.route ≡ by_gid remote.gid k 1
  pub reads : attr.max_dest_rd_atomic ≡ 16
  pub timer : attr.min_rnr_timer ≡ 12
  pub port : attr.port_num ≡ 1
  pub service : (attr.sl ≡ 0) × (attr.src_path_bits ≡ 0)

-- The attributes with which it becomes ready to send.
pub record Sends (local : RdmaInfo) (attr : RtsAttr) : Type 0 where
  pub psn : attr.sq_psn ≡ u32 local.psn
  pub reads : attr.max_rd_atomic ≡ 16
  pub timeout : attr.timeout ≡ 14
  pub retries : (attr.retry_cnt ≡ 7) × (attr.rnr_retry ≡ 7)

-- Each queue pair, from index `i` on, is made ready to receive, then ready to send.
abbrev pub Handshakes : ℕ → List Qp → List Qp → List VerbsCall → Type 0
Handshakes i [] peers calls = calls ≡ []
Handshakes i (q ∷ qs) [] calls = ⊥
Handshakes i (q ∷ qs) (peer ∷ peers) calls =
    (rtr : RtrAttr) × (rts : RtsAttr) × (rest : List VerbsCall) × (calls
      ≡ to_rtr i rtr ∷ to_rts i rts ∷ notify_cq ∷ rest)
    × Receives q.local_rdma_info peer.local_rdma_info rtr
    × Sends q.local_rdma_info rts
    × Handshakes (i + 1) qs peers rest

abbrev handshakes : ℕ → List Qp → List Qp → List VerbsCall
handshakes i [] peers = []
handshakes i (q ∷ qs) [] = []
handshakes i (q ∷ qs) (peer ∷ peers) =
    to_rtr i (rtr_attr q.local_rdma_info peer.local_rdma_info)
    ∷ to_rts i (rts_attr q.local_rdma_info)
    ∷ notify_cq
    ∷ handshakes (i + 1) qs peers

rtr_attr-Receives : (local remote : RdmaInfo) → Receives local remote (rtr_attr local remote)
unfolding rtr_attr route u8_of_ℤ
rtr_attr-Receives local remote = record {
  peer = refl;
  psn = refl;
  mtu = omega arith;
  by_lid = λ e. rw e refl;
  by_gid = λ k small e. rw e (ap (λ n. by_gid remote.gid n 1) (omega arith));
  reads = refl;
  timer = refl;
  port = refl;
  service = (refl, refl);
}

rts_attr-Sends : (local : RdmaInfo) → Sends local (rts_attr local)
unfolding rts_attr
rts_attr-Sends local = record { psn = refl; reads = refl; timeout = refl; retries = (refl, refl) }

handshakes_lem :
    (i : ℕ) (qs peers : List Qp)
    → length qs ≤ length peers
    → Handshakes i qs peers (handshakes i qs peers)
handshakes_lem i [] peers h = refl
handshakes_lem i (q ∷ qs) [] h = absurd (omega arith)
handshakes_lem i (q ∷ qs) (peer ∷ peers) h = (
  _,
  _,
  _,
  refl,
  rtr_attr-Receives q.local_rdma_info peer.local_rdma_info,
  rts_attr-Sends q.local_rdma_info,
  handshakes_lem (i + 1) qs peers (omega arith),
)

abbrev pub InfosInRange : List Qp → Type 0
InfosInRange [] = Unit
InfosInRange (q ∷ qs) = InRange q.local_rdma_info × InfosInRange qs

-- The verbs library reports success.
pub record AllSucceed (a : Answers) : Type 0 where
  pub rtr : (i : ℕ) → a.rtr i ≡ 0
  pub rts : (i : ℕ) → a.rts i ≡ 0
  pub notify : (i : ℕ) → a.notify i ≡ 0

abbrev pub any : List Qp → Bool
any [] = false
any (q ∷ qs) = true

module _ (j : JsonLib) (a : Answers) (good : AllSucceed a) where
  open j use {Json, get_field, get_index, array}

  abbrev described : List Qp → List Json
  described = map (λ q. to_json j q.local_rdma_info)

  later :
      (infos : Json) (i : ℕ) (peer : Qp) (peers : List Qp)
      → ((k : ℕ) → get_index infos (i + k) ≡ get_elem? (described (peer ∷ peers)) k)
      → (k : ℕ) → get_index infos (i + 1 + k) ≡ get_elem? (described peers) k
  later infos i peer peers at k = let e : i + 1 + k ≡ i + suc k = omega arith in rw e (at (suc k))

  connect_qps-paired :
      (info infos : Json) (i : ℕ) (qs peers : List Qp)
      → get_field info "rdma_info" ≡ some infos
      → ((k : ℕ) → get_index infos (i + k) ≡ get_elem? (described peers) k)
      → InfosInRange peers
      → length qs ≤ length peers
      → connect_qps j a info i qs
        ≡ ok (record {
          qps = paired qs peers;
          calls = handshakes i qs peers;
          connected = any qs;
          code = pos 0;
        })
  unfolding connect_qps
  connect_qps-paired info infos i [] peers f at r h = refl
  connect_qps-paired info infos i (q ∷ qs) [] f at r h = absurd (omega arith)
  connect_qps-paired info infos i (q ∷ qs) (peer ∷ peers) f at (first, r) h =
      let here : get_index infos i ≡ some (to_json j peer.local_rdma_info) =
        rw add-zero at (at 0) in
      let rest =
        connect_qps-paired info infos (i + 1) qs peers f (later infos i peer peers at) r
          (omega arith) in
      simp (
        f,
        here,
        rdma_info_of_json-to_json j peer.local_rdma_info first,
        good.rtr i,
        good.rts i,
        good.notify i,
        rest,
      )

  endpoint_fields :
      (peer : Context)
      → (get_field (endpoint_info j peer) "rdma_info" ≡ some (array (described peer.qp_management)))
        × (get_field (endpoint_info j peer) "mr_info"
            ≡ some (MemoryPool.mr_info j peer.memory_pool))
  unfolding endpoint_info lookup
  endpoint_fields peer = (simp (j.get_field-object), simp (j.get_field-object))

  pub connect-endpoint_info :
      (c peer : Context)
      → c.connected ≡ false
      → AllInRange peer.memory_pool.mrs
      → InfosInRange peer.qp_management
      → length c.qp_management ≤ length peer.qp_management
      → (r : Connected) × (connect j a c (endpoint_info j peer) ≡ ok r)
        × (r.code ≡ pos 0)
        × (r.context.qp_management ≡ paired c.qp_management peer.qp_management)
        × Handshakes 0 c.qp_management peer.qp_management r.calls
        × ((k : String)
            → get_remote_mr r.context.memory_pool k
              ≡ peer_view (get_mr peer.memory_pool k) (get_remote_mr c.memory_pool k))
        × (r.context.connected ≡ any c.qp_management)
  unfolding connect
  connect-endpoint_info c peer fresh regions infos enough =
      let (rdma, mrs) = endpoint_fields peer in
      let (pool, registered, own, known) =
        register_remote-mr_info j peer.memory_pool c.memory_pool regions in
      let at : (k : ℕ)
          → get_index (array (described peer.qp_management)) (0 + k)
            ≡ get_elem? (described peer.qp_management) k =
        λ k. rw zero-add (j.get_index-array (described peer.qp_management) k) in
      let run =
        connect_qps-paired (endpoint_info j peer) (array (described peer.qp_management)) 0
          c.qp_management peer.qp_management rdma at infos enough in
      let r : Connected = record {
        context = record c {
          memory_pool = pool;
          qp_management = paired c.qp_management peer.qp_management;
          connected = any c.qp_management;
        };
        calls = handshakes 0 c.qp_management peer.qp_management;
        code = pos 0;
      } in
      (
        r,
        simp (mrs, registered, fresh, run),
        refl,
        refl,
        handshakes_lem 0 c.qp_management peer.qp_management enough,
        known,
        refl,
      )
