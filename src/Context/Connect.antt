-- ===== src/Context/Connect.antt =====
-- `RDMAContext::connect` of csrc/engine/rdma/rdma_context.cpp: the peer's regions are noted, and
-- every queue pair goes from INIT to RTR and from RTR to RTS.
pub mod Peer
pub mod Failure
use dlslime.Prelude.{
  ℕ, zero, suc, ◌+◌, ◌-◌, ◌%◌, min, Bool, true, false, not, ◌||◌, String, Option, none, some, List,
  [], ◌∷◌, ◌++◌, ℤ, pos, negsuc, Result, ok, err, or_fault, ◌>>=◌, json_error, assertion_failed,
  u32, u8, if◌then◌else◌, ◌==◌,
}
use dlslime.Json.{JsonLib}
use dlslime.MemoryPool
use dlslime.RdmaInfo.{RdmaInfo, Gid, rdma_info_of_json}
use dlslime.Context.{Context, Qp}

-- The address of the peer: within the subnet by its local identifier, or global by its GID.
pub data Route : Type 0 where
  by_lid : ℕ → Route
  by_gid : Gid → ℕ → ℕ → Route

-- The attributes for IBV_QPS_RTR.
pub record RtrAttr : Type 0 where
  pub path_mtu : ℕ
  pub dest_qp_num : ℕ
  pub rq_psn : ℕ
  pub max_dest_rd_atomic : ℕ
  pub min_rnr_timer : ℕ
  pub sl : ℕ
  pub src_path_bits : ℕ
  pub port_num : ℕ
  pub route : Route

-- The attributes for IBV_QPS_RTS.
pub record RtsAttr : Type 0 where
  pub timeout : ℕ
  pub retry_cnt : ℕ
  pub rnr_retry : ℕ
  pub sq_psn : ℕ
  pub max_rd_atomic : ℕ

-- The calls of the verbs library, in their order.
pub data VerbsCall : Type 0 where
  to_rtr : ℕ → RtrAttr → VerbsCall
  to_rts : ℕ → RtsAttr → VerbsCall
  notify_cq : VerbsCall

-- `int64_t` converted to `uint8_t`.
unfoldable pub u8_of_ℤ : ℤ → ℕ
u8_of_ℤ (pos n) = n % 256
u8_of_ℤ (negsuc n) = 255 - n % 256

-- The index -1 stands for InfiniBand. A GID comes with the index of the sender's GID and a hop limit.
unfoldable pub route : RdmaInfo → RdmaInfo → ℤ → Route
unfolding u8_of_ℤ
route local remote (negsuc zero) = by_lid local.lid
route local remote (negsuc (suc n)) = by_gid remote.gid (u8_of_ℤ (negsuc (suc n))) 1
route local remote (pos n) = by_gid remote.gid (u8_of_ℤ (pos n)) 1

unfoldable pub rtr_attr : RdmaInfo → RdmaInfo → RtrAttr
unfolding route
rtr_attr local remote = record {
  path_mtu = min (u32 remote.mtu) (u32 local.mtu);
  dest_qp_num = remote.qpn;
  rq_psn = u32 remote.psn;
  max_dest_rd_atomic = 16;
  min_rnr_timer = 12;
  sl = 0;
  src_path_bits = 0;
  port_num = 1;
  route = route local remote local.gidx;
}

unfoldable pub rts_attr : RdmaInfo → RtsAttr
rts_attr local = record {
  timeout = 14;
  retry_cnt = 7;
  rnr_retry = 7;
  sq_psn = u32 local.psn;
  max_rd_atomic = 16;
}

-- What the verbs library returns for the queue pair of an index: 0 is success.
pub record Answers : Type 0 where
  pub rtr : ℕ → ℕ
  pub rts : ℕ → ℕ
  pub notify : ℕ → ℕ

pub record Loop : Type 0 where
  pub qps : List Qp
  pub calls : List VerbsCall
  pub connected : Bool  -- whether the loop has set `connected_`
  pub code : ℤ

pub record Connected : Type 0 where
  pub context : Context
  pub calls : List VerbsCall
  pub code : ℤ

-- The loop goes on behind a queue pair that is connected.
unfoldable pub behind : Qp → List VerbsCall → Loop → Loop
behind q calls l = record l { qps = q ∷ l.qps; calls = calls ++ l.calls; connected = true }

-- The two transitions and the request for a notice, by what the verbs library returns for each.
-- `rest` are the queue pairs behind this one, `later` is what the loop makes of them.
unfoldable pub bring_up :
    ℕ → ℕ → ℕ → Qp → List Qp → VerbsCall → VerbsCall → Result Loop → Result Loop
unfolding behind
bring_up (suc n) rts_ret notify_ret q rest rtr rts later =
    ok (record { qps = q ∷ rest; calls = rtr ∷ []; connected = false; code = negsuc 0 })
bring_up zero (suc n) notify_ret q rest rtr rts later =
    ok (record { qps = q ∷ rest; calls = rtr ∷ rts ∷ []; connected = false; code = negsuc 0 })
bring_up zero zero (suc n) q rest rtr rts later = ok (record {
  qps = q ∷ rest;
  calls = rtr ∷ rts ∷ notify_cq ∷ [];
  connected = true;
  code = negsuc 0;
})
bring_up zero zero zero q rest rtr rts later =
    later >>= λ l. ok (behind q (rtr ∷ rts ∷ notify_cq ∷ []) l)

module _ (j : JsonLib) (a : Answers) where
  open j use {Json, get_field, get_index}

  -- What the peer says of the queue pair of an index.
  unfoldable pub remote_at : Json → ℕ → Result RdmaInfo
  remote_at info i = do
    infos ← or_fault json_error (get_field info "rdma_info")
    entry ← or_fault json_error (get_index infos i)
    rdma_info_of_json j entry

  -- The loop over the queue pairs, from index `i` on.
  unfoldable pub connect_qps : Json → ℕ → List Qp → Result Loop
  unfolding bring_up remote_at
  connect_qps info i [] = ok (record { qps = []; calls = []; connected = false; code = pos 0 })
  connect_qps info i (q ∷ rest) =
      let later = connect_qps info (i + 1) rest in
      do
        remote ← remote_at info i
        bring_up (a.rtr i) (a.rts i) (a.notify i) (record q { remote_rdma_info = remote }) rest
            (to_rtr i (rtr_attr q.local_rdma_info remote)) (to_rts i (rts_attr q.local_rdma_info))
            later

  unfoldable pub connect : Context → Json → Result Connected
  connect c info = do
    mrs ← or_fault json_error (get_field info "mr_info")
    pool ← MemoryPool.register_remote_memory_regions j c.memory_pool mrs
    elim c.connected [
      | true ↦ err assertion_failed
      | false ↦ do
        l ← connect_qps info 0 c.qp_management
        ok (record {
          context = record c { memory_pool = pool; qp_management = l.qps; connected = l.connected };
          calls = l.calls;
          code = l.code;
        })
    ]
