-- ===== src/Context/Connect/Failure.antt =====
-- Where a queue pair cannot be made ready, and what an InfiniBand link is told.
use dlslime.Prelude.{
  ℕ, zero, suc, ◌+◌, ◌≡◌, ◌≢◌, ◌⊎◌, ◌↔◌, inl, inr, refl, sym, ap, ◌∙◌, Bool, true, false, List, [],
  ◌∷◌, length, ℤ, pos, negsuc, Result, ok, err, ◌>>=◌, arith, json_error, or_fault, >>=-eq-ok,
  ok-injective, assertion_failed,
}
use dlslime.Json.{JsonLib}
use dlslime.MemoryPool
use dlslime.RdmaInfo.{RdmaInfo}
use dlslime.Context.{Qp, Context}
use dlslime.Context.Connect.{
  Answers, Loop, rtr_attr, route, connect_qps, bring_up, remote_at, VerbsCall, Connected, connect,
}

abbrev pub is_infiniband : ℤ → Bool
is_infiniband (negsuc zero) = true
is_infiniband (negsuc (suc n)) = false
is_infiniband (pos n) = false

route-lem :
    (local r r' : RdmaInfo) (gidx : ℤ)
    → ((is_infiniband gidx ≡ true) × (route local r gidx ≡ route local r' gidx))
      ⊎ ((is_infiniband gidx ≡ false)
          × ((route local r gidx ≡ route local r' gidx) ↔ (r.gid ≡ r'.gid)))
unfolding route
route-lem local r r' (negsuc zero) = inl (refl, refl)
route-lem local r r' (negsuc (suc n)) = inr (refl, ((λ e. cc), (λ e. cc)))
route-lem local r r' (pos n) = inr (refl, ((λ e. cc), (λ e. cc)))

-- With a global address the route that a queue pair is given tells two peers apart exactly by their
-- GIDs. On an InfiniBand link, where the GID's index is -1, the route is the same for all peers: no
-- field of the peer's description has an influence on it.
pub rtr_attr-route :
    (local r r' : RdmaInfo)
    → ((is_infiniband local.gidx ≡ true) × ((rtr_attr local r).route ≡ (rtr_attr local r').route))
      ⊎ ((is_infiniband local.gidx ≡ false)
          × (((rtr_attr local r).route ≡ (rtr_attr local r').route) ↔ (r.gid ≡ r'.gid)))
unfolding rtr_attr
rtr_attr-route local r r' = route-lem local r r' local.gidx

-- Every call for the queue pairs from index `i` on succeeds.
abbrev pub AllReady : Answers → ℕ → List Qp → Type 0
AllReady a i [] = Unit
AllReady a i (q ∷ qs) = (a.rtr i ≡ 0) × (a.rts i ≡ 0) × (a.notify i ≡ 0) × AllReady a (i + 1) qs

suc-≢-zero : {n : ℕ} → suc n ≢ 0
suc-≢-zero e = omega arith

-- What the loop has done where it ends without a fault.
record Reports (a : Answers) (i : ℕ) (qs : List Qp) (l : Loop) : Type 0 where
  code : ((l.code ≡ pos 0) × AllReady a i qs) ⊎ ((l.code ≡ negsuc 0) × ¬ (AllReady a i qs))
  size : length l.qps ≡ length qs

bring_up-Reports :
    (a : Answers) (i rtr_ret rts_ret notify_ret : ℕ) (q q' : Qp) (qs : List Qp)
    (rtr rts : VerbsCall) (later : Result Loop) {l : Loop}
    → a.rtr i ≡ rtr_ret
    → a.rts i ≡ rts_ret
    → a.notify i ≡ notify_ret
    → ((k : Loop) → later ≡ ok k → Reports a (i + 1) qs k)
    → bring_up rtr_ret rts_ret notify_ret q' qs rtr rts later ≡ ok l
    → Reports a i (q ∷ qs) l
unfolding bring_up
bring_up-Reports a i (suc n) rts_ret notify_ret q q' qs rtr rts later e f g ih h =
    rw (← ok-injective h) (record { code = inr (refl, λ r. suc-≢-zero (sym e ∙ r.0)); size = refl })
bring_up-Reports a i zero (suc n) notify_ret q q' qs rtr rts later e f g ih h =
    rw (← ok-injective h) (record { code = inr (refl, λ r. suc-≢-zero (sym f ∙ r.1)); size = refl })
bring_up-Reports a i zero zero (suc n) q q' qs rtr rts later e f g ih h =
    rw (← ok-injective h) (record { code = inr (refl, λ r. suc-≢-zero (sym g ∙ r.2)); size = refl })
bring_up-Reports a i zero zero zero q q' qs rtr rts later e f g ih h =
    let (k, run, made) = >>=-eq-ok later _ h in
    let v = ih k run in
    rw (← ok-injective made) (record {
      code = elim v.code [
        | inl (zero_code, ready) ↦ inl (zero_code, (e, f, g, ready))
        | inr (failed, not_ready) ↦ inr (failed, λ r. not_ready r.3)
      ];
      size = ap suc v.size;
    })

module _ (j : JsonLib) (a : Answers) where
  open j use {Json, get_field}

  connect_qps-Reports :
      (info : Json) (i : ℕ) (qs : List Qp) {l : Loop}
      → connect_qps j a info i qs ≡ ok l
      → Reports a i qs l
  unfolding connect_qps
  connect_qps-Reports info i [] h =
      rw (← ok-injective h) (record { code = inl (refl, tt); size = refl })
  connect_qps-Reports info i (q ∷ qs) h =
      let (remote, r, run) = >>=-eq-ok (remote_at j a info i) _ h in
      bring_up-Reports a i (a.rtr i) (a.rts i) (a.notify i) q _ qs _ _
        (connect_qps j a info (i + 1) qs) refl refl refl
        (λ k run'. connect_qps-Reports info (i + 1) qs run') run

  connect-code_of :
      (c : Context) (info : Json) (r : Connected) (pool : MemoryPool.MemoryPool) (connected : Bool)
      → (elim connected [
        | true ↦ err assertion_failed
        | false ↦ do
          l ← connect_qps j a info 0 c.qp_management
          ok (record {
            context = record c {
              memory_pool = pool;
              qp_management = l.qps;
              connected = l.connected;
            };
            calls = l.calls;
            code = l.code;
          })
      ])
        ≡ ok r
      → (((r.code ≡ pos 0) × AllReady a 0 c.qp_management)
          ⊎ ((r.code ≡ negsuc 0) × ¬ (AllReady a 0 c.qp_management)))
        × (length r.context.qp_management ≡ length c.qp_management)
  connect-code_of c info r pool true h = cc
  connect-code_of c info r pool false h =
      let (l, run, made) = >>=-eq-ok (connect_qps j a info 0 c.qp_management) _ h in
      let v = connect_qps-Reports info 0 c.qp_management run in
      rw (← ok-injective made) (v.code, v.size)

  -- A connect that ends without a fault keeps the number of queue pairs, and returns 0 exactly when
  -- every call of the verbs library for every queue pair has succeeded, and -1 otherwise.
  pub connect-code :
      (c : Context) (info : Json) (r : Connected)
      → connect j a c info ≡ ok r
      → (((r.code ≡ pos 0) × AllReady a 0 c.qp_management)
          ⊎ ((r.code ≡ negsuc 0) × ¬ (AllReady a 0 c.qp_management)))
        × (length r.context.qp_management ≡ length c.qp_management)
  unfolding connect
  connect-code c info r h =
      let (mrs, _, h1) = >>=-eq-ok (or_fault json_error (get_field info "mr_info")) _ h in
      let (pool, _, h2) =
        >>=-eq-ok (MemoryPool.register_remote_memory_regions j c.memory_pool mrs) _ h1 in
      connect-code_of c info r pool c.connected h2
