-- ===== src/Context/Init/Code.antt =====
-- What the result of `init` says.
use dlslime.Prelude.{
  ℕ, suc, ◌+◌, ◌^◌, ◌<◌, ◌≡◌, ◌≢◌, ◌⊎◌, inl, inr, refl, ap, Bool, true, false, String, Option, none,
  some, List, [], ◌∷◌, length, ℤ, pos, negsuc, ok, or_fault, ◌>>=◌, >>=-eq-ok, ok-injective, arith,
  assertion_failed, runtime_error, Option-cases,
}
use dlslime.MemoryPool.{new_pool}
use dlslime.RdmaInfo.{Gid}
use dlslime.Context.{Context, Qp}
use dlslime.Context.Connect.Peer.{InfosInRange}
use dlslime.Context.Init.{
  Verbs, CreatedQp, PortAttr, Initialized, LinkLayer, unspecified, infiniband, ethernet, init_qps,
  init_cq, init_pd, init_gid, init_port, init_device, init, gid_of, fails, mismatch, gidx_of,
  or_default_device, found_context, find_device,
}

pub record GidInRange (g : Gid) : Type 0 where
  pub subnet_prefix : g.subnet_prefix < 2 ^ 64
  pub interface_id : g.interface_id < 2 ^ 64

-- The verbs library answers with values of its C types.
pub record AnswersInRange (v : Verbs) : Type 0 where
  pub qp_num : (i : ℕ) (made : CreatedQp) → v.create_qp i ≡ some made → made.qp_num < 2 ^ 32
  pub gid : (ctx i : ℕ) (g : Gid) → (v.gids ctx).query_gid 1 i ≡ some g → GidInRange g
  pub port :
      (ctx i : ℕ) (attr : PortAttr)
      → v.query_port ctx i ≡ some attr
      → (attr.lid < 2 ^ 16) × (attr.active_mtu < 2 ^ 64)

-- Every queue pair has a handle.
abbrev pub AllCreated : List Qp → Type 0
AllCreated [] = Unit
AllCreated (q ∷ qs) = (q.qp ≢ none) × AllCreated qs

-- A context that `init` has made ready, from one with `n` queue pairs whose flag was `before`.
pub record Ready (v : Verbs) (before : Bool) (n : ℕ) (r : Context) : Type 0 where
  pub was_new : before ≡ false
  pub initialized : r.initialized ≡ true
  pub created : AllCreated r.qp_management
  pub in_range : InfosInRange r.qp_management
  pub count : length r.qp_management ≡ n
  pub pool : r.memory_pool ≡ new_pool v.alloc_pd

module _ (v : Verbs) (range : AnswersInRange v) where
  gid_of-GidInRange :
      (ctx : ℕ) (gidx : ℤ) (gid : Gid) → GidInRange gid → GidInRange (gid_of (v.gids ctx) gidx gid)
  gid_of-GidInRange ctx (negsuc n) gid h = h
  gid_of-GidInRange ctx (pos n) gid h = elim (Option-cases ((v.gids ctx).query_gid 1 n)) [
    | inl gone ↦ rw gone h
    | inr (g, e) ↦ rw e (range.gid ctx n g e)
  ]

  record QpsReady (qs made : List Qp) : Type 0 where
    created : AllCreated made
    in_range : InfosInRange made
    count : length made ≡ length qs

  init_qps-QpsReady :
      (ctx : ℕ) (gidx : ℤ) (attr : PortAttr) (gid : Gid) (i : ℕ) (qs : List Qp)
      → (attr.lid < 2 ^ 16) × (attr.active_mtu < 2 ^ 64)
      → GidInRange gid
      → (((init_qps v ctx gidx attr gid i qs).1 ≡ pos 0)
          × QpsReady qs (init_qps v ctx gidx attr gid i qs).0)
        ⊎ ((init_qps v ctx gidx attr gid i qs).1 ≡ negsuc 0)
  unfolding init_qps
  init_qps-QpsReady ctx gidx attr gid i [] h g =
      inl (refl, record { created = tt; in_range = tt; count = refl })
  init_qps-QpsReady ctx gidx attr gid i (q ∷ qs) h g =
      let gid' = gid_of (v.gids ctx) gidx gid in
      let g' = gid_of-GidInRange ctx gidx gid g in
      elim (Option-cases (v.create_qp i)) [
        | inl gone ↦ inr (rw (init_qps, gone) refl)
        | inr (made, e) ↦ elim (init_qps-QpsReady ctx gidx attr gid' (i + 1) qs h g') [
          | inl (code, ready) ↦ inl (
            rw (init_qps, e) code,
            rw (init_qps, e)
                (record {
                  created = ((λ n. cc), ready.created);
                  in_range = (
                    record {
                      qpn = range.qp_num i made e;
                      subnet_prefix = g'.subnet_prefix;
                      interface_id = g'.interface_id;
                      lid = h.0;
                      psn = omega arith;
                      mtu = h.1;
                    },
                    ready.in_range,
                  );
                  count = ap suc ready.count;
                }),
          )
          | inr failed ↦ inr (rw (init_qps, e) failed)
        ]
      ]

  abbrev pub Ends : Context → Initialized → Type 0
  Ends c r =
      (r.context.device_name ≡ c.device_name)
      × (((r.code ≡ pos 0) × Ready v c.initialized (length c.qp_management) r.context)
          ⊎ ((r.code ≡ negsuc 0) × (r.context.initialized ≡ c.initialized)))

  fails-Ends : (c : Context) {r : Initialized} → fails c ≡ ok r → Ends c r
  fails-Ends c h = rw (← ok-injective h) (refl, inr (refl, refl))

  init_cq-Ends :
      (ctx : ℕ) (gidx : ℤ) (attr : PortAttr) (gid : Gid) (c : Context) {r : Initialized}
      → (attr.lid < 2 ^ 16) × (attr.active_mtu < 2 ^ 64)
      → GidInRange gid
      → c.initialized ≡ false
      → c.memory_pool ≡ new_pool v.alloc_pd
      → init_cq v gid ctx gidx attr c ≡ ok r
      → Ends c r
  unfolding init_cq
  init_cq-Ends ctx gidx attr gid c a g fresh pool h =
      let (cq, _, made) = >>=-eq-ok (or_fault assertion_failed v.create_cq) _ h in
      rw (← ok-injective made) (
        refl,
        elim (init_qps-QpsReady ctx gidx attr gid 0 c.qp_management a g) [
          | inl (code, ready) ↦ inl (
            code,
            record {
              was_new = fresh;
              initialized = rw (code, fresh) refl;
              created = ready.created;
              in_range = ready.in_range;
              count = ready.count;
              pool = pool;
            },
          )
          | inr failed ↦ inr (failed, rw (failed, fresh) refl)
        ],
      )

  init_pd-Ends :
      (ctx : ℕ) (gidx : ℤ) (attr : PortAttr) (gid : Gid) (c : Context) (pd : Option ℕ)
      {r : Initialized}
      → (attr.lid < 2 ^ 16) × (attr.active_mtu < 2 ^ 64)
      → GidInRange gid
      → c.initialized ≡ false
      → pd ≡ v.alloc_pd
      → init_pd v gid ctx gidx attr c pd ≡ ok r
      → Ends c r
  unfolding init_pd
  init_pd-Ends ctx gidx attr gid c none a g fresh e h = fails-Ends (record c { pd = none }) h
  init_pd-Ends ctx gidx attr gid c (some pd) a g fresh e h =
      init_cq-Ends ctx gidx attr gid (record c { pd = some pd; memory_pool = new_pool (some pd) }) a
        g fresh (ap new_pool e) h

  init_gid-Ends :
      (ctx : ℕ) (gidx : ℤ) (attr : PortAttr) (gid : Gid) (c : Context) (layer : LinkLayer)
      {r : Initialized}
      → (attr.lid < 2 ^ 16) × (attr.active_mtu < 2 ^ 64)
      → GidInRange gid
      → c.initialized ≡ false
      → init_gid v gid ctx attr c layer gidx ≡ ok r
      → Ends c r
  unfolding init_gid
  init_gid-Ends ctx gidx attr gid c infiniband a g fresh h =
      init_pd-Ends ctx gidx attr gid c v.alloc_pd a g fresh refl h
  init_gid-Ends ctx (negsuc n) attr gid c ethernet a g fresh h = fails-Ends c h
  init_gid-Ends ctx (pos n) attr gid c ethernet a g fresh h =
      init_pd-Ends ctx (pos n) attr gid c v.alloc_pd a g fresh refl h
  init_gid-Ends ctx (negsuc n) attr gid c unspecified a g fresh h = fails-Ends c h
  init_gid-Ends ctx (pos n) attr gid c unspecified a g fresh h =
      init_pd-Ends ctx (pos n) attr gid c v.alloc_pd a g fresh refl h

  init_link-Ends :
      (fuel ctx ib_port : ℕ) (attr : PortAttr) (gid : Gid) (c : Context) (wrong : Bool)
      {r : Initialized}
      → (attr.lid < 2 ^ 16) × (attr.active_mtu < 2 ^ 64)
      → GidInRange gid
      → c.initialized ≡ false
      → (elim wrong [
        | true ↦ fails c
        | false ↦ do
          gidx ← gidx_of v fuel ctx ib_port attr.link_layer
          init_gid v gid ctx attr c attr.link_layer gidx
      ])
        ≡ ok r
      → Ends c r
  init_link-Ends fuel ctx ib_port attr gid c true a g fresh h = fails-Ends c h
  init_link-Ends fuel ctx ib_port attr gid c false a g fresh h =
      let (gidx, _, run) = >>=-eq-ok (gidx_of v fuel ctx ib_port attr.link_layer) _ h in
      init_gid-Ends ctx gidx attr gid c attr.link_layer a g fresh run

  option_of_fault :
      (o : Option PortAttr) {attr : PortAttr} → or_fault runtime_error o ≡ ok attr → o ≡ some attr
  option_of_fault none h = cc
  option_of_fault (some attr) h = ap some (ok-injective h)

  init_port-Ends :
      (fuel ctx ib_port : ℕ) (link_type : String) (gid : Gid) (c : Context) {r : Initialized}
      → GidInRange gid
      → c.initialized ≡ false
      → init_port v fuel gid ctx ib_port link_type c ≡ ok r
      → Ends c r
  unfolding init_port
  init_port-Ends fuel ctx ib_port link_type gid c g fresh h =
      let (attr, found, run) = >>=-eq-ok (or_fault runtime_error (v.query_port ctx ib_port)) _ h in
      init_link-Ends fuel ctx ib_port attr gid c (mismatch attr.link_layer link_type)
        (range.port ctx ib_port attr (option_of_fault (v.query_port ctx ib_port) found)) g fresh run

  init_device-Ends :
      (fuel : ℕ) (gid : Gid) (c : Context) (dev_name : String) (ib_port : ℕ) (link_type : String)
      (devices : Option (List String)) {r : Initialized}
      → GidInRange gid
      → c.initialized ≡ false
      → init_device v fuel gid c dev_name ib_port link_type devices ≡ ok r
      → Ends c r
  unfolding init_device
  init_device-Ends fuel gid c dev_name ib_port link_type none g fresh h = fails-Ends c h
  init_device-Ends fuel gid c dev_name ib_port link_type (some []) g fresh h = fails-Ends c h
  init_device-Ends fuel gid c dev_name ib_port link_type (some (d ∷ devices)) g fresh h =
      let (ctx, _, run) =
        >>=-eq-ok
          (or_default_device v (found_context v c.ib_ctx (find_device dev_name 0 (d ∷ devices)))) _
          h in
      init_port-Ends fuel ctx ib_port link_type gid
        (record c { ib_ctx = some ctx; ib_port = ib_port }) g fresh run

  init_once-Ends :
      (fuel : ℕ) (gid : Gid) (c : Context) (dev_name : String) (ib_port : ℕ) (link_type : String)
      (initialized : Bool) {r : Initialized}
      → GidInRange gid
      → c.initialized ≡ initialized
      → (elim initialized [
        | true ↦ fails c
        | false ↦ init_device v fuel gid c dev_name ib_port link_type v.devices
      ])
        ≡ ok r
      → Ends c r
  init_once-Ends fuel gid c dev_name ib_port link_type true g e h = fails-Ends c h
  init_once-Ends fuel gid c dev_name ib_port link_type false g e h =
      init_device-Ends fuel gid c dev_name ib_port link_type v.devices g e h

  -- An `init` that ends without an exception returns 0 or -1, and the context then has the name of
  -- the device that was asked for. With 0 the context was not initialized
  -- before and is now: each of its queue pairs has a handle and a description that fits the types of
  -- the exchange, and its memory pool is empty and in the new protection domain. With -1 the context
  -- is initialized if and only if it was before. The verbs library's answers are supposed to fit
  -- their C types.
  pub init-Ends :
      (fuel : ℕ) (gid : Gid) (c : Context) (dev_name : String) (ib_port : ℕ) (link_type : String)
      (r : Initialized)
      → GidInRange gid
      → init v fuel gid c dev_name ib_port link_type ≡ ok r
      → Ends (record c { device_name = dev_name }) r
  unfolding init
  init-Ends fuel gid c dev_name ib_port link_type r g h =
      init_once-Ends fuel gid (record c { device_name = dev_name }) dev_name ib_port link_type
        c.initialized g refl h
