-- ===== src/Context/Init/Returns.antt =====
-- `init` comes to an end without an exception.
use dlslime.Prelude.{
  ℕ, suc, ◌≡◌, refl, ap, Bool, true, false, String, Option, none, some, List, [], ◌∷◌, ℤ, pos,
  negsuc, ok, or_fault, ◌>>=◌, no_end, runtime_error,
}
use dlslime.MemoryPool.{new_pool}
use dlslime.RdmaInfo.{Gid}
use dlslime.Gids.{find_sgid_type, gid_type_roce_v2, af_inet}
use dlslime.Gids.Search.{find_sgid_type-EndsAt}
use dlslime.Context.{Context}
use dlslime.Context.Init.{
  Verbs, PortAttr, Initialized, LinkLayer, unspecified, infiniband, ethernet, init_cq, init_pd,
  init_gid, init_port, init_device, init, fails, mismatch, gidx_of, or_default_device,
  found_context, find_device,
}

-- The calls of the verbs library that `init` cannot do without succeed, and no port has a GID at
-- index `n`.
pub record Answering (v : Verbs) (n : ℕ) : Type 0 where
  pub default : ℕ
  pub opens : v.open_device 0 ≡ some default
  pub attr : ℕ → ℕ → PortAttr
  pub ports : (ctx port : ℕ) → v.query_port ctx port ≡ some (attr ctx port)
  pub cq : ℕ
  pub queues : v.create_cq ≡ some cq
  pub gids_end : (ctx port : ℕ) → (v.gids ctx).query_gid port n ≡ none

module _ (v : Verbs) (n : ℕ) (a : Answering v n) (gid : Gid) where
  init_cq-returns :
      (ctx : ℕ) (gidx : ℤ) (attr : PortAttr) (c : Context)
      → (r : Initialized) × (init_cq v gid ctx gidx attr c ≡ ok r)
  unfolding init_cq
  init_cq-returns ctx gidx attr c = rw a.queues (_, refl)

  init_pd-returns :
      (ctx : ℕ) (gidx : ℤ) (attr : PortAttr) (c : Context) (pd : Option ℕ)
      → (r : Initialized) × (init_pd v gid ctx gidx attr c pd ≡ ok r)
  unfolding init_pd
  init_pd-returns ctx gidx attr c none = (_, refl)
  init_pd-returns ctx gidx attr c (some pd) =
      init_cq-returns ctx gidx attr (record c { pd = some pd; memory_pool = new_pool (some pd) })

  init_gid-returns :
      (ctx : ℕ) (attr : PortAttr) (c : Context) (layer : LinkLayer) (gidx : ℤ)
      → (r : Initialized) × (init_gid v gid ctx attr c layer gidx ≡ ok r)
  unfolding init_gid
  init_gid-returns ctx attr c infiniband gidx = init_pd-returns ctx gidx attr c v.alloc_pd
  init_gid-returns ctx attr c ethernet (negsuc k) = (_, refl)
  init_gid-returns ctx attr c ethernet (pos k) = init_pd-returns ctx (pos k) attr c v.alloc_pd
  init_gid-returns ctx attr c unspecified (negsuc k) = (_, refl)
  init_gid-returns ctx attr c unspecified (pos k) = init_pd-returns ctx (pos k) attr c v.alloc_pd

  search-returns :
      (ctx port : ℕ)
      → (z : ℤ) × (or_fault no_end
            (find_sgid_type (v.gids ctx) port gid_type_roce_v2 af_inet (suc n))
          ≡ ok z)
  search-returns ctx port =
      let (z, _, _, found, _) =
        find_sgid_type-EndsAt (v.gids ctx) port gid_type_roce_v2 n (a.gids_end ctx port) in
      (z, ap (or_fault no_end) found)

  gidx_of-returns :
      (ctx port : ℕ) (layer : LinkLayer) → (z : ℤ) × (gidx_of v (suc n) ctx port layer ≡ ok z)
  gidx_of-returns ctx port infiniband = (negsuc 0, refl)
  gidx_of-returns ctx port ethernet = search-returns ctx port
  gidx_of-returns ctx port unspecified = search-returns ctx port

  init_link-returns :
      (ctx port : ℕ) (attr : PortAttr) (c : Context) (wrong : Bool)
      → (r : Initialized) × ((elim wrong [
        | true ↦ fails c
        | false ↦ do
          gidx ← gidx_of v (suc n) ctx port attr.link_layer
          init_gid v gid ctx attr c attr.link_layer gidx
      ])
          ≡ ok r)
  init_link-returns ctx port attr c true = (_, refl)
  init_link-returns ctx port attr c false =
      let (gidx, found) = gidx_of-returns ctx port attr.link_layer in
      let (r, run) = init_gid-returns ctx attr c attr.link_layer gidx in (r, rw found run)

  init_port-returns :
      (ctx port : ℕ) (link_type : String) (c : Context)
      → (r : Initialized) × (init_port v (suc n) gid ctx port link_type c ≡ ok r)
  unfolding init_port
  init_port-returns ctx port link_type c =
      let (r, run) =
        init_link-returns ctx port (a.attr ctx port) c
          (mismatch (a.attr ctx port).link_layer link_type) in
      (r, rw (a.ports ctx port) run)

  opened-returns : (old : Option ℕ) → (h : ℕ) × (or_default_device v old ≡ ok h)
  opened-returns none = (a.default, ap (or_fault runtime_error) a.opens)
  opened-returns (some h) = (h, refl)

  init_device-returns :
      (c : Context) (dev_name : String) (port : ℕ) (link_type : String)
      (devices : Option (List String))
      → (r : Initialized) × (init_device v (suc n) gid c dev_name port link_type devices ≡ ok r)
  unfolding init_device
  init_device-returns c dev_name port link_type none = (_, refl)
  init_device-returns c dev_name port link_type (some []) = (_, refl)
  init_device-returns c dev_name port link_type (some (d ∷ devices)) =
      let (ctx, opened) =
        opened-returns (found_context v c.ib_ctx (find_device dev_name 0 (d ∷ devices))) in
      let (r, run) =
        init_port-returns ctx port link_type (record c { ib_ctx = some ctx; ib_port = port }) in
      (r, rw opened run)

  init_once-returns :
      (c : Context) (dev_name : String) (port : ℕ) (link_type : String) (initialized : Bool)
      → (r : Initialized) × ((elim initialized [
        | true ↦ fails c
        | false ↦ init_device v (suc n) gid c dev_name port link_type v.devices
      ])
          ≡ ok r)
  init_once-returns c dev_name port link_type true = (_, refl)
  init_once-returns c dev_name port link_type false =
      init_device-returns c dev_name port link_type v.devices

  pub init-returns :
      (c : Context) (dev_name : String) (port : ℕ) (link_type : String)
      → (r : Initialized) × (init v (suc n) gid c dev_name port link_type ≡ ok r)
  unfolding init
  init-returns c dev_name port link_type =
      init_once-returns (record c { device_name = dev_name }) dev_name port link_type c.initialized
