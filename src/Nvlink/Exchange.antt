-- ===== src/Nvlink/Exchange.antt =====
-- A pool that connects to what a peer says of itself.
use dlslime.Prelude.{ℕ, ◌≡◌, refl, String, Option, List, lookup, ok}
use dlslime.Json.{JsonLib}
use dlslime.Json.Table.{AllValues, newer, read-table}
use dlslime.Nvlink.Pool.{
  NvlinkMr, NvlinkMemoryPool, json_info, mrs_json, mr_info, register_remote_memory_region,
}
use dlslime.Nvlink.Peer.{InRange, remote_mr_of_json-json_info}
use dlslime.Nvlink.{endpoint_info, register_items, connect}

abbrev pub AllInRange : List (String × NvlinkMr) → Type 0
AllInRange = AllValues InRange

-- A region where the peer opens its handle.
abbrev pub opened : (List ℕ → ℕ) → NvlinkMr → NvlinkMr
opened ipc_open m = record m { addr = ipc_open m.ipc_handle }

-- The peer's region, opened, if it has one under the key, and otherwise what was there.
abbrev pub peer_view : (List ℕ → ℕ) → Option NvlinkMr → Option NvlinkMr → Option NvlinkMr
peer_view ipc_open = newer (opened ipc_open)

module _ (j : JsonLib) (ipc_open : List ℕ → ℕ) where
  open j use {get_field-object, items}

  register_items-mrs_json :
      (p : NvlinkMemoryPool) (ms : List (String × NvlinkMr))
      → AllInRange ms
      → (t : List (String × NvlinkMr)) × (register_items j ipc_open p (items (mrs_json j ms))
          ≡ ok (record p { remote_mrs = t }))
        × ((i : String) → lookup i t ≡ peer_view ipc_open (lookup i ms) (lookup i p.remote_mrs))
  unfolding register_items register_remote_memory_region mrs_json
  register_items-mrs_json p ms a =
      read-table j InRange (json_info j) (opened ipc_open) (mrs_json j) refl (λ k m rest. refl)
        (λ t. record p { remote_mrs = t }) (register_items j ipc_open) (λ q. refl)
        (λ t k m l valid. rw (remote_mr_of_json-json_info j ipc_open m valid) refl) ms p.remote_mrs
        a

  -- A pool that connects to what its peer's `endpoint_info` says keeps its own regions and knows each
  -- of the peer's regions under its key: with the peer's offset, length and handle, and at the address
  -- where the handle opens. A key that the peer does not have leads where it led before. The
  -- fields of the peer's regions are supposed to fit their C++ types.
  pub connect-endpoint_info_nvlink :
      (p peer : NvlinkMemoryPool)
      → AllInRange peer.mrs
      → (q : NvlinkMemoryPool) × (connect j ipc_open p (endpoint_info j peer) ≡ ok q)
        × (q.mrs ≡ p.mrs)
        × ((i : String)
            → lookup i q.remote_mrs
              ≡ peer_view ipc_open (lookup i peer.mrs) (lookup i p.remote_mrs))
  unfolding connect endpoint_info mr_info lookup
  connect-endpoint_info_nvlink p peer a =
      let (t, run, found) = register_items-mrs_json p peer.mrs a in
      (record p { remote_mrs = t }, simp (get_field-object, run), refl, found)
