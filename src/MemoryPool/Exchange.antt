-- ===== src/MemoryPool/Exchange.antt =====
-- What a peer knows after it has read the description that a pool gives of itself.
use dlslime.Prelude.{◌<◌, ◌^◌, ◌≡◌, refl, String, Option, none, some, List, lookup, ok, arith}
use dlslime.Json.{JsonLib}
use dlslime.Json.Table.{AllValues, newer, read-table}
use dlslime.MemoryPool.{
  MemoryPool, Mr, RemoteMr, remote_mr_of_json, register_remote_memory_region, get_number, mr_json,
  mrs_json, mr_info, register_items, register_remote_memory_regions, get_mr, get_remote_mr,
}

-- The fields fit the C++ types `uintptr_t`, `size_t` and `uint32_t`.
pub record InRange (m : Mr) : Type 0 where
  pub addr : m.addr < 2 ^ 64
  pub length : m.length < 2 ^ 64
  pub rkey : m.rkey < 2 ^ 32

abbrev pub AllInRange : List (String × Mr) → Type 0
AllInRange = AllValues InRange

-- What the peer needs of a region to address it.
abbrev pub remote_view : Mr → RemoteMr
remote_view m = record { addr = m.addr; length = m.length; rkey = m.rkey }

-- The peer's region, if it has one under the key.
abbrev pub peer_view : Option Mr → RemoteMr → RemoteMr
peer_view none old = old
peer_view (some m) old = remote_view m

module _ (j : JsonLib) where
  open j use {Json, get_field-object, get_uint-num, items}

  abbrev describe : Mr → Json
  describe m = mr_json j m.addr m.rkey m.length

  remote_mr_of_json-mr_json :
      (m : Mr) → InRange m → remote_mr_of_json j (describe m) ≡ ok (remote_view m)
  unfolding remote_mr_of_json get_number mr_json lookup
  remote_mr_of_json-mr_json m r = simp (get_field-object, get_uint-num) (ground arith)

  register_items-mrs_json :
      (p : MemoryPool) (ms : List (String × Mr))
      → AllInRange ms
      → (t : List (String × RemoteMr)) × (register_items j p (items (mrs_json j ms))
          ≡ ok (record p { remote_mrs = t }))
        × ((i : String) → lookup i t ≡ newer remote_view (lookup i ms) (lookup i p.remote_mrs))
  unfolding register_items register_remote_memory_region mrs_json
  register_items-mrs_json p ms a =
      read-table j InRange describe remote_view (mrs_json j) refl (λ k m rest. refl)
        (λ t. record p { remote_mrs = t }) (register_items j) (λ q. refl)
        (λ t k m l valid. rw (remote_mr_of_json-mr_json m valid) refl) ms p.remote_mrs a

  -- A context that reads the description a peer's pool gives of itself succeeds, keeps its own
  -- regions, and then knows each of the peer's regions under its key by address, length and remote
  -- key; a key that the peer does not have leads where it led before. The fields of the peer's
  -- regions are supposed to fit their C++ types.
  pub register_remote-mr_info :
      (p q : MemoryPool)
      → AllInRange p.mrs
      → (q' : MemoryPool) × (register_remote_memory_regions j q (mr_info j p) ≡ ok q')
        × (q'.mrs ≡ q.mrs)
        × ((i : String) → get_remote_mr q' i ≡ peer_view (get_mr p i) (get_remote_mr q i))
  unfolding register_remote_memory_regions mr_info get_remote_mr get_mr
  register_remote-mr_info p q a =
      let (t, run, found) = register_items-mrs_json q p.mrs a in
      (record q { remote_mrs = t }, run, refl, λ i. ground (arith, found i))
