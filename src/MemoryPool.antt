-- ===== src/MemoryPool.antt =====
-- csrc/engine/rdma/memory_pool.h and memory_pool.cpp: the memory regions that an RDMA context
-- has registered, and those of its peer.
pub mod Laws
pub mod Exchange
mod Tests
use dlslime.Prelude.{
  ℕ, ◌≡◌, String, Option, none, some, List, [], ◌∷◌, lookup, insert, erase, Result, ok, err,
  or_fault, ◌>>=◌, assertion_failed, json_error, u64, u32,
}
use dlslime.Json.{JsonLib}

-- The fields of `ibv_mr` that the engine reads.
pub record Mr : Type 0 where
  pub addr : ℕ
  pub length : ℕ
  pub lkey : ℕ
  pub rkey : ℕ

pub record RemoteMr : Type 0 where
  pub addr : ℕ
  pub length : ℕ
  pub rkey : ℕ

-- `remote_mr_t()`.
abbrev pub default_remote_mr : RemoteMr
default_remote_mr = record { addr = 0; length = 0; rkey = 0 }

-- `pd` is none before a protection domain is given.
pub record MemoryPool : Type 0 where
  pub pd : Option ℕ
  pub mrs : List (String × Mr)
  pub remote_mrs : List (String × RemoteMr)

abbrev pub new_pool : Option ℕ → MemoryPool
new_pool pd = record { pd = pd; mrs = []; remote_mrs = [] }

-- IBV_ACCESS_LOCAL_WRITE | IBV_ACCESS_REMOTE_WRITE | IBV_ACCESS_REMOTE_READ
abbrev pub access_rights : ℕ
access_rights = 7

-- `ibv_reg_mr(pd, addr, length, access)`; none is a null pointer.
abbrev pub RegMr : Type 0
RegMr = Option ℕ → ℕ → ℕ → ℕ → Option Mr

-- The members that return an `int` return 0 always, so the new pool alone is the result.
unfoldable pub register_memory_region : RegMr → MemoryPool → String → ℕ → ℕ → Result MemoryPool
register_memory_region reg_mr p mr_key data_ptr length = do
  mr ← or_fault assertion_failed (reg_mr p.pd data_ptr length access_rights)
  ok (record p { mrs = insert mr_key mr p.mrs })

pub unregister_memory_region : MemoryPool → String → MemoryPool
unregister_memory_region p mr_key = record p { mrs = erase mr_key p.mrs }

pub unregister_remote_memory_region : MemoryPool → String → MemoryPool
unregister_remote_memory_region p mr_key = record p { remote_mrs = erase mr_key p.remote_mrs }

-- none is a null pointer.
unfoldable pub get_mr : MemoryPool → String → Option Mr
get_mr p mr_key = lookup mr_key p.mrs

abbrev or_default : Option RemoteMr → RemoteMr
or_default none = default_remote_mr
or_default (some m) = m

unfoldable pub get_remote_mr : MemoryPool → String → RemoteMr
get_remote_mr p mr_key = or_default (lookup mr_key p.remote_mrs)

module _ (j : JsonLib) where
  open j use {Json, null, num, object, set_field, get_field, get_uint, items}

  unfoldable pub get_number : ℕ → Json → String → Result ℕ
  get_number width v k = do
    field ← or_fault json_error (get_field v k)
    or_fault json_error (get_uint width field)

  unfoldable pub remote_mr_of_json : Json → Result RemoteMr
  remote_mr_of_json v = do
    addr ← get_number 64 v "addr"
    length ← get_number 64 v "length"
    rkey ← get_number 32 v "rkey"
    ok (record { addr = addr; length = length; rkey = rkey })

  unfoldable pub register_remote_memory_region : MemoryPool → String → Json → Result MemoryPool
  register_remote_memory_region p mr_key v = do
    mr ← remote_mr_of_json v
    ok (record p { remote_mrs = insert mr_key mr p.remote_mrs })

  unfoldable pub mr_json : ℕ → ℕ → ℕ → Json
  mr_json addr rkey length =
      object (("addr", num addr) ∷ ("rkey", num rkey) ∷ ("length", num length) ∷ [])

  -- The order in which an unordered map is walked is not specified: here, from the back.
  unfoldable pub mrs_json : List (String × Mr) → Json
  mrs_json [] = null
  mrs_json ((k, m) ∷ rest) = set_field (mrs_json rest) k (mr_json m.addr m.rkey m.length)

  unfoldable pub mr_info : MemoryPool → Json
  mr_info p = mrs_json p.mrs

  remote_mrs_json : List (String × RemoteMr) → Json
  remote_mrs_json [] = null
  remote_mrs_json ((k, m) ∷ rest) =
      set_field (remote_mrs_json rest) k (mr_json m.addr m.rkey m.length)

  pub remote_mr_info : MemoryPool → Json
  remote_mr_info p = remote_mrs_json p.remote_mrs

  -- The loop at the head of `RDMAContext::connect`.
  unfoldable pub register_items : MemoryPool → List (String × Json) → Result MemoryPool
  register_items p [] = ok p
  register_items p ((k, v) ∷ rest) = do
    q ← register_remote_memory_region p k v
    register_items q rest

  unfoldable pub register_remote_memory_regions : MemoryPool → Json → Result MemoryPool
  register_remote_memory_regions p info = register_items p (items info)
