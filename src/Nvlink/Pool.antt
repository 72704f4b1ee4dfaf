-- ===== src/Nvlink/Pool.antt =====
-- csrc/engine/nvlink/memory_pool.h and memory_pool.cpp.
use dlslime.Prelude.{
  ℕ, zero, suc, ◌+◌, ◌-◌, ◌%◌, String, Option, none, some, List, [], ◌∷◌, map, replicate, Result,
  ok, or_fault, ◌>>=◌, lookup, insert, erase, json_error, process_exit, ℤ, pos, negsuc, ltb,
  if◌then◌else◌,
}
use dlslime.Json.{JsonLib}

abbrev pub ipc_handle_size : ℕ
ipc_handle_size = 64

-- The bytes of a handle are numbers below 256.
pub record NvlinkMr : Type 0 where
  pub addr : ℕ
  pub offset : ℕ
  pub length : ℕ
  pub ipc_handle : List ℕ

-- What `operator[]` puts under a missing key.
abbrev pub default_mr : NvlinkMr
default_mr = record { addr = 0; offset = 0; length = 0; ipc_handle = replicate ipc_handle_size 0 }

pub record NvlinkMemoryPool : Type 0 where
  pub mrs : List (String × NvlinkMr)
  pub remote_mrs : List (String × NvlinkMr)

-- `cudaIpcGetMemHandle`; none is an error, which ends the process.
abbrev pub IpcGet : Type 0
IpcGet = ℕ → Option (List ℕ)

unfoldable pub register_memory_region :
    IpcGet → NvlinkMemoryPool → String → ℕ → ℕ → ℕ → Result NvlinkMemoryPool
register_memory_region ipc_get p mr_key addr offset length = do
  handle ← or_fault process_exit (ipc_get addr)
  ok (record p {
    mrs =
        insert mr_key
          (record { addr = addr; offset = offset; length = length; ipc_handle = handle }) p.mrs;
  })

unfoldable pub unregister_memory_region : NvlinkMemoryPool → String → NvlinkMemoryPool
unregister_memory_region p mr_key = record p { mrs = erase mr_key p.mrs }

-- `map[key]`: the entry, and the map in which there is one.
abbrev pub found_in :
    String → List (String × NvlinkMr) → Option NvlinkMr → List (String × NvlinkMr) × NvlinkMr
found_in key entries none = (insert key default_mr entries, default_mr)
found_in key entries (some m) = (entries, m)

unfoldable pub get_mr : NvlinkMemoryPool → String → NvlinkMemoryPool × NvlinkMr
get_mr p mr_key =
    let (mrs, m) = found_in mr_key p.mrs (lookup mr_key p.mrs) in (record p { mrs = mrs }, m)

unfoldable pub get_remote_mr : NvlinkMemoryPool → String → NvlinkMemoryPool × NvlinkMr
get_remote_mr p mr_key =
    let (remote_mrs, m) = found_in mr_key p.remote_mrs (lookup mr_key p.remote_mrs) in
    (record p { remote_mrs = remote_mrs }, m)

-- With the pool, the address that `cudaIpcCloseMemHandle` is given.
unfoldable pub unregister_remote_memory_region : NvlinkMemoryPool → String → NvlinkMemoryPool × ℕ
unregister_remote_memory_region p mr_key =
    let (remote_mrs, m) = found_in mr_key p.remote_mrs (lookup mr_key p.remote_mrs) in
    (record p { remote_mrs = erase mr_key remote_mrs }, m.addr)

-- A byte as a `char` of JSON, and back.
abbrev pub char_of_byte : ℕ → ℤ
char_of_byte b = if ltb b 128 then pos b else negsuc (255 - b)

abbrev pub byte_of_char : ℤ → ℕ
byte_of_char (pos n) = n % 256
byte_of_char (negsuc n) = 255 - n % 256

module _ (j : JsonLib) where
  open j use {
    Json, null, num, int, object, array, set_field, get_field, get_index, get_uint, get_int64,
  }

  unfoldable pub json_info : NvlinkMr → Json
  json_info m =
      set_field
        (object (("addr", num m.addr) ∷ ("offset", num m.offset) ∷ ("length", num m.length) ∷ []))
        "ipc_handle" (array (map (λ b. int (char_of_byte b)) m.ipc_handle))

  -- The order in which an unordered map is walked is not specified: here, from the back.
  unfoldable pub mrs_json : List (String × NvlinkMr) → Json
  unfolding json_info
  mrs_json [] = null
  mrs_json ((k, m) ∷ rest) = set_field (mrs_json rest) k (json_info m)

  unfoldable pub mr_info : NvlinkMemoryPool → Json
  mr_info p = mrs_json p.mrs

  pub remote_mr_info : NvlinkMemoryPool → Json
  remote_mr_info p = mrs_json p.remote_mrs

  -- So many bytes of a handle, from index `i` on.
  unfoldable pub read_handle : ℕ → ℕ → Json → Result (List ℕ)
  read_handle zero i handle = ok []
  read_handle (suc n) i handle = do
    entry ← or_fault json_error (get_index handle i)
    char ← or_fault json_error (get_int64 entry)
    rest ← read_handle n (i + 1) handle
    ok (byte_of_char char ∷ rest)

  unfoldable pub size_field : Json → String → Result ℕ
  size_field v k = do
    field ← or_fault json_error (get_field v k)
    or_fault json_error (get_uint 64 field)

  -- `ipc_open` is the pointer that `cudaIpcOpenMemHandle` leaves for a handle.
  unfoldable pub remote_mr_of_json : (List ℕ → ℕ) → Json → Result NvlinkMr
  unfolding read_handle size_field
  remote_mr_of_json ipc_open v = do
    entries ← or_fault json_error (get_field v "ipc_handle")
    handle ← read_handle ipc_handle_size 0 entries
    offset ← size_field v "offset"
    length ← size_field v "length"
    ok (record { addr = ipc_open handle; offset = offset; length = length; ipc_handle = handle })

  unfoldable pub register_remote_memory_region :
      (List ℕ → ℕ) → NvlinkMemoryPool → String → Json → Result NvlinkMemoryPool
  unfolding remote_mr_of_json
  register_remote_memory_region ipc_open p mr_key v = do
    m ← remote_mr_of_json ipc_open v
    ok (record p { remote_mrs = insert mr_key m p.remote_mrs })
