-- ===== src/Nvlink/Peer.antt =====
-- The description of a region survives the trip through JSON.
use dlslime.Prelude.{
  ℕ, suc, ◌+◌, ◌^◌, ◌<◌, ◌≡◌, refl, some, List, [], ◌∷◌, map, length as size_of, get_elem?, lookup,
  ok, arith,
}
use native.Mathlib.Nat.{add-zero, zero-add}
use dlslime.Json.{JsonLib}
use dlslime.Nvlink.Pool.{
  NvlinkMr, ipc_handle_size, json_info, read_handle, remote_mr_of_json, size_field, char_of_byte,
  byte_of_char,
}

abbrev pub AllBytes : List ℕ → Type 0
AllBytes [] = Unit
AllBytes (b ∷ bytes) = (b < 256) × AllBytes bytes

-- The fields fit their C++ types.
pub record InRange (m : NvlinkMr) : Type 0 where
  pub offset : m.offset < 2 ^ 64
  pub length : m.length < 2 ^ 64
  pub handle_size : size_of m.ipc_handle ≡ ipc_handle_size
  pub handle_bytes : AllBytes m.ipc_handle

byte_of_char-char_of_byte : (b : ℕ) → b < 256 → byte_of_char (char_of_byte b) ≡ b
byte_of_char-char_of_byte b h = ground arith

module _ (j : JsonLib) where
  open j use {
    Json, int, array, get_field, get_index, get_field-object, get_field-set_field, get_uint-num,
    get_int64-int, get_index-array,
  }

  abbrev chars : List ℕ → List Json
  chars = map (λ b. int (char_of_byte b))

  read_handle-chars :
      (i : ℕ) (bytes : List ℕ) (handle : Json)
      → ((k : ℕ) → get_index handle (i + k) ≡ get_elem? (chars bytes) k)
      → AllBytes bytes
      → read_handle j (size_of bytes) i handle ≡ ok bytes
  unfolding read_handle
  read_handle-chars i [] handle at a = refl
  read_handle-chars i (b ∷ bytes) handle at (small, a) =
      let here : get_index handle i ≡ some (int (char_of_byte b)) = rw add-zero at (at 0) in
      let shift : (k : ℕ) → get_index handle (i + 1 + k) ≡ get_elem? (chars bytes) k =
        λ k. let e : i + 1 + k ≡ i + suc k = omega arith in rw e (at (suc k)) in
      let rest = read_handle-chars (i + 1) bytes handle shift a in
      simp (here, get_int64-int, byte_of_char-char_of_byte b small, rest)

  handle_read :
      (m : NvlinkMr)
      → InRange m
      → read_handle j ipc_handle_size 0 (array (chars m.ipc_handle)) ≡ ok m.ipc_handle
  handle_read m r = rw (← r.handle_size) (
      read_handle-chars 0 m.ipc_handle (array (chars m.ipc_handle))
        (λ k. rw zero-add (get_index-array (chars m.ipc_handle) k)) r.handle_bytes)

  -- A peer that reads the description of a region has its offset, its length and all the bytes of its
  -- handle unchanged, and for its address the pointer that the handle opens. The fields are supposed
  -- to fit their C++ types.
  pub remote_mr_of_json-json_info :
      (ipc_open : List ℕ → ℕ) (m : NvlinkMr)
      → InRange m
      → remote_mr_of_json j ipc_open (json_info j m)
        ≡ ok (record m { addr = ipc_open m.ipc_handle })
  unfolding remote_mr_of_json json_info size_field lookup
  remote_mr_of_json-json_info ipc_open m r =
      simp (get_field-set_field, get_field-object, get_uint-num, handle_read m r) (ground arith)
