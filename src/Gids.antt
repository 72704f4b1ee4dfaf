-- ===== src/Gids.antt =====
-- csrc/utils/ibv_helper.h and ibv_helper.cpp: which GID of a port a context takes.
pub mod Search
pub mod Sysfs
mod Tests
use dlslime.Prelude.{
  ℕ, zero, suc, ◌+◌, ◌/◌, ◌%◌, Bool, true, false, ◌&&◌, Option, none, some, List, [], ◌∷◌, length,
  take, ◌==◌, ltb, if◌then◌else◌, ℤ, pos, negsuc, u8_mod,
}
use dlslime.RdmaInfo.{Gid}

-- `ibv_gid_type_custom_t`
pub data GidType : Type 0 where
  gid_type_ib : GidType
  gid_type_roce_v1 : GidType
  gid_type_roce_v2 : GidType

abbrev gid_type_code : GidType → ℕ
gid_type_code gid_type_ib = 0
gid_type_code gid_type_roce_v1 = 1
gid_type_code gid_type_roce_v2 = 2

abbrev pub same_type : GidType → GidType → Bool
same_type s t = gid_type_code s == gid_type_code t

-- A file of sysfs: it cannot be opened or read, with an `errno`, or it has the given bytes.
pub data File : Type 0 where
  failed : ℕ → File
  contents : List ℕ → File

-- What `ibv_read_sysfs_file` returns, the bytes that it leaves before the final 0, and `errno`.
pub record SysfsRead : Type 0 where
  pub ret : ℤ
  pub buf : List ℕ
  pub errno : ℕ

abbrev pub newline : ℕ
newline = 10

-- The last byte, and those before it.
abbrev cons_front : ℕ → Option (List ℕ × ℕ) → Option (List ℕ × ℕ)
cons_front b none = some ([], b)
cons_front b (some (front, last)) = some (b ∷ front, last)

abbrev pub split_last : List ℕ → Option (List ℕ × ℕ)
split_last [] = none
split_last (b ∷ bytes) = cons_front b (split_last bytes)

-- `len` bytes have been read: a final newline goes, and otherwise there has to be room for a 0.
pub terminate : ℕ → List ℕ → Option (List ℕ × ℕ) → SysfsRead
terminate size read_bytes none = record { ret = pos 0; buf = []; errno = 0 }
terminate size read_bytes (some (front, last)) =
    if last == newline
    then record { ret = pos (length front); buf = front; errno = 0 }
    else if ltb (length read_bytes) size
    then record { ret = pos (length read_bytes); buf = read_bytes; errno = 0 }
    else record { ret = negsuc 0; buf = read_bytes; errno = 0 }

-- `ibv_read_sysfs_file`, from an `errno` of 0 on. `asprintf` is taken to find its memory.
unfoldable pub read_sysfs_file : File → ℕ → SysfsRead
unfolding terminate
read_sysfs_file (failed e) size = record { ret = negsuc 0; buf = []; errno = e }
read_sysfs_file (contents bytes) size =
    let read_bytes = take size bytes in terminate size read_bytes (split_last read_bytes)

-- The text before the first 0, as `strcmp` reads it.
abbrev c_string : List ℕ → List ℕ
c_string [] = []
c_string (zero ∷ bytes) = []
c_string (suc b ∷ bytes) = suc b ∷ c_string bytes

abbrev pub same_bytes : List ℕ → List ℕ → Bool
same_bytes [] [] = true
same_bytes [] (b ∷ bs) = false
same_bytes (c ∷ cs) [] = false
same_bytes (c ∷ cs) (b ∷ bs) = c == b && same_bytes cs bs

-- "IB/RoCE v1"
abbrev pub v1_type : List ℕ
v1_type = 73 ∷ 66 ∷ 47 ∷ 82 ∷ 111 ∷ 67 ∷ 69 ∷ 32 ∷ 118 ∷ 49 ∷ []

-- "RoCE v2"
abbrev pub v2_type : List ℕ
v2_type = 82 ∷ 111 ∷ 67 ∷ 69 ∷ 32 ∷ 118 ∷ 50 ∷ []

abbrev enoent : ℕ
enoent = 2

abbrev einval : ℕ
einval = 22

-- The device: its GIDs by port and index, the file that has the type of one, and the `errno` of
-- `opendir` for the port's directory gid_attrs, none where it opens.
pub record Device : Type 0 where
  pub query_gid : ℕ → ℕ → Option Gid
  pub type_file : ℕ → ℕ → File
  pub gid_attrs : ℕ → Option ℕ

-- The directory says whether the kernel is too old to know types.
of_directory : Option ℕ → Option GidType
of_directory none = none
of_directory (some e) = if e == enoent then some gid_type_roce_v1 else none

of_text : List ℕ → Option GidType
of_text text =
    if same_bytes text v1_type
    then some gid_type_roce_v1
    else if same_bytes text v2_type
    then some gid_type_roce_v2
    else none

of_read : Option ℕ → SysfsRead → ℤ → Option GidType
unfolding of_directory of_text
of_read attrs r (pos (suc n)) = of_text (c_string r.buf)
of_read attrs r (pos zero) = if r.errno == einval then some gid_type_roce_v1 else of_directory attrs
of_read attrs r (negsuc n) = if r.errno == einval then some gid_type_roce_v1 else of_directory attrs

-- `ibv_query_gid_type`; none is -1. The buffer has 11 bytes.
unfoldable pub query_gid_type : Device → ℕ → ℕ → Option GidType
unfolding of_read
query_gid_type d port_num index =
    let r = read_sysfs_file (d.type_file port_num index) 11 in
    of_read (d.gid_attrs port_num) r r.ret

abbrev pub af_inet : ℕ
af_inet = 2

-- `sgid.raw[0] == 0 && sgid.raw[1] == 0`, on a machine that stores the low byte first.
abbrev pub has_zero_head : Gid → Bool
has_zero_head g = g.subnet_prefix % u8_mod == 0 && (g.subnet_prefix / u8_mod) % u8_mod == 0

-- `sgid_family`, none for -1, after a GID.
abbrev pub family_after : Gid → Option ℕ → Option ℕ
family_after g family = if has_zero_head g then some af_inet else family

abbrev pub same_family : ℕ → Option ℕ → Bool
same_family f none = false
same_family f (some g) = f == g

module _ (d : Device) (port_num : ℕ) (gid_type : GidType) (gid_family : ℕ) where
  -- The loop of `ibv_find_sgid_type`, from index `idx` on; none where the fuel is used up.
  unfoldable pub find_from : ℕ → ℕ → Option ℕ → Option ℤ
  find_from zero idx family = none
  find_from (suc fuel) idx family = elim (d.query_gid port_num idx) [
    | none ↦ some (negsuc 0)
    | some g ↦ elim (query_gid_type d port_num idx) [
      | none ↦ some (negsuc 0)
      | some t ↦ elim (same_type gid_type t && same_family gid_family (family_after g family)) [
        | true ↦ some (pos idx)
        | false ↦ find_from fuel (idx + 1) (family_after g family)
      ]
    ]
  ]

  unfoldable pub find_sgid_type : ℕ → Option ℤ
  find_sgid_type fuel = find_from fuel 0 none
