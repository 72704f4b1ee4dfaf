-- ===== src/Gids/Tests.antt =====
-- A port with an IPv4 GID of version 1 and a GID of version 2 behind it.
use dlslime.Prelude.{ℕ, zero, suc, ◌≤◌, ◌≡◌, refl, Option, none, some, [], ◌∷◌, ◌++◌, ℤ, pos}
use dlslime.RdmaInfo.{Gid}
use dlslime.Gids.{
  Device, File, failed, contents, gid_type_roce_v2, af_inet, v1_type, v2_type, newline,
  find_sgid_type, find_from, query_gid_type, read_sysfs_file,
}
use dlslime.Gids.Search.{EndsAt, find_sgid_type-EndsAt}

abbrev gid_at : ℕ → Option Gid
gid_at zero = some (record { subnet_prefix = 0; interface_id = 9 })
gid_at (suc zero) = some (record { subnet_prefix = 33022; interface_id = 9 })
gid_at (suc (suc n)) = none

abbrev file_at : ℕ → File
file_at zero = contents (v1_type ++ newline ∷ [])
file_at (suc zero) = contents (v2_type ++ newline ∷ [])
file_at (suc (suc n)) = failed 2

abbrev device : Device
device = record {
  query_gid = λ port i. gid_at i;
  type_file = λ port i. file_at i;
  gid_attrs = λ port. none;
}

find_sgid_type-EndsAt_example :
    (z : ℤ) × (i : ℕ) × (i ≤ 2)
    × (find_sgid_type device 1 gid_type_roce_v2 af_inet 3 ≡ some z)
    × EndsAt device 1 gid_type_roce_v2 i z
find_sgid_type-EndsAt_example = find_sgid_type-EndsAt device 1 gid_type_roce_v2 2 refl

-- The GID that is found begins with the bytes fe and 81: it is no IPv4 address, but one before it is.
finds_ipv6 : find_sgid_type device 1 gid_type_roce_v2 af_inet 3 ≡ some (pos 1)
unfolding find_sgid_type find_from query_gid_type read_sysfs_file
finds_ipv6 = refl
