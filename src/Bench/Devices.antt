-- ===== src/Bench/Devices.antt =====
-- bench/cpp/scheduler_bench.cpp: which devices each scheduler gets.
pub mod Names
pub mod Partition
mod Tests
use Prim.Native.Char.{Char, code}
use dlslime.Prelude.{
  ℕ, zero, suc, ◌+◌, ◌-◌, ◌/◌, min, Bool, true, false, String, str_eq, Option, none, some, List, [],
  ◌∷◌, take, drop, length, Result, ok, err, ◌>>=◌, division_by_zero, ltb, ◌==◌, u64, if◌then◌else◌,
}
use dlslime.Scheduler.{available_nic}

-- A character goes to the front of the first token.
abbrev pub push : Char → List String → List String
push c [] = String.◌∷◌ c String.[] ∷ []
push c (token ∷ tokens) = String.◌∷◌ c token ∷ tokens

-- The tokens that `std::getline` reads until the text is used up; nothing follows a delimiter at the
-- end of the text.
unfoldable pub tokens_of : ℕ → String → List String
tokens_of delimiter String.[] = []
tokens_of delimiter (String.◌∷◌ c s) =
    let tokens = tokens_of delimiter s in if code c == delimiter then "" ∷ tokens else push c tokens

unfoldable pub split_device_name : String → ℕ → List String
unfolding tokens_of
split_device_name device_name delimiter = tokens_of delimiter device_name

unfoldable pub nic_devices : Option (List String) → String → List String
unfolding split_device_name
nic_devices available device_name =
    if str_eq device_name "" then available_nic available else split_device_name device_name b','

-- The number of sockets that get a buffer, out of `nodes` NUMA nodes.
unfoldable pub nsockets_of : Bool → ℕ → ℕ → ℕ
nsockets_of numa_affinity nodes ndevices =
    let sockets = if numa_affinity then nodes else 1 in
    if ltb sockets ndevices then sockets else ndevices

unfoldable pub nsplit_of : ℕ → ℕ → Result ℕ
nsplit_of ndevices zero = err division_by_zero
nsplit_of ndevices (suc nsockets) = ok (ndevices / suc nsockets)

-- The devices of the schedulers of one socket.
unfoldable pub sch_devices : List String → ℕ → ℕ → List String
sch_devices devices nsplit begin =
    take (min (u64 (begin + nsplit)) (length devices) - begin) (drop begin devices)

-- The devices for each of the sockets that are left; `begin` is `sch_device_begin_id`.
unfoldable pub partition_from : List String → ℕ → ℕ → ℕ → List (List String)
unfolding sch_devices
partition_from devices nsplit zero begin = []
partition_from devices nsplit (suc n) begin =
    sch_devices devices nsplit begin ∷ partition_from devices nsplit n (begin + nsplit)
