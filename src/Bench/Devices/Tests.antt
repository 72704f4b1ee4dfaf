-- ===== src/Bench/Devices/Tests.antt =====
-- Three devices on two sockets.
use dlslime.Prelude.{
  ℕ, ◌+◌, ◌*◌, ◌<◌, ◌≡◌, refl, true, String, List, [], ◌∷◌, take, length, ok, arith, some,
}
use dlslime.Bench.Devices.{nsockets_of, nsplit_of, partition_from, split_device_name, nic_devices}
use dlslime.Bench.Devices.Partition.{AllSized, flatten, partition_from-Fair}

abbrev three : List String
three = "mlx5_0" ∷ "mlx5_1" ∷ "mlx5_2" ∷ []

partition_from-Fair_example :
    (k : ℕ) × (nsplit_of 3 (nsockets_of true 2 3) ≡ ok k)
    × (0 < k)
    × AllSized k (partition_from three k (nsockets_of true 2 3) 0)
    × (length (partition_from three k (nsockets_of true 2 3) 0) ≡ nsockets_of true 2 3)
    × (flatten (partition_from three k (nsockets_of true 2 3) 0)
        ≡ take (nsockets_of true 2 3 * k) three)
    × (3 ≡ nsockets_of true 2 3 * k + 1)
unfolding nsockets_of
partition_from-Fair_example =
    partition_from-Fair three true 2 (omega arith) (omega arith) (omega arith)

-- The third device goes to no socket.
partition_from-three : partition_from three 1 2 0 ≡ ("mlx5_0" ∷ []) ∷ ("mlx5_1" ∷ []) ∷ []
unfolding partition_from
partition_from-three = refl

tokens-tests :
    (split_device_name "a,,b," b',' ≡ "a" ∷ "" ∷ "b" ∷ [])
    × (split_device_name "," b',' ≡ "" ∷ [])
    × (nic_devices (some three) "a,b" ≡ "a" ∷ "b" ∷ [])
unfolding split_device_name nic_devices
tokens-tests = (refl, refl, refl)
