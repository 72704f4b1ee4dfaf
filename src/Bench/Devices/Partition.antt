-- ===== src/Bench/Devices/Partition.antt =====
-- The devices are dealt out to the sockets.
use native.Mathlib.Nat.{suc-mul, div-add-mod', mul_comm}
use dlslime.Prelude.{
  ℕ, zero, suc, ◌+◌, ◌-◌, ◌*◌, ◌/◌, ◌%◌, ◌^◌, min, ◌<◌, ◌≤◌, ◌≡◌, refl, sym, ap, ◌∙◌, Bool, String,
  List, [], ◌∷◌, ◌++◌, take, drop, length, length-take, length-drop, ok, arith, u64,
}
use dlslime.Bench.Devices.{nsockets_of, nsplit_of, sch_devices, partition_from}

abbrev pub flatten : List (List String) → List String
flatten [] = []
flatten (l ∷ ls) = l ++ flatten ls

abbrev pub AllSized : ℕ → List (List String) → Type 0
AllSized n [] = Unit
AllSized n (l ∷ ls) = (length l ≡ n) × AllSized n ls

take-nil : (n : ℕ) → take {A = String} n [] ≡ []
take-nil zero = refl
take-nil (suc n) = refl

-- A stretch and the one behind it are one stretch.
take-append-drop_more :
    (m n begin : ℕ) (xs : List String)
    → take m (drop begin xs) ++ take n (drop (begin + m) xs) ≡ take (m + n) (drop begin xs)
take-append-drop_more m n (suc begin) [] =
    let e : suc begin + m ≡ suc (begin + m) = omega arith in
    rw (e, take-nil m, take-nil n, take-nil (m + n)) refl
take-append-drop_more m n (suc begin) (x ∷ xs) =
    let e : suc begin + m ≡ suc (begin + m) = omega arith in
    rw e (take-append-drop_more m n begin xs)
take-append-drop_more zero n zero xs = ground arith
take-append-drop_more (suc m) n zero [] =
    let e : 0 + suc m ≡ suc m = omega arith in
    let sum : suc m + n ≡ suc (m + n) = omega arith in rw (e, sum) (take-nil n)
take-append-drop_more (suc m) n zero (x ∷ xs) =
    let e : 0 + suc m ≡ suc (0 + m) = omega arith in
    let sum : suc m + n ≡ suc (m + n) = omega arith in
    rw (e, sum) (ap (λ l. x ∷ l) (take-append-drop_more m n zero xs))

module _ (devices : List String) (k : ℕ) (short : length devices < 2 ^ 64) where
  sch_devices-take :
      (begin : ℕ)
      → begin + k ≤ length devices
      → (sch_devices devices k begin ≡ take k (drop begin devices))
        × (length (sch_devices devices k begin) ≡ k)
  unfolding sch_devices
  sch_devices-take begin fits =
      let e : min (u64 (begin + k)) (length devices) - begin ≡ k = ground arith in
      (rw e refl, omega (arith, length-take _ (drop begin devices), length-drop begin devices))

  partition_from-Deals :
      (n begin : ℕ)
      → begin + n * k ≤ length devices
      → (flatten (partition_from devices k n begin) ≡ take (n * k) (drop begin devices))
        × AllSized k (partition_from devices k n begin)
        × (length (partition_from devices k n begin) ≡ n)
  unfolding partition_from
  partition_from-Deals zero begin fits = let e : 0 * k ≡ 0 = omega arith in (rw e refl, tt, refl)
  partition_from-Deals (suc n) begin fits =
      let more = suc-mul n k in
      let (here, size) = sch_devices-take begin (omega (arith, more)) in
      let (rest, sizes, long) = partition_from-Deals n (begin + k) (omega (arith, more)) in
      let sum : k + n * k ≡ suc n * k = omega (arith, more) in
      (
        rw (here, rest)
            (take-append-drop_more k (n * k) begin devices
              ∙ ap (λ m. take m (drop begin devices)) sum),
        (size, sizes),
        ap suc long,
      )

share-pos : (d n x r : ℕ) → x * suc n + r ≡ d → r < suc n → suc n ≤ d → 0 < x
share-pos d n zero r e small few = absurd (omega arith)
share-pos d n (suc x) r e small few = omega arith

nsplit_of-share :
    (d n : ℕ) → 0 < n → n ≤ d → (k : ℕ) × (nsplit_of d n ≡ ok k) × (0 < k) × (d ≡ n * k + d % n)
unfolding nsplit_of
nsplit_of-share d zero some_socket few = absurd (omega arith)
nsplit_of-share d (suc n) some_socket few = (
  d / suc n,
  refl,
  share-pos d n (d / suc n) (d % suc n) (div-add-mod' d (suc n)) (omega arith) few,
  sym (div-add-mod' d (suc n)) ∙ ap (λ m. m + d % suc n) (mul_comm (d / suc n) (suc n)),
)

module _ (devices : List String) (numa_affinity : Bool) (nodes : ℕ) where
  abbrev nsockets : ℕ
  nsockets = nsockets_of numa_affinity nodes (length devices)

  nsockets-between : 0 < length devices → 0 < nodes → (0 < nsockets) × (nsockets ≤ length devices)
  unfolding nsockets_of
  nsockets-between some_device some_node = ground arith

  -- With one device and one NUMA node at least, every socket in use gets the same number of devices,
  -- one at least, in the order of the list and without overlap. The devices that are left when the
  -- number of devices is not a multiple of the number of sockets go to no socket.
  pub partition_from-Fair :
      0 < length devices
      → 0 < nodes
      → length devices < 2 ^ 64
      → (k : ℕ) × (nsplit_of (length devices) nsockets ≡ ok k)
        × (0 < k)
        × AllSized k (partition_from devices k nsockets 0)
        × (length (partition_from devices k nsockets 0) ≡ nsockets)
        × (flatten (partition_from devices k nsockets 0) ≡ take (nsockets * k) devices)
        × (length devices ≡ nsockets * k + length devices % nsockets)
  partition_from-Fair some_device some_node short =
      let (some_socket, few) = nsockets-between some_device some_node in
      let (k, split, share, sum) = nsplit_of-share (length devices) nsockets some_socket few in
      let (dealt, sizes, long) =
        partition_from-Deals devices k short nsockets 0 (omega (arith, sum)) in
      (k, split, share, sizes, long, dealt, sum)
