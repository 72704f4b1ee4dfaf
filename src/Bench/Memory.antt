-- ===== src/Bench/Memory.antt =====
-- The buffers of the benchmarks: how a target fills its own, and how an initiator checks what it has
-- read.
use native.Mathlib.Decide.{dec_lt}
use dlslime.Prelude.{
  ℕ, zero, suc, ◌+◌, ◌*◌, ◌%◌, ◌<◌, ◌≤◌, ◌≡◌, refl, Bool, true, false, Option, none, some, List,
  length, set, get_elem?, replicate, Result, ok, err, or_fault, ◌>>=◌, out_of_bounds,
  assertion_failed, ◌==◌, u64, arith, length-set, get_elem?-set_self, get_elem?-set_ne, ◌∙◌, ap,
  >>=-eq-ok, ok-injective, Bool-cases, inl, inr, ==_iff, ◌≢◌,
}

-- What an allocation gives: an address, and the bytes that are there.
pub record Block : Type 0 where
  pub addr : ℕ
  pub bytes : List ℕ

-- `FLAGS_batch_size * FLAGS_block_size`
abbrev pub used_size : ℕ → ℕ → ℕ
used_size batch_size block_size = u64 (batch_size * block_size)

-- `memset(data, 0, size)`
unfoldable pub zeroed : ℕ → Block → Block
zeroed size b = record b { bytes = replicate size 0 }

-- `byte_data[i] = i % 128`, for `n` values of `i` from the given one on.
unfoldable pub fill_from : ℕ → ℕ → List ℕ → List ℕ
fill_from zero i bytes = bytes
fill_from (suc n) i bytes = fill_from n (i + 1) (set bytes i (i % 128))

abbrev or_abort : Bool → Result Bool → Result Bool
or_abort true later = later
or_abort false later = err assertion_failed

-- The test of `n` bytes from index `i` on.
unfoldable pub check_from : ℕ → ℕ → List ℕ → Result Bool
check_from zero i bytes = ok true
check_from (suc n) i bytes =
    let later = check_from n (i + 1) bytes in
    do byte ← or_fault out_of_bounds (get_elem? bytes i); or_abort (byte == i % 128) later

get_elem?-fill_from_before :
    (n i k : ℕ) (bytes : List ℕ) → k < i → get_elem? (fill_from n i bytes) k ≡ get_elem? bytes k
unfolding fill_from
get_elem?-fill_from_before zero i k bytes h = refl
get_elem?-fill_from_before (suc n) i k bytes h =
    get_elem?-fill_from_before n (i + 1) k (set bytes i (i % 128)) (omega arith)
    ∙ get_elem?-set_ne bytes (i % 128) (λ e. omega (arith, e))

pub get_elem?-fill_from :
    (n i k : ℕ) (bytes : List ℕ)
    → i ≤ k
    → k < i + n
    → k < length bytes
    → get_elem? (fill_from n i bytes) k ≡ some (k % 128)
unfolding fill_from
get_elem?-fill_from zero i k bytes low high inside = absurd (omega arith)
get_elem?-fill_from (suc n) i k bytes low high inside = elim (dec_lt i k) [
  | yes later ↦
      get_elem?-fill_from n (i + 1) k (set bytes i (i % 128)) (omega arith) (omega arith)
        (omega (arith, length-set bytes i (i % 128)))
  | no now ↦
      let e : i ≡ k = omega arith in
      get_elem?-fill_from_before n (i + 1) k (set bytes i (i % 128)) (omega arith)
      ∙ rw e (get_elem?-set_self bytes k (k % 128) inside)
]

check_from_step :
    (n i byte : ℕ) (bytes : List ℕ)
    → get_elem? bytes i ≡ some byte
    → check_from (suc n) i bytes ≡ or_abort (byte == i % 128) (check_from n (i + 1) bytes)
unfolding check_from
check_from_step n i byte bytes h = rw h refl

-- Bytes that are as they have to be pass the test.
pub check_from-Matches :
    (n i : ℕ) (bytes : List ℕ)
    → ((k : ℕ) → i ≤ k → k < i + n → get_elem? bytes k ≡ some (k % 128))
    → check_from n i bytes ≡ ok true
unfolding check_from
check_from-Matches zero i bytes h = refl
check_from-Matches (suc n) i bytes h =
    let here = h i (omega arith) (omega arith) in
    let later =
      check_from-Matches n (i + 1) bytes (λ k low high. h k (omega arith) (omega arith)) in
    let same : (i % 128 == i % 128) ≡ true = ground arith in
    check_from_step n i (i % 128) bytes here ∙ rw same later

or_fault-ok : {o : Option ℕ} {a : ℕ} → or_fault out_of_bounds o ≡ ok a → o ≡ some a
or_fault-ok {o = none} h = cc
or_fault-ok {o = some b} h = ap some (ok-injective h)

err-ne-ok : {b : Bool} → err assertion_failed ≢ ok b
err-ne-ok h = cc

-- And only those.
pub check_from-ok :
    (n i : ℕ) (bytes : List ℕ) {b : Bool}
    → check_from n i bytes ≡ ok b
    → (k : ℕ) → i ≤ k
    → k < i + n
    → get_elem? bytes k ≡ some (k % 128)
unfolding check_from
check_from-ok zero i bytes h k low high = absurd (omega arith)
check_from-ok (suc n) i bytes h k low high =
    let (byte, here, more) = >>=-eq-ok (or_fault out_of_bounds (get_elem? bytes i)) _ h in
    elim (Bool-cases (byte == i % 128)) [
      | inl same ↦ elim (dec_lt i k) [
        | yes later ↦ check_from-ok n (i + 1) bytes (rw same at more) k (omega arith) (omega arith)
        | no now ↦
            let e : i ≡ k = omega arith in
            rw (← e) (or_fault-ok here ∙ ap some ((==_iff byte (i % 128)).0 same))
      ]
      | inr differs ↦ absurd (err-ne-ok (rw differs at more))
    ]
