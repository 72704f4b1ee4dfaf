-- ===== src/Gids/Search.antt =====
-- What the search for a GID finds.
use dlslime.Prelude.{
  ℕ, zero, suc, ◌+◌, ◌≤◌, ◌<◌, ◌≡◌, ◌⊎◌, inl, inr, refl, sym, ap, subst, ◌∙◌, Bool, true, false,
  ◌&&◌, ◌||◌, Option, none, some, if◌then◌else◌, ℤ, pos, negsuc, arith, Bool-cases, Option-cases,
}
use dlslime.RdmaInfo.{Gid}
use dlslime.Gids.{
  GidType, Device, query_gid_type, same_type, same_family, family_after, has_zero_head, af_inet,
  find_from, find_sgid_type,
}

lt_or_eq : (k i : ℕ) → k < i + 1 → (k < i) ⊎ (k ≡ i)
lt_or_eq k i h = ground arith

module _ (d : Device) (port_num : ℕ) (gid_type : GidType) where
  abbrev head_of : Option Gid → Bool
  head_of none = false
  head_of (some g) = has_zero_head g

  abbrev type_matches : Option GidType → Bool
  type_matches none = false
  type_matches (some t) = same_type gid_type t

  -- Whether some GID below an index begins with two zero bytes.
  abbrev pub zero_head_below : ℕ → Bool
  zero_head_below zero = false
  zero_head_below (suc i) = head_of (d.query_gid port_num i) || zero_head_below i

  -- An index is acceptable if its GID has the type, and it or one before it begins with two zero bytes.
  abbrev pub is_acceptable : ℕ → Bool
  is_acceptable i = type_matches (query_gid_type d port_num i) && zero_head_below (suc i)

  -- An index that the device cannot answer for.
  abbrev pub IsBroken : ℕ → Type 0
  IsBroken i = (d.query_gid port_num i ≡ none) ⊎ (query_gid_type d port_num i ≡ none)

  -- The search ends at the first index that is acceptable or broken.
  abbrev pub EndsAt : ℕ → ℤ → Type 0
  EndsAt i z =
      ((k : ℕ) → k < i → (is_acceptable k ≡ false) × ¬ (IsBroken k))
      × (((z ≡ pos i) × (is_acceptable i ≡ true)) ⊎ ((z ≡ negsuc 0) × IsBroken i))

  abbrev family_below : ℕ → Option ℕ
  family_below i = if zero_head_below i then some af_inet else none

  family_below-suc :
      (i : ℕ) (g : Gid)
      → d.query_gid port_num i ≡ some g
      → family_after g (family_below i) ≡ family_below (suc i)
  family_below-suc i g e = ground arith

  accepts :
      (i : ℕ) (g : Gid) (t : GidType) (family : Option ℕ)
      → d.query_gid port_num i ≡ some g
      → query_gid_type d port_num i ≡ some t
      → family ≡ family_below i
      → (same_type gid_type t && same_family af_inet (family_after g family)) ≡ is_acceptable i
  accepts i g t family e f same = rw same (ground arith)

  -- A round on which the device answers.
  round :
      (fuel i : ℕ) (g : Gid) (t : GidType) (family : Option ℕ) (b : Bool)
      → d.query_gid port_num i ≡ some g
      → query_gid_type d port_num i ≡ some t
      → (same_type gid_type t && same_family af_inet (family_after g family)) ≡ b
      → find_from d port_num gid_type af_inet (suc fuel) i family ≡ (
          if b
          then some (pos i)
          else find_from d port_num gid_type af_inet fuel (i + 1) (family_after g family))
  unfolding find_from
  round fuel i g t family true e f h = rw (find_from, e, f, h) refl
  round fuel i g t family false e f h = rw (find_from, e, f, h) refl

  family_next :
      (i : ℕ) (g : Gid) (family : Option ℕ)
      → d.query_gid port_num i ≡ some g
      → family ≡ family_below i
      → family_after g family ≡ family_below (i + 1)
  family_next i g family e same =
      let one : suc i ≡ i + 1 = omega arith in
      ap (family_after g) same ∙ family_below-suc i g e ∙ ap family_below one

  whole :
      (i : ℕ) (g : Gid) (t : GidType)
      → d.query_gid port_num i ≡ some g
      → query_gid_type d port_num i ≡ some t
      → ¬ (IsBroken i)
  whole i g t e f (inl gone) = cc
  whole i g t e f (inr gone) = cc

  not_last :
      (n i : ℕ) (g : Gid)
      → d.query_gid port_num n ≡ none
      → i ≤ n
      → d.query_gid port_num i ≡ some g
      → i + 1 ≤ n
  not_last n i g stop low e = ground arith

  below-suc :
      (i : ℕ)
      → ((k : ℕ) → k < i → (is_acceptable k ≡ false) × ¬ (IsBroken k))
      → is_acceptable i ≡ false
      → ¬ (IsBroken i)
      → (k : ℕ) → k < i + 1
      → (is_acceptable k ≡ false) × ¬ (IsBroken k)
  below-suc i before unfit unbroken k h = elim (lt_or_eq k i h) [
    | inl below ↦ before k below
    | inr same ↦ (ap is_acceptable same ∙ unfit, subst (λ m. ¬ (IsBroken m)) (sym same) unbroken)
  ]

  find_from-EndsAt :
      (n fuel i : ℕ) (family : Option ℕ)
      → d.query_gid port_num n ≡ none
      → i ≤ n
      → n < i + fuel
      → family ≡ family_below i
      → ((k : ℕ) → k < i → (is_acceptable k ≡ false) × ¬ (IsBroken k))
      → (z : ℤ) × (j : ℕ) × (j ≤ n)
        × (find_from d port_num gid_type af_inet fuel i family ≡ some z)
        × EndsAt j z
  unfolding find_from
  find_from-EndsAt n zero i family stop low enough same before = absurd (omega arith)
  find_from-EndsAt n (suc fuel) i family stop low enough same before =
      elim (Option-cases (d.query_gid port_num i)) [
        | inl gone ↦ (negsuc 0, i, low, rw (find_from, gone) refl, (before, inr (refl, inl gone)))
        | inr (g, e) ↦ elim (Option-cases (query_gid_type d port_num i)) [
          | inl gone ↦
              (negsuc 0, i, low, rw (find_from, e, gone) refl, (before, inr (refl, inr gone)))
          | inr (t, f) ↦ elim (Bool-cases (is_acceptable i)) [
            | inl fit ↦ (
              pos i,
              i,
              low,
              round fuel i g t family true e f (accepts i g t family e f same ∙ fit),
              (before, inl (refl, fit)),
            )
            | inr unfit ↦
                let more = below-suc i before unfit (whole i g t e f) in
                let (z, j, least, run, ends) =
                  find_from-EndsAt n fuel (i + 1) (family_after g family) stop
                    (not_last n i g stop low e) (omega arith) (family_next i g family e same)
                    more in
                (
                  z,
                  j,
                  least,
                  round fuel i g t family false e f (accepts i g t family e f same ∙ unfit) ∙ run,
                  ends,
                )
          ]
        ]
      ]

  -- If the port's GIDs end at an index `n`, the search for an IPv4 GID of a type ends within n + 1
  -- rounds, at the first index that is acceptable or where the device gives no answer; the result
  -- is that index in the one case and -1 in the other. Acceptable is an index whose GID has the type,
  -- if its own or any earlier GID begins with two zero bytes: the family is not forgotten from one
  -- round to the next.
  pub find_sgid_type-EndsAt :
      (n : ℕ)
      → d.query_gid port_num n ≡ none
      → (z : ℤ) × (i : ℕ) × (i ≤ n)
        × (find_sgid_type d port_num gid_type af_inet (suc n) ≡ some z)
        × EndsAt i z
  unfolding find_sgid_type
  find_sgid_type-EndsAt n stop =
      find_from-EndsAt n (suc n) 0 none stop (omega arith) (omega arith) refl
        (λ k h. absurd (omega arith))
