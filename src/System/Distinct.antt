-- ===== src/System/Distinct.antt =====
-- Lists of places without repetition.
use dlslime.Prelude.{
  ℕ, zero, suc, ◌+◌, ◌≤◌, ◌<◌, refl, sym, subst, ◌⊎◌, inl, inr, List, [], ◌∷◌, ◌++◌, arith,
}
use dlslime.Context.Submit.Enqueue.{places}
use dlslime.Dispatch.Thread.Drain.{Holds}
use dlslime.System.Inv.{All}

abbrev pub Distinct : List ℕ → Type 0
Distinct [] = Unit
Distinct (id ∷ ids) = ¬ (Holds id ids) × Distinct ids

pub Holds-append :
    (id : ℕ) (front back : List ℕ) → Holds id (front ++ back) → Holds id front ⊎ Holds id back
Holds-append id [] back h = inr h
Holds-append id (i ∷ front) back (inl e) = inl (inl e)
Holds-append id (i ∷ front) back (inr h) = elim (Holds-append id front back h) [
  | inl k ↦ inl (inr k)
  | inr k ↦ inr k
]

pub Holds-front : (id : ℕ) (front back : List ℕ) → Holds id front → Holds id (front ++ back)
Holds-front id [] back h = absurd h
Holds-front id (i ∷ front) back (inl e) = inl e
Holds-front id (i ∷ front) back (inr h) = inr (Holds-front id front back h)

pub Holds-back : (id : ℕ) (front back : List ℕ) → Holds id back → Holds id (front ++ back)
Holds-back id [] back h = h
Holds-back id (i ∷ front) back h = inr (Holds-back id front back h)

pub Distinct-back : (front back : List ℕ) → Distinct (front ++ back) → Distinct back
Distinct-back [] back d = d
Distinct-back (id ∷ front) back (alone, d) = Distinct-back front back d

pub Distinct-front : (front back : List ℕ) → Distinct (front ++ back) → Distinct front
Distinct-front [] back d = tt
Distinct-front (id ∷ front) back (alone, d) =
    (λ h. alone (Holds-front id front back h), Distinct-front front back d)

-- Nothing stands in both parts.
pub Distinct-apart :
    (id : ℕ) (front back : List ℕ) → Distinct (front ++ back) → Holds id front → ¬ (Holds id back)
Distinct-apart id [] back d h k = h
Distinct-apart id (i ∷ front) back (alone, d) (inl e) k =
    alone (Holds-back i front back (subst (λ x. Holds x back) e k))
Distinct-apart id (i ∷ front) back (alone, d) (inr h) k = Distinct-apart id front back d h k

pub Distinct-append :
    (front back : List ℕ)
    → Distinct front
    → Distinct back
    → ((id : ℕ) → Holds id front → ¬ (Holds id back))
    → Distinct (front ++ back)
Distinct-append [] back d e apart = e
Distinct-append (id ∷ front) back (alone, d) e apart = (
  λ h. elim (Holds-append id front back h) [ inl k ↦ alone k | inr k ↦ apart id (inl refl) k ],
  Distinct-append front back d e (λ i h. apart i (inr h)),
)

pub Holds-places : (id n k : ℕ) → Holds id (places n k) → n ≤ id
Holds-places id n zero h = absurd h
Holds-places id n (suc k) (inl e) = omega (arith, e)
Holds-places id n (suc k) (inr h) = omega (arith, Holds-places id (suc n) k h)

pub places-Distinct : (n k : ℕ) → Distinct (places n k)
places-Distinct n zero = tt
places-Distinct n (suc k) =
    (λ h. absurd (omega (arith, Holds-places n (suc n) k h)), places-Distinct (suc n) k)

pub places-below : (n k m : ℕ) → n + k ≤ m → All (λ id. id < m) (places n k)
places-below n zero m h = tt
places-below n (suc k) m h = (omega arith, places-below (suc n) k m (omega arith))

pub All-Holds : (P : ℕ → Type 0) (ids : List ℕ) (id : ℕ) → All P ids → Holds id ids → P id
All-Holds P [] id a h = absurd h
All-Holds P (i ∷ ids) id (first, others) (inl e) = subst P (sym e) first
All-Holds P (i ∷ ids) id (first, others) (inr h) = All-Holds P ids id others h
