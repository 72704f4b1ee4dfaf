-- ===== src/Completion/Rounds.antt =====
-- The rounds of the polling thread.
use dlslime.Prelude.{
  ℕ, zero, suc, ◌-◌, ◌≤◌, ◌<◌, ◌≡◌, ◌≢◌, refl, false, Option, none, some, List, [], ◌∷◌, length,
  negsuc, ok, arith, >>=-eq-ok, u64_mod,
}
use dlslime.WorkRequest.{CallbackInfoWithQpi}
use dlslime.Completion.{Wc, Polled, Poll, PollState, poll_loop, handle_wcs, handle_wc, nr_poll_of}

-- Whether a completion carries no callback, as those of posted SENDs and RECVs.
abbrev pub AllSilent : List Wc → Type 0
AllSilent [] = Unit
AllSilent (wc ∷ wcs) = (wc.wr_id ≡ none) × AllSilent wcs

handle_wcs-short :
    (n : ℕ) (p : Polled) (wcs : List Wc) {q : Polled} → handle_wcs n p wcs ≡ ok q → n ≤ length wcs
unfolding handle_wcs
handle_wcs-short zero p wcs h = omega arith
handle_wcs-short (suc n) p [] h = cc
handle_wcs-short (suc n) p (wc ∷ wcs) h =
    let (r, _, more) = >>=-eq-ok (handle_wc p wc) _ h in
    let e = handle_wcs-short n r wcs more in omega arith

handle_wc-silent :
    (p : Polled) (wc : Wc) (id : Option CallbackInfoWithQpi)
    → wc.wr_id ≡ id
    → id ≡ none
    → handle_wc p wc ≡ ok p
unfolding handle_wc
handle_wc-silent p wc none e h = rw e refl
handle_wc-silent p wc (some c) e h = cc

-- Completions that carry no callback, as those of posted SENDs and RECVs, change neither the queue
-- pairs nor any assignment: the thread goes on as if they had not come.
pub handle_wcs-silent :
    (n : ℕ) (p : Polled) (wcs : List Wc)
    → AllSilent wcs
    → n ≤ length wcs
    → handle_wcs n p wcs ≡ ok p
unfolding handle_wcs
handle_wcs-silent zero p wcs silent h = refl
handle_wcs-silent (suc n) p [] silent h = absurd (omega arith)
handle_wcs-silent (suc n) p (wc ∷ wcs) (none_here, rest) h =
    simp (handle_wc-silent p wc none none_here refl, handle_wcs-silent n p wcs rest (omega arith))

round :
    (n : ℕ) (p : Polled) (k : ℕ) (wcs : List Wc) (polls : List Poll) {s : PollState}
    → nr_poll_of (negsuc k) ≡ suc n
    → poll_loop p (record { stop = false; ret = negsuc k; wcs = wcs } ∷ polls) ≡ ok s
    → (q : Polled) × (handle_wcs (suc n) p wcs ≡ ok q)
unfolding poll_loop
round n p k wcs polls e h =
    let (q, run, _) = >>=-eq-ok (handle_wcs (suc n) p wcs) _ (rw (poll_loop, e) at h) in (q, run)

-- A round that polls a negative number, which stands for an error of the verbs library, never ends
-- well while the thread is to go on: the number is taken for a huge count, and the loop reads behind
-- the array of completions or fails earlier. The test `nr_poll < 0` never skips the round.
pub poll_loop-negative :
    (p : Polled) (k : ℕ) (wcs : List Wc) (polls : List Poll) (s : PollState)
    → k < 2147483648
    → length wcs ≤ 2147483648
    → poll_loop p (record { stop = false; ret = negsuc k; wcs = wcs } ∷ polls) ≢ ok s
poll_loop-negative p k wcs polls s small few h =
    let (q, run) = round (u64_mod - suc k - 1) p k wcs polls (omega arith) h in
    let e = handle_wcs-short (suc (u64_mod - suc k - 1)) p wcs run in omega arith
