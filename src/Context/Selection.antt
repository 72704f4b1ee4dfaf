-- ===== src/Context/Selection.antt =====
-- Which queue pair takes a submission: `RDMAContext::select_qpi`.
use dlslime.Prelude.{
  ◌↔◌, ℕ, zero, suc, ◌+◌, ◌%◌, ◌<◌, ◌≡◌, refl, sym, ap, ◌∙◌, arith, ℤ, pos, negsuc,
}
use native.Mathlib.Nat.{zero-mod, mod-eq_of_lt, mod_self}
use dlslime.Context.{Context, select_qpi, qp_list_len, next_selection}

-- The index in turn behind the last one, of `n`.
pub data IsNext (last : ℤ) (n i : ℕ) : Type 0 where
  first : last ≡ negsuc 0 → i ≡ 0 → IsNext last n i
  behind : (k : ℕ) → last ≡ pos k → i ≡ suc k → suc k < n → IsNext last n i
  around : (k : ℕ) → last ≡ pos k → i ≡ 0 → suc k ≡ n → IsNext last n i

pub next_selection-IsNext :
    (last : ℤ) (n i : ℕ) → 0 < n → IsNext last n i → next_selection last n ≡ i
next_selection-IsNext last n i some_left (first e at) = rw e (zero-mod n ∙ sym at)
next_selection-IsNext last n i some_left (behind k e at below) =
    let whole : k + 1 < n = omega arith in rw e (mod-eq_of_lt whole ∙ omega (arith, at))
next_selection-IsNext last n i some_left (around k e at end) =
    let whole : k + 1 ≡ n = omega arith in rw e (ap (λ x. x % n) whole ∙ mod_self n ∙ sym at)

pub select_qpi-IsNext :
    (c : Context) (i : ℕ) → IsNext c.last_qp_selection 4 i → (select_qpi c).1 ≡ i
unfolding select_qpi
select_qpi-IsNext c i turn = next_selection-IsNext c.last_qp_selection 4 i (omega arith) turn

-- The context after `n` choices.
abbrev pub after : ℕ → Context → Context
after zero c = c
after (suc n) c = after n (select_qpi c).0

-- The queue pair that the choice numbered `n` from `c` on takes.
abbrev pub choice : Context → ℕ → ℕ
choice c n = (select_qpi (after n c)).1

choice-pos :
    (n k : ℕ) (c : Context) → c.last_qp_selection ≡ pos k → choice c n ≡ (k + 1 + n) % qp_list_len
unfolding select_qpi
choice-pos zero k c e = rw e (omega arith)
choice-pos (suc n) k c e =
    choice-pos n ((k + 1) % qp_list_len) (select_qpi c).0 (rw e refl) ∙ omega arith

choice-suc :
    (c : Context) (n : ℕ)
    → choice c (suc n) ≡ (next_selection c.last_qp_selection qp_list_len + 1 + n) % qp_list_len
unfolding select_qpi
choice-suc c n = choice-pos n (next_selection c.last_qp_selection qp_list_len) (select_qpi c).0 refl

next-bound : (l : ℤ) → next_selection l qp_list_len < qp_list_len
next-bound (pos k) = omega arith
next-bound (negsuc zero) = omega arith
next-bound (negsuc (suc k)) = omega arith

choice_lem :
    (c : Context) (n : ℕ)
    → choice c n ≡ (next_selection c.last_qp_selection qp_list_len + n) % qp_list_len
unfolding select_qpi
choice_lem c zero = let h = next-bound c.last_qp_selection in omega arith
choice_lem c (suc n) = choice-suc c n ∙ omega arith

-- The submissions go round the queue pairs: the place chosen is always one of the four, two choices
-- take the same queue pair exactly if their numbers are equal modulo 4, and so four choices in a row
-- take each queue pair once. This holds from any value that the last selection has.
pub choice-round_robin :
    (c : Context) (m n : ℕ)
    → (choice c n < qp_list_len) × ((choice c m ≡ choice c n) ↔ (m % qp_list_len ≡ n % qp_list_len))
choice-round_robin c m n =
    let h = next-bound c.last_qp_selection in
    rw (choice_lem c m, choice_lem c n) (omega arith, ((λ e. omega arith), (λ e. omega arith)))
