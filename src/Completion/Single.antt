-- ===== src/Completion/Single.antt =====
-- One completion of a request with a callback.
use dlslime.Prelude.{
  ℕ, ◌≡◌, refl, Bool, ok, err, none, some, use_after_free, sub32, >>=-eq-ok, ok-injective, sym, ◌∙◌,
  ap, or_fault, out_of_bounds, Option, get_elem?, set,
}
use dlslime.Store.{Store, RdmaAssignment, find, invoke, cell, Cell}
use dlslime.Store.Frame.{Keeps, invoke-Keeps, find_of_no_cell, find_of_cell}
use dlslime.Store.Calls.{invoke-here}
use dlslime.Assignment.{OpCode, read, send, recv, other}
use dlslime.Context.{Qp}
use dlslime.WorkRequest.{CallbackInfoWithQpi}
use dlslime.Completion.{Polled, handle_wc, complete, refund, deliver, status_code}

pub refund_lem :
    (q : Qp) (n : ℕ)
    → refund q n ≡ record q { outstanding_rdma_reads = sub32 q.outstanding_rdma_reads n }
unfolding refund
refund_lem q n = refl

deliver-ok :
    (s s' : Store) (id code : ℕ) (o : OpCode)
    → deliver s id code o ≡ ok s'
    → invoke s id code ≡ ok s'
unfolding deliver
deliver-ok s s' id code read h = h
deliver-ok s s' id code send h = h
deliver-ok s s' id code recv h = h
deliver-ok s s' id code (other n) h = cc

pub complete-ok :
    (s s' : Store) (id n : ℕ) (succeeded : Bool)
    → complete s id succeeded ≡ ok (s', n)
    → (a : RdmaAssignment) × (find s id ≡ ok a)
      × (invoke s id (status_code succeeded) ≡ ok s')
      × (a.callback_info.batch_size ≡ n)
      × Keeps s s'
unfolding complete
complete-ok s s' id n succeeded h =
    let (a, found, more) = >>=-eq-ok (find s id) _ h in
    let (t, run, rest) =
      >>=-eq-ok (deliver s id (status_code succeeded) a.callback_info.opcode) _ more in
    let (b, found', made) = >>=-eq-ok (find t id) _ rest in
    let ran = deliver-ok s t id (status_code succeeded) a.callback_info.opcode run in
    let keeps = invoke-Keeps s t id (status_code succeeded) ran in
    let (a', old, same) = keeps.shapes id b found' in
    let e : t ≡ s' = ap (λ x. x.0) (ok-injective made) in
    (
      a,
      found,
      rw (← e) ran,
      ap (λ x. x.callback_info.batch_size) (ok-injective (sym found ∙ old))
          ∙ same.info_size
          ∙ ap (λ x. x.1) (ok-injective made),
      rw (← e) keeps,
    )

-- The pointer of a completion leads to an assignment that is gone.
pub complete-gone :
    (s : Store) (id : ℕ) (succeeded : Bool)
    → cell s id ≡ none
    → complete s id succeeded ≡ err use_after_free
unfolding complete
complete-gone s id succeeded h = rw (find_of_no_cell s id h)

-- The opcodes that the polling thread knows.
abbrev pub IsKnown : OpCode → Type 0
IsKnown read = Unit
IsKnown send = Unit
IsKnown recv = Unit
IsKnown (other n) = ⊥

deliver-known :
    (s : Store) (id code : ℕ) (o : OpCode) → IsKnown o → deliver s id code o ≡ invoke s id code
unfolding deliver
deliver-known s id code read k = refl
deliver-known s id code send k = refl
deliver-known s id code recv k = refl
deliver-known s id code (other n) k = absurd k

-- A completion for an assignment that is there calls its callback and finds its size.
pub complete-here :
    (s : Store) (id : ℕ) (succeeded : Bool) (c : Cell)
    → cell s id ≡ some c
    → IsKnown c.object.callback_info.opcode
    → (s' : Store) × (complete s id succeeded ≡ ok (s', c.object.callback_info.batch_size))
      × (invoke s id (status_code succeeded) ≡ ok s')
unfolding complete
complete-here s id succeeded c h k =
    let (s', d, run, there, held, size) = invoke-here s id (status_code succeeded) c h in
    let found = find_of_cell s id c h in
    let delivered =
      deliver-known s id (status_code succeeded) c.object.callback_info.opcode k ∙ run in
    let found' = find_of_cell s' id d there in (s', simp (found, delivered, found', size), run)

some_of_fault : (o : Option Qp) {q : Qp} → or_fault out_of_bounds o ≡ ok q → o ≡ some q
some_of_fault none h = cc
some_of_fault (some q) h = ap some (ok-injective h)

-- A completion that the polling thread handles without a fault.
pub record Handled (p : Polled) (c : CallbackInfoWithQpi) (succeeded : Bool) (r : Polled)
    : Type 0 where
  pub batch_size : ℕ
  pub qp : Qp
  pub done : complete p.store c.info succeeded ≡ ok (r.store, batch_size)
  pub found : get_elem? p.qps c.qpi ≡ some qp
  pub qps : r.qps ≡ set p.qps c.qpi (refund qp batch_size)

pub handle_wc-Handled :
    (p r : Polled) (c : CallbackInfoWithQpi) (succeeded : Bool)
    → handle_wc p (record { succeeded = succeeded; wr_id = some c }) ≡ ok r
    → Handled p c succeeded r
unfolding handle_wc
handle_wc-Handled p r c succeeded h =
    let ((s, n), run, more) = >>=-eq-ok (complete p.store c.info succeeded) _ h in
    let (q, found, made) = >>=-eq-ok (or_fault out_of_bounds (get_elem? p.qps c.qpi)) _ more in
    rw (← ok-injective made) (record {
      batch_size = n;
      qp = q;
      done = run;
      found = some_of_fault (get_elem? p.qps c.qpi) found;
      qps = refl;
    })

pub handle_wc-complete :
    (p : Polled) (c : CallbackInfoWithQpi) (succeeded : Bool) (s : Store) (n : ℕ) (q : Qp)
    → complete p.store c.info succeeded ≡ ok (s, n)
    → get_elem? p.qps c.qpi ≡ some q
    → handle_wc p (record { succeeded = succeeded; wr_id = some c })
      ≡ ok (record { qps = set p.qps c.qpi (refund q n); store = s })
unfolding handle_wc
handle_wc-complete p c succeeded s n q run found = rw (run, found) refl
