-- ===== src/WorkRequest/Posting.antt =====
-- What a post function that returns has done.
use dlslime.Prelude.{
  ℕ, ◌<◌, ◌≡◌, sym, true, none, List, [], ◌∷◌, length, arith, ok, >>=-eq-ok, ok-injective, ℤ,
}
use dlslime.MemoryPool.{MemoryPool}
use dlslime.Store.{RdmaAssignment}
use dlslime.Context.{Qp}
use dlslime.WorkRequest.{
  SendWr, RecvWr, charge, code_of_ret, post_send, post_recv, post_read_batch, read_wrs, nonempty,
}

nonempty-ok :
    (wrs : List SendWr) {ws : List SendWr} → nonempty wrs ≡ ok ws → (ws ≡ wrs) × (0 < length wrs)
unfolding nonempty
nonempty-ok [] h = cc
nonempty-ok (wr ∷ wrs) h = (sym (ok-injective h), omega arith)

pub post_read_batch-ok :
    (p : MemoryPool) (qpi : ℕ) (q : Qp) (id : ℕ) (a : RdmaAssignment) (ret : ℕ) {q' : Qp}
    {wrs : List SendWr} {code : ℤ}
    → post_read_batch p qpi q id a ret ≡ ok (q', wrs, code)
    → (q' ≡ charge q a.batch_size)
      × (read_wrs p a.batch_size (record { info = id; qpi = qpi }) 0 a.batch ≡ ok wrs)
      × (0 < length wrs)
      × (code ≡ code_of_ret ret)
unfolding post_read_batch
post_read_batch-ok p qpi q id a ret h =
    let (wrs, runs, more) =
      >>=-eq-ok (read_wrs p a.batch_size (record { info = id; qpi = qpi }) 0 a.batch) _ h in
    let (ws, some_wr, made) = >>=-eq-ok (nonempty wrs) _ more in
    let (same, long) = nonempty-ok wrs some_wr in ground arith

pub post_send-ok :
    (p : MemoryPool) (q : Qp) (a : RdmaAssignment) (ret : ℕ) {q' : Qp} {wr : SendWr} {code : ℤ}
    → post_send p q a ret ≡ ok (q', wr, code)
    → (q' ≡ charge q a.batch_size)
      × (wr.wr_id ≡ none)
      × (wr.signaled ≡ true)
      × (code ≡ code_of_ret ret)
unfolding post_send
post_send-ok p q a ret h = ground arith

pub post_recv-ok :
    (p : MemoryPool) (q : Qp) (a : RdmaAssignment) (ret : ℕ) {q' : Qp} {wr : RecvWr} {code : ℤ}
    → post_recv p q a ret ≡ ok (q', wr, code)
    → (q' ≡ charge q a.batch_size) × (wr.wr_id ≡ none) × (code ≡ code_of_ret ret)
unfolding post_recv
post_recv-ok p q a ret h = ground arith
