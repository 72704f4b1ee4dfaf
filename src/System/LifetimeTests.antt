-- ===== src/System/LifetimeTests.antt =====
-- A batch of 4097 reads.
use dlslime.Prelude.{
  lookup, replicate, get_elem?, length-replicate, ℕ, zero, suc, ◌≡◌, refl, Bool, none, some, ok,
  err, arith, use_after_free,
}
use dlslime.Assignment.{read}
use dlslime.MemoryPool.{get_mr}
use dlslime.Store.{empty_store}
use dlslime.Context.{Qp}
use dlslime.Dispatch.{Round, dispatch_front}
use dlslime.Completion.{complete}
use dlslime.Context.{select_qpi}
use dlslime.Context.Submit.{Submitted, submit}
use dlslime.System.Large.{submit_large-use_after_free}
use dlslime.WorkRequest.Batch.{AllKnown}
use dlslime.Samples.{pool, qp, first, region, context}

many : (n : ℕ) → AllKnown pool (replicate n first)
unfolding get_mr lookup
many zero = tt
many (suc n) = ((region, refl), many n)

submit_large-use_after_free_example :
    (r : Submitted) × (q' : Qp) × (round : Round) × (submit context empty_store read
        (replicate 4097 first)
        none
      ≡ ok r)
    × (get_elem? r.context.qp_management (select_qpi context).1 ≡ some q')
    × (dispatch_front pool (select_qpi context).1 q' r.store 0 ≡ ok round)
    × ((succeeded : Bool) → complete round.store 0 succeeded ≡ err use_after_free)
unfolding select_qpi
submit_large-use_after_free_example =
    submit_large-use_after_free pool context empty_store (replicate 4097 first) none qp 0 refl refl
      refl (many 4097) (omega (arith, length-replicate 4097 first))
