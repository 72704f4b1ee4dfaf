-- ===== src/Context/Tests.antt =====
-- A context that takes a batch, and two contexts that connect.
use dlslime.Prelude.{
  ℕ, ◌<◌, ◌≡◌, ◌⊎◌, ◌↔◌, refl, true, false, none, some, [], ◌∷◌, length, ok, arith, pos, negsuc,
}
use dlslime.Json.Tree.{tree_lib}
use dlslime.Assignment.{read}
use dlslime.Store.{Store, Cell, empty_store, cell, client, query, new_rdma_assignment}
use dlslime.Context.Destroy.{destroy, destroy-cell}
use dlslime.Context.{Context, select_qpi, endpoint_info}
use dlslime.Context.Selection.{IsNext}
use dlslime.Context.Submit.{split, split_step, Submitted, submit, split_from}
use dlslime.Context.Submit.Split.{flatten, AllFit, split-flatten}
use dlslime.Context.Submit.Enqueue.{Placed, submit-Placed}
use dlslime.Context.Connect.{Answers, Connected, connect, rtr_attr}
use dlslime.Context.Connect.Peer.{connect-endpoint_info}
use dlslime.Context.Connect.Failure.{AllReady, rtr_attr-route, connect-code}
use dlslime.Samples.{info-InRange, context, info, info_ib, first, second, qp}

split-flatten_example :
    (flatten (split (first ∷ second ∷ [])) ≡ first ∷ second ∷ [])
    × AllFit split_step (split (first ∷ second ∷ []))
split-flatten_example = split-flatten (first ∷ second ∷ [])

submit-Placed_example :
    (r : Submitted) × (submit context empty_store read (first ∷ second ∷ []) (some (client 5))
      ≡ ok r)
    × (r.context ≡ record context {
      last_qp_selection = pos 0;
      qp_management = record qp { assign_queue = 0 ∷ [] } ∷ qp ∷ qp ∷ qp ∷ [];
    })
    × Placed read (some (client 5)) r.store 0 ((first ∷ second ∷ []) ∷ [])
    × ((id : ℕ) → id < 0 → cell r.store id ≡ cell empty_store id)
    × (r.result ≡ some 0)
    × ((i : ℕ) → IsNext (negsuc 0) 4 i → 0 ≡ i)
unfolding split split_from select_qpi
submit-Placed_example =
    submit-Placed context empty_store read (first ∷ second ∷ []) (some (client 5)) qp refl

rtr_attr-route_example :
    ((true ≡ true)
      × ((rtr_attr info_ib info).route ≡ (rtr_attr info_ib (record info { lid = 9 })).route))
    ⊎ ((true ≡ false)
        × (((rtr_attr info_ib info).route ≡ (rtr_attr info_ib (record info { lid = 9 })).route)
            ↔ (info.gid ≡ info.gid)))
rtr_attr-route_example = rtr_attr-route info_ib info (record info { lid = 9 })

abbrev all_succeed : Answers
all_succeed = record { rtr = λ i. 0; rts = λ i. 0; notify = λ i. 0 }

-- The same context, connected.
abbrev met :
    (r : Connected) × (connect tree_lib all_succeed context (endpoint_info tree_lib context) ≡ ok r)
met =
    let e =
      connect-endpoint_info tree_lib all_succeed
        (record { rtr = λ i. refl; rts = λ i. refl; notify = λ i. refl }) context context refl
        (record { addr = omega arith; length = omega arith; rkey = omega arith }, tt)
        (info-InRange, (info-InRange, (info-InRange, (info-InRange, tt)))) (omega arith) in
    (e.0, e.1)

connect-code_example :
    (((met.0.code ≡ pos 0) × AllReady all_succeed 0 context.qp_management)
      ⊎ ((met.0.code ≡ negsuc 0) × ¬ (AllReady all_succeed 0 context.qp_management)))
    × (length met.0.context.qp_management ≡ 4)
connect-code_example =
    connect-code tree_lib all_succeed context (endpoint_info tree_lib context) met.0 met.1

-- A read that a client waits for stands in a queue when the context ends.
abbrev abandoned : Context
abandoned = record context {
  qp_management = record qp { assign_queue = 0 ∷ []; wq_future = true } ∷ qp ∷ [];
}

abbrev waited_for : Cell
waited_for = record { refs = 2; object = new_rdma_assignment read (first ∷ []) none }

abbrev waiting : Store
waiting = record { cells = some waited_for ∷ []; calls = [] }

destroy-cell_example :
    ((destroy abandoned waiting).0.calls ≡ [])
    × (cell (destroy abandoned waiting).0 0 ≡ some (record waited_for { refs = 1 }))
    × (1 < 2 → query (destroy abandoned waiting).0 0 ≡ query waiting 0)
unfolding cell
destroy-cell_example = destroy-cell abandoned waiting 0 waited_for refl (omega arith)
