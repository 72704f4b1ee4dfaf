-- ===== src/Store/Dump/Tests.antt =====
-- Tests of the texts that assignments print.
use native.Mathlib.Decide.{dec_lt}
use dlslime.Prelude.{◌≡◌, refl, none, some, [], ◌∷◌, ok, err, null_dereference, to_string}
use dlslime.Assignment.{read, dump}
use dlslime.Store.{Store, new_rdma_assignment, make_shared, empty_store, find, cell}
use dlslime.Store.Dump
use dlslime.Samples.{first, second}

abbrev shared : Store
unfolding make_shared
shared = (make_shared empty_store (new_rdma_assignment read (first ∷ second ∷ []) none)).0

dump-first : dump first ≡ "Assignment (mr_key: kv, target_offset: 0, source_offset: 16, length: 64)"
unfolding dump to_string dec_lt
dump-first = refl

scheduler_dump-shared :
    Dump.scheduler_dump shared (some 0 ∷ [])
    ≡ ok
        "Scheduler Assignment: {\nRDMAAssignment_0 (\nAssignment (mr_key: kv, target_offset: 0, source_offset: 16, length: 64)\nAssignment (mr_key: kv, target_offset: 64, source_offset: 80, length: 64)\n)\n}"
unfolding dump to_string dec_lt Dump.scheduler_dump find cell make_shared
scheduler_dump-shared = refl

scheduler_dump-null : Dump.scheduler_dump shared (some 0 ∷ none ∷ []) ≡ err null_dereference
unfolding dump to_string dec_lt Dump.scheduler_dump find cell make_shared
scheduler_dump-null = refl
