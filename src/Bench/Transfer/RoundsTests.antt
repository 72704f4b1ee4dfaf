-- ===== src/Bench/Transfer/RoundsTests.antt =====
-- A benchmark whose clock lets it go for two rounds.
use dlslime.Prelude.{
  ℕ, ◌*◌, ◌^◌, ◌≡◌, refl, Bool, true, false, none, some, Option, List, [], ◌∷◌, set, ok, arith,
  replicate, ◌==◌, get_elem?,
}
use dlslime.Json.Tree.{Tree, null}
use dlslime.Store.{Store, Cell, cell, query, find, flatten, empty_store}
use dlslime.Store.Frame.{slot-set, slot_out}
use dlslime.Bench.Held.{IsHeld, AllHeld}
use dlslime.Bench.Transfer.{Flags, default_flags, World, Running, rounds}
use dlslime.Bench.Transfer.Rounds.{Serves, Counted, rounds-Counted}
use dlslime.Samples.{context, info, verbs, region}

abbrev pub finished_cell : Cell → Cell
finished_cell c = record c {
  object = record (c.object) { callback_info = record (c.object.callback_info) { finished = 1 } };
}

abbrev pub done : Option Cell → Option Cell
done none = none
done (some c) = some (finished_cell c)

abbrev updated : Bool → Cell → Cell
updated true c = finished_cell c
updated false c = c

-- The hardware and the threads have finished an assignment.
abbrev pub finish : Store → ℕ → Store
finish s id = record s { cells = set s.cells id (done (flatten (get_elem? s.cells id))) }

abbrev seconds : ℕ
seconds = 10 ^ 9

abbrev pub world : World Tree
world = record {
  verbs = verbs;
  reg_mr = λ pd addr length access. some region;
  answers = record { rtr = λ i. 0; rts = λ i. 0; notify = λ i. 0 };
  fuel = 5;
  gid = info.gid;
  unset = info;
  malloc = λ size. some (record { addr = 1000; bytes = replicate size 77 });
  clock = λ k. k * (4 * seconds);
  serve = λ c s batch id. (c, finish s id);
  memory = λ b. 0 ∷ 1 ∷ 2 ∷ 3 ∷ 4 ∷ 5 ∷ 6 ∷ 7 ∷ 0 ∷ [];
  dump = λ j. "";
  parse = λ text. some null;
}

cell-finish :
    (s : Store) (id i : ℕ) (c : Cell)
    → cell s i ≡ some c
    → cell (finish s id) i ≡ some (updated (id == i) c)
unfolding cell
cell-finish s id i c h =
    let new = slot-set s.cells id i (done (flatten (get_elem? s.cells id))) in
    let inside = slot_out s.cells i in ground arith

finish-AllHeld :
    (s : Store) (id : ℕ) (ids : List (Option ℕ)) → AllHeld s ids → AllHeld (finish s id) ids
finish-AllHeld s id [] h = tt
finish-AllHeld s id (none ∷ ids) (h, hs) = absurd h
finish-AllHeld s id (some i ∷ ids) ((c, h), hs) =
    ((updated (id == i) c, cell-finish s id i c h), finish-AllHeld s id ids hs)

query-finish : (s : Store) (id : ℕ) → IsHeld s (some id) → query (finish s id) id ≡ ok true
unfolding query find
query-finish s id (c, h) =
    let same : (id == id) ≡ true = ground arith in
    let there : cell (finish s id) id ≡ some (finished_cell c) =
      rw same at (cell-finish s id id c h) in
    rw there refl

world-Serves : Serves world
world-Serves = record {
  keeps = λ c s batch id h. finish-AllHeld s id batch h;
  finishes = λ c s batch id h held. query-finish s id held;
  qps = λ c s batch id. refl;
}

abbrev pub tiny : Flags
tiny = record default_flags { buffer_size = 9; block_size = 4; batch_size = 2; concurrent_num = 3 }

abbrev start : Running
start = record { context = context; store = empty_store; total_bytes = 0; total_trips = 0 }

rounds-Counted_example :
    (r : Running) × (rounds world tiny 5 1 start ≡ ok r) × Counted tiny 6 start r
rounds-Counted_example =
    rounds-Counted world world-Serves tiny (omega arith) 2 1 5 start (omega arith)
      (λ i h. omega arith) (omega arith)
      (record { qps = refl; bytes = omega arith; trips = omega arith })
