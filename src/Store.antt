-- ===== src/Store.antt =====
-- csrc/engine/rdma/rdma_assignment.h and rdma_assignment.cpp: the assignments that an RDMA context
-- works on, as shared objects with their reference counts.
pub mod Frame
pub mod Calls
pub mod Waiting
pub mod Done
pub mod Crowd
pub mod Dump
mod Tests
use dlslime.Prelude.{
  ℕ, suc, ◌+◌, ◌^◌, Bool, true, false, ◌&&◌, Option, none, some, List, [], ◌∷◌, ◌++◌, length,
  get_elem?, set, Result, ok, err, or_fault, ◌>>=◌, use_after_free, add32, ltb, null_dereference,
  ◌-◌, zero,
}
use dlslime.Assignment.{OpCode, AssignmentBatch}

-- A function of type `callback_fn_t`: the one that a `callback_info` has by default, the empty one
-- that `RDMAContext::submit` makes, or one that a client passes, which is known by a number.
pub data Callback : Type 0 where
  count_finished : Callback
  ignore : Callback
  client : ℕ → Callback

pub record CallbackInfo : Type 0 where
  pub callback : Callback
  pub opcode : OpCode
  pub batch_size : ℕ
  pub finished : ℕ  -- std::atomic<int>

-- none is a null function: the default stays.
abbrev or_count_finished : Option Callback → Callback
or_count_finished none = count_finished
or_count_finished (some f) = f

abbrev pub new_callback_info : OpCode → ℕ → Option Callback → CallbackInfo
new_callback_info opcode batch_size callback = record {
  callback = or_count_finished callback;
  opcode = opcode;
  batch_size = batch_size;
  finished = 0;
}

pub record RdmaAssignment : Type 0 where
  pub opcode : OpCode
  pub batch : AssignmentBatch
  pub batch_size : ℕ
  pub callback_info : CallbackInfo

abbrev pub new_rdma_assignment : OpCode → AssignmentBatch → Option Callback → RdmaAssignment
new_rdma_assignment opcode batch callback = record {
  opcode = opcode;
  batch = batch;
  batch_size = length batch;
  callback_info = new_callback_info opcode (length batch) callback;
}

-- An object and the number of `shared_ptr`s that hold it.
pub record Cell : Type 0 where
  pub refs : ℕ
  pub object : RdmaAssignment

-- An object is known by its place; none has been destroyed, its `callback_info` with it. `calls` are
-- the calls of clients' functions with their codes, in order.
pub record Store : Type 0 where
  pub cells : List (Option Cell)
  pub calls : List (ℕ × ℕ)

abbrev pub empty_store : Store
empty_store = record { cells = []; calls = [] }

abbrev pub flatten : Option (Option Cell) → Option Cell
flatten none = none
flatten (some c) = c

unfoldable pub cell : Store → ℕ → Option Cell
cell s id = flatten (get_elem? s.cells id)

abbrev pub object_of : Option Cell → Option RdmaAssignment
object_of none = none
object_of (some c) = some c.object

-- The object through a pointer to it.
unfoldable pub find : Store → ℕ → Result RdmaAssignment
unfolding cell
find s id = or_fault use_after_free (object_of (cell s id))

-- `std::make_shared`
unfoldable pub make_shared : Store → RdmaAssignment → Store × ℕ
make_shared s a =
    (record s { cells = s.cells ++ (some (record { refs = 1; object = a }) ∷ []) }, length s.cells)

unfoldable pub put : Store → ℕ → Option Cell → Store
put s id c = record s { cells = set s.cells id c }

abbrev pub copied : Option Cell → Option Cell
copied none = none
copied (some c) = some (record c { refs = c.refs + 1 })

-- A copy of a `shared_ptr`.
unfoldable pub acquire : Store → ℕ → Store
unfolding cell put
acquire s id = put s id (copied (cell s id))

abbrev pub fewer : ℕ → RdmaAssignment → Option Cell
fewer zero a = none
fewer (suc n) a = some (record { refs = suc n; object = a })

abbrev pub dropped : Option Cell → Option Cell
dropped none = none
dropped (some c) = fewer (c.refs - 1) c.object

-- The end of a `shared_ptr`; the last one takes the object with it.
unfoldable pub release : Store → ℕ → Store
unfolding cell put
release s id = put s id (dropped (cell s id))

unfoldable pub with_callback_info : Store → ℕ → Option Cell → CallbackInfo → Store
unfolding put
with_callback_info s id none i = s
with_callback_info s id (some c) i =
    put s id (some (record c { object = record (c.object) { callback_info = i } }))

unfoldable pub call : Store → ℕ → CallbackInfo → ℕ → Callback → Store
unfolding with_callback_info cell
call s id i code count_finished =
    with_callback_info s id (cell s id) (record i { finished = add32 i.finished 1 })
call s id i code ignore = s
call s id i code (client f) = record s { calls = s.calls ++ ((f, code) ∷ []) }

-- `callback_info_->callback_(code)`
unfoldable pub invoke : Store → ℕ → ℕ → Result Store
unfolding find call
invoke s id code = do a ← find s id; ok (call s id a.callback_info code a.callback_info.callback)

-- `finished_ > 0` of a signed integer.
abbrev is_positive : ℕ → Bool
is_positive n = ltb 0 n && ltb n (2 ^ 31)

-- `callback_info::query`, and the condition that `callback_info::wait` waits for.
unfoldable pub query : Store → ℕ → Result Bool
unfolding find
query s id = do a ← find s id; ok (is_positive a.callback_info.finished)

-- `RDMASchedulerAssignment::wait` returns when each of its assignments is finished; a null pointer
-- among them is dereferenced.
unfoldable pub wait_all : Store → List (Option ℕ) → Result Bool
unfolding query
wait_all s [] = ok true
wait_all s (none ∷ ids) = err null_dereference
wait_all s (some id ∷ ids) = do
  done ← query s id
  elim done [ true ↦ wait_all s ids | false ↦ ok false ]
