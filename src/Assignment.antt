-- ===== src/Assignment.antt =====
-- csrc/engine/assignment.h: what a client asks to have copied.
use dlslime.Prelude.{ℕ, String, List, to_string, ◌++ₛ◌}

-- `enum class OpCode: uint8_t`; such a type holds any byte, so `other` is one with no enumerator.
pub data OpCode : Type 0 where
  read : OpCode
  send : OpCode
  recv : OpCode
  other : ℕ → OpCode

pub record Assignment : Type 0 where
  pub mr_key : String
  pub source_offset : ℕ
  pub target_offset : ℕ
  pub length : ℕ

abbrev pub AssignmentBatch : Type 0
AssignmentBatch = List Assignment

-- The constructor takes the target's offset first.
abbrev pub new_assignment : String → ℕ → ℕ → ℕ → Assignment
new_assignment mr_key target_offset source_offset length = record {
  mr_key = mr_key;
  source_offset = source_offset;
  target_offset = target_offset;
  length = length;
}

-- `Assignment::dump`
unfoldable pub dump : Assignment → String
dump a =
    "Assignment (mr_key: "
    ++ₛ a.mr_key
    ++ₛ ", target_offset: "
    ++ₛ to_string a.target_offset
    ++ₛ ", source_offset: "
    ++ₛ to_string a.source_offset
    ++ₛ ", length: "
    ++ₛ to_string a.length
    ++ₛ ")"

-- What `Assignment::print` writes.
unfoldable pub print : Assignment → String
unfolding dump
print a = dump a ++ₛ "\n"
