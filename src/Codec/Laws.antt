-- ===== src/Codec/Laws.antt =====
-- What the buffer is after a write.
use pldm_lib.Base.{ℕ, ◌≤◌, ◌≡◌, List, ◌++◌, ok, length, drop, arith, length-append, length-drop}
use pldm_lib.Codec.Defs.{write_to_prefix}

-- A message that fits is written over the front of the buffer and the length stays.
pub write_to_prefix_ok :
    (bs buffer : List ℕ)
    → length bs ≤ length buffer
    → write_to_prefix bs buffer ≡ ok (length bs, bs ++ drop (length bs) buffer)
unfolding write_to_prefix
write_to_prefix_ok bs buffer h = ground arith

pub length-overwrite :
    (bs buffer : List ℕ)
    → length bs ≤ length buffer
    → length (bs ++ drop (length bs) buffer) ≡ length buffer
length-overwrite bs buffer h =
    omega (arith, length-append bs (drop (length bs) buffer), length-drop (length bs) buffer)
