-- ===== src/Codec/Order.antt =====
-- The bytes of integers in memory, as `zerocopy` reads and writes them: what its documentation
-- promises of `read_from_bytes` and `write_to`, and the two orders that targets have.
use pldm_lib.Base.{
  ℕ, zero, suc, ◌+◌, ◌*◌, ◌/◌, ◌%◌, ◌^◌, ◌<◌, ◌≡◌, refl, List, [], ◌∷◌, arith, length, All, IsByte,
}
use native.Mathlib.Nat.{pow-suc}

pub record ByteOrder : Type 0 where
  pub read_int : List ℕ → ℕ
  pub write_int : ℕ → ℕ → List ℕ

-- An integer of `w` bytes is written in `w` bytes and reads back.
pub record IsByteOrder (bo : ByteOrder) : Type 0 where
  pub length-write : (w v : ℕ) → length (bo.write_int w v) ≡ w
  pub write-bytes : (w v : ℕ) → All IsByte (bo.write_int w v)
  pub read-write : (w v : ℕ) → v < 256 ^ w → bo.read_int (bo.write_int w v) ≡ v

unfoldable pub from_le : List ℕ → ℕ
from_le [] = 0
from_le (b ∷ bs) = b + 256 * from_le bs

unfoldable pub to_le : ℕ → ℕ → List ℕ
to_le zero v = []
to_le (suc w) v = (v % 256) ∷ to_le w (v / 256)

abbrev pub little_endian : ByteOrder
little_endian = record { read_int = from_le; write_int = to_le }

length-to_le : (w v : ℕ) → length (to_le w v) ≡ w
unfolding to_le
length-to_le zero v = refl
length-to_le (suc w) v = omega (arith, length-to_le w (v / 256))

to_le-bytes : (w v : ℕ) → All IsByte (to_le w v)
unfolding to_le
to_le-bytes zero v = tt
to_le-bytes (suc w) v = (omega arith, to_le-bytes w (v / 256))

div_lt : (w v : ℕ) → v < 256 ^ suc w → v / 256 < 256 ^ w
div_lt w v h = omega (arith, pow-suc 256 w)

from_le-to_le : (w v : ℕ) → v < 256 ^ w → from_le (to_le w v) ≡ v
unfolding from_le to_le
from_le-to_le zero v h = omega arith
from_le-to_le (suc w) v h = omega (arith, from_le-to_le w (v / 256) (div_lt w v h))

pub little_endian-IsByteOrder : IsByteOrder little_endian
little_endian-IsByteOrder = record {
  length-write = length-to_le;
  write-bytes = to_le-bytes;
  read-write = from_le-to_le;
}
