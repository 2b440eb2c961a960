-- ===== src/Codec.antt =====
-- `pldm-common/src/codec.rs`: reading a message from the front of a buffer and writing one over it.
-- How an integer of two bytes or more stands in memory is the target's byte order, which the source
-- leaves to the `zerocopy` crate: the parameter `ByteOrder`. A `repr(C, packed)` struct is its
-- fields one after the other.
pub mod Order
pub mod Laws
pub mod Round
pub mod Writes
pub mod Defs
unfoldable pub use Defs.*
