-- ===== src/Message.antt =====
-- The messages of `pldm-common/src/message`: requests as they are decoded, responses as they are
-- encoded, and the firmware strings, descriptors and parameters that they carry.
pub mod Short
pub mod Str
pub mod Update
pub mod Device
pub mod Params
pub mod Requests
pub mod Round
pub mod Order
pub mod Eligible
