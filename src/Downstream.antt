-- ===== src/Downstream.antt =====
-- The downstream devices of `pldm-common/src/message/firmware_update/query_downstream.rs`: the list
-- of devices in a QueryDownstreamIdentifiers response, and the iterators that read it.
pub mod Blob
pub mod Devices
pub mod Walk
pub mod Wire
pub mod Entries
pub mod Lookup
pub mod Descriptors
pub mod Collect
