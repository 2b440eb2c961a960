-- ===== src/Protocol.antt =====
-- The constants, enums and header of PLDM: `pldm-common/src/protocol` and `pldm-common/src/error.rs`.
pub mod Error
pub mod Base
pub mod Header
pub mod Update
pub mod Results
pub mod Codes
pub mod Version
