-- ===== src/Fd.antt =====
-- The firmware device: `pldm-interface/src/firmware_device`.
pub mod Internal
pub mod Ops
pub mod Handler
pub mod Responder
pub mod Service
pub mod Initiator
pub mod Reply
pub mod Invariant
pub mod Flow
