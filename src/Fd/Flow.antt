-- ===== src/Fd/Flow.antt =====
-- The update flow of `fd_context.rs` as a state machine: which messages move the device between its
-- states, and which are refused.
pub mod Queries
pub mod Download
pub mod Retry
pub mod Edges
pub mod Replies
pub mod Timers
use pldm_lib.Base.{◌≡◌, true}
use pldm_lib.Protocol.Update.{
  FirmwareDeviceState, idle, learn_components, ready_xfer, download, verify, apply,
}
use pldm_lib.Fd.Initiator.{is_initiator}

-- The steps that a message can take the device by.
infix 4 ◌⟶◌
pub data ◌⟶◌ : FirmwareDeviceState → FirmwareDeviceState → Type 0 where
  stay : {s : FirmwareDeviceState} → s ⟶ s
  update_requested : idle ⟶ learn_components
  table_passed : learn_components ⟶ ready_xfer
  component_taken : ready_xfer ⟶ download
  transferred : download ⟶ verify
  verified : verify ⟶ apply
  applied : apply ⟶ ready_xfer
  component_cancelled : {s : FirmwareDeviceState} → is_initiator s ≡ true → s ⟶ ready_xfer
  update_cancelled : {s : FirmwareDeviceState} → is_initiator s ≡ true → s ⟶ idle
  activated : ready_xfer ⟶ idle
