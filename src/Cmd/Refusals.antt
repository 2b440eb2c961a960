-- ===== src/Cmd/Refusals.antt =====
-- What `fd_context.rs` refuses by its state alone, and the bytes of a refusal
-- (`generate_failure_response` of `pldm-interface/src/cmd_interface.rs`).
use pldm_lib.Base.{
  ℕ, ◌%◌, ◌≡◌, Option, none, some, List, ◌∷◌, ok, err, arith, if◌then◌else◌, length, ◌<◌,
}
use pldm_lib.Protocol.Error.{codec, buffer_too_short}
use pldm_lib.Protocol.Update.{
  FwUpdateCmd, FwUpdateCompletionCode, FirmwareDeviceState, idle, learn_components, ready_xfer,
  activate,
}
use pldm_lib.Protocol.Header.{into_response, header_bytes}
use pldm_lib.Message.Short.{failure_bytes}
use pldm_lib.Codec.{decode, header, write_to_prefix}
use pldm_lib.Fd.Internal.{state_eq}
use pldm_lib.Fd.Ops.{Target}
use pldm_lib.Fd.Handler.{Ctx, refuse, generate_failure_response}
use pldm_lib.Fd.Responder.{
  fw_code, request_update_rsp, pass_component_rsp, update_component_rsp, activate_firmware_rsp,
}
use pldm_lib.Fd.Service.{
  activate_pending_component_image_rsp, update_security_revision_rsp, cancel_update_component_rsp,
  cancel_update_rsp,
}
use pldm_lib.Cmd.{fw_update_handler}

abbrev invalid_state : Option ℕ
invalid_state = some (fw_code FwUpdateCompletionCode.invalid_state_for_command)

abbrev only_in : FirmwareDeviceState → FirmwareDeviceState → Option ℕ
only_in wanted s = if state_eq s wanted then none else invalid_state

-- The completion code that a command is refused with in a state, if it is.
abbrev pub refused : FwUpdateCmd → FirmwareDeviceState → Option ℕ
refused FwUpdateCmd.request_update s =
    if state_eq s idle then none else some (fw_code FwUpdateCompletionCode.already_in_update_mode)
refused FwUpdateCmd.pass_component_table s = only_in learn_components s
refused FwUpdateCmd.update_component s = only_in ready_xfer s
refused FwUpdateCmd.activate_firmware s = only_in ready_xfer s
refused FwUpdateCmd.activate_pending_component_image s = only_in idle s
refused FwUpdateCmd.update_security_revision s = only_in idle s
refused FwUpdateCmd.cancel_update idle = some (fw_code FwUpdateCompletionCode.not_in_update_mode)
refused FwUpdateCmd.cancel_update _ = none
refused FwUpdateCmd.cancel_update_component idle =
    some (fw_code FwUpdateCompletionCode.not_in_update_mode)
refused FwUpdateCmd.cancel_update_component learn_components = invalid_state
refused FwUpdateCmd.cancel_update_component ready_xfer = invalid_state
refused FwUpdateCmd.cancel_update_component activate = invalid_state
refused FwUpdateCmd.cancel_update_component _ = none
refused _ s = none

module _ {W : Type 0} (t : Target W) where
  -- A command to which the table `refused` gives a code in the device's state does what the
  -- refusal with that code does, whatever the request's bytes.
  pub fw_update_handler-refuse :
      (cmd : FwUpdateCmd) (code : ℕ) (c : Ctx W)
      → refused cmd c.internal.state ≡ some code
      → fw_update_handler t cmd c ≡ refuse code c
  unfolding fw_update_handler request_update_rsp pass_component_rsp update_component_rsp
      activate_firmware_rsp activate_pending_component_image_rsp update_security_revision_rsp
      cancel_update_component_rsp cancel_update_rsp
  fw_update_handler-refuse FwUpdateCmd.request_update code c h = ground arith
  fw_update_handler-refuse FwUpdateCmd.pass_component_table code c h = ground arith
  fw_update_handler-refuse FwUpdateCmd.update_component code c h = ground arith
  fw_update_handler-refuse FwUpdateCmd.activate_firmware code c h = ground arith
  fw_update_handler-refuse FwUpdateCmd.activate_pending_component_image code c h = ground arith
  fw_update_handler-refuse FwUpdateCmd.update_security_revision code c h = ground arith
  fw_update_handler-refuse FwUpdateCmd.cancel_update code c h = ground arith
  fw_update_handler-refuse FwUpdateCmd.cancel_update_component code c h = ground arith
  fw_update_handler-refuse _ code c h = ground arith

module _ {W : Type 0} where
  -- In a buffer of at least four bytes a refusal writes the request's header with its highest
  -- bit cleared, and the completion code; it returns 4, and nothing else changes.
  pub refuse-bytes :
      (code a b d e : ℕ) (rest : List ℕ) (c : Ctx W)
      → c.payload ≡ a ∷ b ∷ d ∷ e ∷ rest
      → refuse code c ≡ (ok 4, record c { payload = a % 128 ∷ b ∷ d ∷ code ∷ rest })
  unfolding refuse generate_failure_response decode header write_to_prefix into_response
      failure_bytes header_bytes
  refuse-bytes code a b d e rest c h = ground arith

  -- In a buffer of fewer than four bytes a refusal returns the error BufferTooShort, and
  -- nothing changes.
  refuse-short :
      (code : ℕ) (c : Ctx W)
      → length c.payload < 4
      → refuse code c ≡ (err (codec buffer_too_short), c)
  unfolding refuse generate_failure_response decode header write_to_prefix into_response
      failure_bytes header_bytes
  refuse-short code c h = ground arith
