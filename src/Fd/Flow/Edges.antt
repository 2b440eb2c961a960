-- ===== src/Fd/Flow/Edges.antt =====
-- `fd_context.rs` along the step relation of the update flow, handler by handler.
use pldm_lib.Base.{ℕ, ◌≡◌, refl, true, ok, arith}
use pldm_lib.Protocol.Update.{FirmwareDeviceState, download, verify, apply}
use pldm_lib.Protocol.Results.{VerifyResult, ApplyResult}
use pldm_lib.Fd.Ops.{Target}
use pldm_lib.Fd.Handler.{Ctx, refuse}
use pldm_lib.Fd.Responder.{
  request_update_rsp, pass_component_rsp, update_component_rsp, activate_firmware_rsp,
}
use pldm_lib.Fd.Service.{cancel_update_component_rsp, cancel_update_rsp}
use pldm_lib.Fd.Initiator.{
  is_initiator, alloc_id, should_send_fd_request, send_transfer_complete, send_request_fw_data,
  send_download_request, fd_progress_download, send_verify_complete, verify_step,
  fd_progress_verify, send_apply_complete, apply_step, fd_progress_apply, check_t1, progress_in,
  refresh_t1, fd_progress,
}
use pldm_lib.Fd.Reply.{handle_response}
use pldm_lib.Fd.Flow.{
  ◌⟶◌, stay, update_requested, table_passed, component_taken, transferred, verified, applied,
  component_cancelled, update_cancelled, activated,
}

module _ {W : Type 0} (t : Target W) where
  pub request_update-Edge :
      (c : Ctx W) → c.internal.state ⟶ (request_update_rsp t c).1.internal.state
  unfolding request_update_rsp refuse
  request_update-Edge c = grind (arith, stay, update_requested)

  pub pass_component-Edge :
      (c : Ctx W) → c.internal.state ⟶ (pass_component_rsp t c).1.internal.state
  unfolding pass_component_rsp refuse
  pass_component-Edge c = grind (arith, stay, table_passed)

  pub update_component-Edge :
      (c : Ctx W) → c.internal.state ⟶ (update_component_rsp t c).1.internal.state
  unfolding update_component_rsp refuse
  update_component-Edge c = grind (arith, stay, component_taken)

  pub activate_firmware-Edge :
      (c : Ctx W) → c.internal.state ⟶ (activate_firmware_rsp t c).1.internal.state
  unfolding activate_firmware_rsp refuse
  activate_firmware-Edge c = grind (arith, stay, activated)

  pub cancel_component-Edge :
      (c : Ctx W) → c.internal.state ⟶ (cancel_update_component_rsp t c).1.internal.state
  unfolding cancel_update_component_rsp refuse
  cancel_component-Edge c = grind (arith, stay, component_cancelled)

  pub cancel_update-Edge : (c : Ctx W) → c.internal.state ⟶ (cancel_update_rsp t c).1.internal.state
  unfolding cancel_update_rsp refuse
  cancel_update-Edge c = grind (arith, stay, update_cancelled)

  pub handle_response-Edge : (c : Ctx W) → c.internal.state ⟶ (handle_response t c).1.internal.state
  unfolding handle_response
  handle_response-Edge c = grind (arith, stay, transferred, verified, applied)

  send_transfer_complete-state :
      (id : ℕ) (c : Ctx W) → (send_transfer_complete t id c).1.internal.state ≡ c.internal.state
  unfolding send_transfer_complete
  send_transfer_complete-state id c = ground arith

  send_request_fw_data-state :
      (id : ℕ) (c : Ctx W) → (send_request_fw_data t id c).1.internal.state ≡ c.internal.state
  unfolding send_request_fw_data
  send_request_fw_data-state id c = ground arith

  download-state : (c : Ctx W) → (send_download_request t c).1.internal.state ≡ c.internal.state
  unfolding send_download_request
  download-state c = ground (
    arith,
    λ (id : ℕ). send_transfer_complete-state id (alloc_id t c).1,
    λ (id : ℕ). send_request_fw_data-state id (alloc_id t c).1,
  )

  fd_progress_download-state :
      (c : Ctx W) → (fd_progress_download t c).1.internal.state ≡ c.internal.state
  unfolding fd_progress_download
  fd_progress_download-state c =
      let e = download-state (should_send_fd_request t c).1 in ground arith

  send_verify_complete-state :
      (res : VerifyResult) (c : Ctx W)
      → (send_verify_complete t res c).1.internal.state ≡ c.internal.state
  unfolding send_verify_complete
  send_verify_complete-state res c = ground arith

  verify_step-state : (c : Ctx W) → (verify_step t c).1.internal.state ≡ c.internal.state
  unfolding verify_step
  verify_step-state c = grind (arith, send_verify_complete-state)

  fd_progress_verify-state :
      (c : Ctx W) → (fd_progress_verify t c).1.internal.state ≡ c.internal.state
  unfolding fd_progress_verify
  fd_progress_verify-state c =
      let e = verify_step-state (should_send_fd_request t c).1 in ground arith

  send_apply_complete-state :
      (res : ApplyResult) (c : Ctx W)
      → (send_apply_complete t res c).1.internal.state ≡ c.internal.state
  unfolding send_apply_complete
  send_apply_complete-state res c = ground arith

  apply_step-state : (c : Ctx W) → (apply_step t c).1.internal.state ≡ c.internal.state
  unfolding apply_step
  apply_step-state c = grind (arith, send_apply_complete-state)

  fd_progress_apply-state :
      (c : Ctx W) → (fd_progress_apply t c).1.internal.state ≡ c.internal.state
  unfolding fd_progress_apply
  fd_progress_apply-state c =
      let e = apply_step-state (should_send_fd_request t c).1 in ground arith

  -- The progress functions stay in the state.
  progress_in-state :
      (s : FirmwareDeviceState) (c : Ctx W)
      → (progress_in t s c).1.internal.state ≡ c.internal.state
  unfolding progress_in
  progress_in-state download c = fd_progress_download-state c
  progress_in-state verify c = fd_progress_verify-state c
  progress_in-state apply c = fd_progress_apply-state c
  progress_in-state _ c = refl

  check_t1-Edge :
      (c : Ctx W)
      → is_initiator c.internal.state ≡ true
      → c.internal.state ⟶ (check_t1 t c).1.internal.state
  unfolding check_t1
  check_t1-Edge c h = grind (arith, stay, update_cancelled)

  check_t1-state : (c : Ctx W) → (check_t1 t c).0 ≡ ok tt → (check_t1 t c).1.internal ≡ c.internal
  unfolding check_t1
  check_t1-state c h = ground arith

  refresh_t1-state :
      (s : FirmwareDeviceState) (c : Ctx W) → (refresh_t1 t s c).1.internal.state ≡ c.internal.state
  unfolding refresh_t1
  refresh_t1-state s c = ground arith

  pub fd_progress-Edge : (c : Ctx W) → c.internal.state ⟶ (fd_progress t c).1.internal.state
  unfolding fd_progress
  fd_progress-Edge c =
      let s = c.internal.state in
      let e = check_t1-Edge c in
      let q = check_t1-state c in
      let p = progress_in-state s (check_t1 t c).1 in
      let r = refresh_t1-state s (progress_in t s (check_t1 t c).1).1 in
      grind (arith, stay, update_cancelled)
