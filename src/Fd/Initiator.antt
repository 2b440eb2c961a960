-- ===== src/Fd/Initiator.antt =====
-- The requests that the device itself sends while it downloads, verifies and applies: `fd_progress`,
-- `should_send_fd_request` and the progress functions of `fd_context.rs`.
use pldm_lib.Base.{
  ℕ, ◌-◌, ◌%◌, ◌^◌, Bool, true, false, ◌&&◌, not, Option, none, some, ltb, leb, if◌then◌else◌,
  ok_or, unwrap_option,
}
use pldm_lib.Protocol.Error.{fd_initiator_mode_error, t1_timeout}
use pldm_lib.Protocol.Update.{
  FwUpdateCmd, fw_update_cmd_code, FirmwareDeviceState, download, verify, apply,
}
use pldm_lib.Protocol.Results.{
  transfer_result_try_from, VerifyResult, verify_success, verify_generic_error, verify_result_code,
  ApplyResult, apply_success, apply_generic_error, apply_result_code,
}
use pldm_lib.Codec.{write_to_prefix}
use pldm_lib.Message.Short.{
  transfer_complete_request, verify_complete_request, apply_complete_request,
  request_fw_data_request,
}
use pldm_lib.Fd.Internal.{
  FdInternal, FdReqState, unused, ready, sent, failed, req_state_eq, set_fd_req,
  alloc_next_instance_id, get_fd_download_chunk, set_fd_download_state, set_fd_verify_progress,
  set_fd_apply_progress, fd_idle_timeout,
}
use pldm_lib.Fd.Ops.{Target}
use pldm_lib.Fd.Handler.{
  Handler, ◌>>=◌, ◌>>◌, pure, throw, lift, get, modify, update, call, call_mut, ask, write,
}
use pldm_lib.Fd.Responder.{unwrap_result, set_fd_t1_ts}
use pldm_lib.Fd.Service.{progress_percent_not_supported}

-- `matches!(state, Download | Verify | Apply)`
abbrev pub is_initiator : FirmwareDeviceState → Bool
is_initiator download = true
is_initiator verify = true
is_initiator apply = true
is_initiator _ = false

-- `should_start_initiator_mode` and `should_stop_initiator_mode`
unfoldable pub should_start_initiator_mode : FdInternal → Bool
should_start_initiator_mode i = is_initiator i.state

unfoldable pub should_stop_initiator_mode : FdInternal → Bool
should_stop_initiator_mode i = not (is_initiator i.state)

abbrev is_verify_success : VerifyResult → Bool
is_verify_success verify_success = true
is_verify_success _ = false

abbrev is_apply_success : ApplyResult → Bool
is_apply_success apply_success = true
is_apply_success _ = false

-- A request that was sent is due again once T2 has passed, unless time went backwards.
unfoldable pub is_due : ℕ → ℕ → ℕ → Bool
is_due now sent_time retry = if ltb now sent_time then false else leb retry (now - sent_time)

module _ {W : Type 0} (t : Target W) where
  open t use {order, ops}

  unfoldable pub send_decision : FdReqState → ℕ → FdInternal → Handler W Bool
  unfolding is_due
  send_decision unused now i = pure false
  send_decision ready now i = pure true
  send_decision failed now i = pure false
  send_decision sent now i = do
    sent_time ← lift (unwrap_option i.req.sent_time)
    pure (is_due now sent_time i.fd_t2_retry_time)

  unfoldable pub should_send_fd_request : Handler W Bool
  unfolding send_decision
  should_send_fd_request = do now ← ask ops.now; i ← get; send_decision i.req.state now i

  -- `self.internal.alloc_next_instance_id().unwrap()`
  unfoldable pub alloc_id : Handler W ℕ
  unfolding alloc_next_instance_id
  alloc_id = update alloc_next_instance_id

  -- `set_fd_req(Sent, complete, result, Some(instance_id), Some(command), Some(now))`
  unfoldable pub mark_sent : Bool → Option ℕ → ℕ → FwUpdateCmd → Handler W (Unit {0})
  unfolding set_fd_req
  mark_sent complete result id cmd = do
    now ← ask ops.now
    modify (set_fd_req sent complete result (some id) (some (fw_update_cmd_code cmd)) (some now))

  unfoldable pub send_transfer_complete : ℕ → Handler W ℕ
  unfolding mark_sent
  send_transfer_complete id = do
    i ← get
    result ← lift (ok_or i.req.result fd_initiator_mode_error)
    code ← lift (unwrap_result (transfer_result_try_from result))
    size ← write (write_to_prefix (transfer_complete_request id code))
    mark_sent true (some result) id FwUpdateCmd.transfer_complete
    pure size

  unfoldable pub send_request_fw_data : ℕ → Handler W ℕ
  unfolding get_fd_download_chunk set_fd_download_state mark_sent
  send_request_fw_data id = do
    i ← get
    (offset, length) ← call (ops.query_download_offset_and_length i.update_comp)
    i' ← get
    chunk ← lift (get_fd_download_chunk (offset % 2 ^ 32) (length % 2 ^ 32) i')
    (chunk_offset, chunk_length) ← lift (ok_or chunk fd_initiator_mode_error)
    size ← write (write_to_prefix (request_fw_data_request order id chunk_offset chunk_length))
    modify (set_fd_download_state chunk_offset chunk_length)
    mark_sent false none id FwUpdateCmd.request_firmware_data
    pure size

  unfoldable pub send_download_request : Handler W ℕ
  unfolding alloc_id send_transfer_complete send_request_fw_data
  send_download_request = do
    id ← alloc_id
    i ← get
    if i.req.complete then send_transfer_complete id else send_request_fw_data id

  unfoldable pub fd_progress_download : Handler W ℕ
  unfolding should_send_fd_request send_download_request
  fd_progress_download = do
    due ← should_send_fd_request
    if due then send_download_request else throw fd_initiator_mode_error

  unfoldable pub send_verify_complete : VerifyResult → Handler W ℕ
  unfolding alloc_id mark_sent
  send_verify_complete res = do
    id ← alloc_id
    size ← write (write_to_prefix (verify_complete_request id res))
    mark_sent true (some (verify_result_code res)) id FwUpdateCmd.verify_complete
    pure size

  -- A request that is complete already is sent again with `VerifyResult::default()`.
  unfoldable pub verify_step : Handler W ℕ
  unfolding set_fd_verify_progress send_verify_complete
  verify_step = do
    i ← get
    if i.req.complete then send_verify_complete verify_generic_error else do
      (res, percent) ← call_mut (ops.verify i.update_comp progress_percent_not_supported)
      modify (set_fd_verify_progress percent)
      if is_verify_success res && ltb percent 100 then pure 0 else send_verify_complete res

  unfoldable pub fd_progress_verify : Handler W ℕ
  unfolding should_send_fd_request verify_step
  fd_progress_verify = do
    due ← should_send_fd_request
    if due then verify_step else throw fd_initiator_mode_error

  unfoldable pub send_apply_complete : ApplyResult → Handler W ℕ
  unfolding alloc_id mark_sent
  send_apply_complete res = do
    id ← alloc_id
    size ← write (write_to_prefix (apply_complete_request order id res 0))
    mark_sent true (some (apply_result_code res)) id FwUpdateCmd.apply_complete
    pure size

  -- A request that is complete already is sent again with `ApplyResult::default()`.
  unfoldable pub apply_step : Handler W ℕ
  unfolding set_fd_apply_progress send_apply_complete
  apply_step = do
    i ← get
    if i.req.complete then send_apply_complete apply_generic_error else do
      (res, percent) ← call_mut (ops.apply i.update_comp progress_percent_not_supported)
      modify (set_fd_apply_progress percent)
      if is_apply_success res && ltb percent 100 then pure 0 else send_apply_complete res

  unfoldable pub fd_progress_apply : Handler W ℕ
  unfolding should_send_fd_request apply_step
  fd_progress_apply = do
    due ← should_send_fd_request
    if due then apply_step else throw fd_initiator_mode_error

  -- What a T1 timeout leaves behind.
  unfoldable pub drop_request : FdInternal → FdInternal
  unfolding set_fd_req fd_idle_timeout
  drop_request i = set_fd_req unused false none none none none (fd_idle_timeout i)

  -- The test of T1: `now().saturating_sub(t1)` against the timeout, while a request is out.
  unfoldable pub check_t1 : Handler W (Unit {0})
  unfolding drop_request
  check_t1 = do
    i ← get
    if req_state_eq i.req.state sent
        then (do
          now ← ask ops.now
          if ltb i.fd_t1_timeout (now - i.fd_t1_update_ts)
              then (do
                call (ops.cancel_update_component i.update_comp)
                modify drop_request
                throw t1_timeout)
              else pure tt)
        else pure tt

  unfoldable pub progress_in : FirmwareDeviceState → Handler W ℕ
  unfolding fd_progress_download fd_progress_verify fd_progress_apply
  progress_in download = fd_progress_download
  progress_in verify = fd_progress_verify
  progress_in apply = fd_progress_apply
  progress_in _ = throw fd_initiator_mode_error

  abbrev works_alone : FirmwareDeviceState → Bool
  works_alone verify = true
  works_alone apply = true
  works_alone _ = false

  -- Local work is not silence of the update agent, so T1 starts again after it.
  unfoldable pub refresh_t1 : FirmwareDeviceState → Handler W (Unit {0})
  unfolding set_fd_t1_ts
  refresh_t1 state = do
    i ← get
    if works_alone state && not (req_state_eq i.req.state sent) then set_fd_t1_ts t else pure tt

  unfoldable pub fd_progress : Handler W ℕ
  unfolding check_t1 progress_in refresh_t1
  fd_progress = do
    i ← get
    if not (is_initiator i.state)
        then throw fd_initiator_mode_error
        else do check_t1; size ← progress_in i.state; refresh_t1 i.state; pure size
