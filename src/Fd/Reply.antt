-- ===== src/Fd/Reply.antt =====
-- The update agent's answers to the device's own requests: `handle_response` and the four
-- `process_*_rsp` of `fd_context.rs`.
use pldm_lib.Base.{
  ℕ, Bool, true, false, ◌&&◌, ◌||◌, not, Option, none, some, Result, ok, err, panic, leb, ◌==◌,
  if◌then◌else◌, List, length, take, drop, unwrap_option,
}
use pldm_lib.Protocol.Error.{fd_initiator_mode_error, codec, buffer_too_short}
use pldm_lib.Protocol.Base.{PldmBaseCompletionCode}
use pldm_lib.Protocol.Update.{
  FwUpdateCmd, fw_update_cmd_try_from, FwUpdateCompletionCode, FirmwareDeviceState, ready_xfer,
  download, verify, apply,
}
use pldm_lib.Protocol.Results.{
  TransferResult, transfer_result_code, VerifyResult, verify_result_code,
}
use pldm_lib.Protocol.Header.{PldmMsgHeader, instance_id, cmd_code}
use pldm_lib.Codec.{header}
use pldm_lib.Message.Short.{fw_data_response_fixed, fw_data_response_fixed_size}
use pldm_lib.Fd.Internal.{
  FdInternal, FdReq, unused, ready, sent, failed, verifying, applying, state_eq, req_state_eq,
  set_fd_state, set_fd_req, set_initiator_mode, get_fd_download_state,
}
use pldm_lib.Fd.Ops.{Target}
use pldm_lib.Fd.Handler.{Handler, ◌>>=◌, ◌>>◌, pure, throw, lift, get, modify, call, ask, read}
use pldm_lib.Fd.Responder.{base_code, fw_code, set_fd_t1_ts}
use pldm_lib.Fd.Service.{apply_success}

abbrev pub is_some_of : ℕ → Option ℕ → Bool
is_some_of n none = false
is_some_of n (some m) = m == n

-- `fd_req.state == Sent`, with the instance id and the command of the response
unfoldable pub expects : FdReq → PldmMsgHeader → Bool
expects r hdr =
    req_state_eq r.state sent
    && is_some_of (instance_id hdr) r.instance_id
    && is_some_of (cmd_code hdr) r.command

abbrev transfer_success : ℕ
transfer_success = transfer_result_code TransferResult.transfer_success

abbrev verify_success : ℕ
verify_success = verify_result_code VerifyResult.verify_success

abbrev is_transfer_success : TransferResult → Bool
is_transfer_success TransferResult.transfer_success = true
is_transfer_success _ = false

-- `set_fd_req(Ready, true, Some(result), None, None, None)`
unfoldable pub complete_with : ℕ → FdInternal → FdInternal
unfolding set_fd_req
complete_with result = set_fd_req ready true (some result) none none none

unfoldable pub await_next : FdInternal → FdInternal
unfolding set_fd_req
await_next = set_fd_req ready false none none none none

-- The device keeps the failed result and waits for the update agent to cancel.
unfoldable pub await_cancel : FdInternal → FdInternal
unfolding set_fd_req
await_cancel i = set_fd_req failed true i.req.result none none none i

unfoldable pub begin_verify : FdInternal → FdInternal
unfolding await_next set_fd_state set_initiator_mode
begin_verify i = set_fd_state verify (await_next (set_initiator_mode (verifying 0) i))

unfoldable pub begin_apply : FdInternal → FdInternal
unfolding await_next set_fd_state set_initiator_mode
begin_apply i = set_fd_state apply (await_next (set_initiator_mode (applying 0) i))

unfoldable pub end_apply : FdInternal → FdInternal
unfolding set_fd_req set_fd_state
end_apply i = set_fd_state ready_xfer (set_fd_req unused false none none none none i)

-- `payload[4..].get(..length).ok_or(BufferTooShort)?`; slicing from 4 panics in a shorter buffer.
unfoldable pub data_slice : {W : Type 0} → ℕ → Handler W (List ℕ)
data_slice n c =
    if not (leb fw_data_response_fixed_size (length c.payload))
    then (panic, c)
    else let rest = drop fw_data_response_fixed_size c.payload in
      if leb n (length rest) then (ok (take n rest), c) else (err (codec buffer_too_short), c)

module _ {W : Type 0} (t : Target W) where
  open t use {order, ops}

  -- What follows from the platform's verdict on a chunk.
  unfoldable pub store_result : TransferResult → Handler W (Unit {0})
  unfolding complete_with await_next
  store_result res = do
    i ← get
    if is_transfer_success res
        then (do
          done ← ask (ops.is_download_complete i.update_comp)
          modify (if done then complete_with transfer_success else await_next))
        else modify (complete_with (transfer_result_code res))

  unfoldable pub store_at : ℕ → ℕ → Handler W (Unit {0})
  unfolding data_slice store_result
  store_at offset length = do
    i ← get
    fw_data ← data_slice length
    res ← call (ops.download_fw_data offset fw_data i.update_comp)
    store_result res

  -- The chunk has arrived: it goes to the platform, which says whether more is wanted.
  unfoldable pub store_chunk : Handler W (Unit {0})
  unfolding get_fd_download_state store_at
  store_chunk = do
    i ← get
    (offset, length) ← lift (unwrap_option (get_fd_download_state i))
    store_at offset length

  unfoldable pub process_request_fw_data_rsp : Handler W (Unit {0})
  unfolding store_chunk complete_with
  process_request_fw_data_rsp = do
    i ← get
    if not (state_eq i.state download) || i.req.complete then throw fd_initiator_mode_error else do
      fixed ← read fw_data_response_fixed
      if fixed.completion_code == base_code PldmBaseCompletionCode.success
          then store_chunk
          else if fixed.completion_code == fw_code FwUpdateCompletionCode.retry_request_fw_data
          then pure tt
          else modify (complete_with (transfer_result_code TransferResult.fd_aborted_transfer))

  -- The tests that the three `process_*_complete_rsp` begin with.
  abbrev not_awaited : FirmwareDeviceState → FdInternal → Bool
  not_awaited state i =
      not (state_eq i.state state) || not (req_state_eq i.req.state sent) || not i.req.complete

  unfoldable pub process_transfer_complete_rsp : Handler W (Unit {0})
  unfolding begin_verify await_cancel
  process_transfer_complete_rsp = do
    i ← get
    if not_awaited download i
        then throw fd_initiator_mode_error
        else if is_some_of transfer_success i.req.result
        then modify begin_verify
        else modify await_cancel

  unfoldable pub process_verify_complete_rsp : Handler W (Unit {0})
  unfolding begin_apply await_cancel
  process_verify_complete_rsp = do
    i ← get
    if not_awaited verify i
        then throw fd_initiator_mode_error
        else if is_some_of verify_success i.req.result
        then modify begin_apply
        else modify await_cancel

  unfoldable pub process_apply_complete_rsp : Handler W (Unit {0})
  unfolding end_apply await_cancel
  process_apply_complete_rsp = do
    i ← get
    if not_awaited apply i
        then throw fd_initiator_mode_error
        else if is_some_of apply_success i.req.result
        then modify end_apply
        else modify await_cancel

  -- `match FwUpdateCmd::try_from(cmd_code)`
  unfoldable pub process : FwUpdateCmd → Handler W (Unit {0})
  unfolding process_request_fw_data_rsp process_transfer_complete_rsp process_verify_complete_rsp
      process_apply_complete_rsp
  process FwUpdateCmd.request_firmware_data = process_request_fw_data_rsp
  process FwUpdateCmd.transfer_complete = process_transfer_complete_rsp
  process FwUpdateCmd.verify_complete = process_verify_complete_rsp
  process FwUpdateCmd.apply_complete = process_apply_complete_rsp
  process _ = throw fd_initiator_mode_error

  unfoldable pub accept_response : PldmMsgHeader → Handler W (Unit {0})
  unfolding process set_fd_t1_ts
  accept_response hdr = do
    set_fd_t1_ts t
    elim (fw_update_cmd_try_from (cmd_code hdr)) [
      | Result.ok cmd ↦ process cmd
      | Result.err _ ↦ throw fd_initiator_mode_error
    ]

  unfoldable pub handle_response : Handler W (Unit {0})
  unfolding expects accept_response
  handle_response = do
    hdr ← read header
    i ← get
    if not (expects i.req hdr) then throw fd_initiator_mode_error else accept_response hdr
