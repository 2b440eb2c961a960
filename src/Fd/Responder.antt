-- ===== src/Fd/Responder.antt =====
-- The requests of the update agent that `fd_context.rs` answers on the way into an update:
-- `query_devid_rsp`, `get_firmware_parameters_rsp`, `request_update_rsp`, `pass_component_rsp`,
-- `update_component_rsp` and `activate_firmware_rsp`.
use pldm_lib.Base.{
  ℕ, ◌-◌, Bool, true, false, ◌||◌, not, List, [], ◌∷◌, none, some, Result, Outcome, ok, panic, ltb,
  ◌==◌, if◌then◌else◌, take, length, replicate,
}
use pldm_lib.Protocol.Error.{MsgHandlerError, fd_ops, pldm_common, device_identifiers_error}
use pldm_lib.Protocol.Base.{
  PldmBaseCompletionCode, base_completion_code, TransferRespFlag, transfer_resp_try_from, end,
  start_and_end,
}
use pldm_lib.Protocol.Update.{
  FwUpdateCmd, FwUpdateCompletionCode, fw_completion_code, FirmwareDeviceState, learn_components,
  ready_xfer, baseline_transfer_size, max_descriptors_count,
}
use pldm_lib.Protocol.Results.{
  ComponentResponse, ComponentResponseCode, component_response_code_code,
  ComponentCompatibilityResponse, ComponentCompatibilityResponseCode,
  compatibility_response_code_try_from, GetStatusReasonCode,
}
use pldm_lib.Protocol.Header.{PldmMsgHeader, instance_id}
use pldm_lib.Codec.{write_to_prefix}
use pldm_lib.Message.Short.{
  fw_response_header, header_request, activate_firmware_request, activation_response,
  pass_component_response, ActivateFirmwareRequest,
}
use pldm_lib.Message.Str.{FirmwareComponent, default_params}
use pldm_lib.Message.Update.{
  RequestUpdateRequest, request_update_request, PassComponentTableRequest, pass_component_request,
  UpdateComponentRequest, update_component_request,
}
use pldm_lib.Message.Device.{
  Descriptor, empty_descriptor, new_devid_response, encode_devid_response, RequestUpdateResponse,
  UpdateComponentResponse, encode_request_update_response, encode_update_component_response,
}
use pldm_lib.Message.Params.{encode_params_response}
use pldm_lib.Fd.Internal.{
  FdInternal, ready, downloading, state_eq, is_update_mode, set_fd_state, set_fd_idle,
  set_xfer_size, set_component, set_update_flags, set_fd_req, set_initiator_mode,
  set_fd_t1_update_ts,
}
use pldm_lib.Fd.Ops.{Target, pass_component, update_component}
use pldm_lib.Fd.Handler.{
  Handler, ◌>>=◌, ◌>>◌, throw, lift, get, modify, call, call_mut, ask, refuse, with_request,
  respond,
}

abbrev pub base_code : PldmBaseCompletionCode → ℕ
base_code = base_completion_code

abbrev pub fw_code : FwUpdateCompletionCode → ℕ
fw_code = fw_completion_code

abbrev pub unchanged : FdInternal → FdInternal
unchanged i = i

-- `r.unwrap()`
abbrev pub unwrap_result : {E A : Type 0} → Result E A → Outcome MsgHandlerError A
unwrap_result (Result.ok a) = ok a
unwrap_result (Result.err _) = panic

-- `comp_resp_code == ComponentResponseCode::CompCanBeUpdated`
abbrev pub can_be_updated : ComponentResponseCode → Bool
can_be_updated ComponentResponseCode.comp_can_be_updated = true
can_be_updated _ = false

-- The flags that end a component table.
abbrev pub is_last : TransferRespFlag → Bool
is_last end = true
is_last start_and_end = true
is_last _ = false

-- What an accepted UpdateComponent does to the state.
unfoldable pub begin_download : FdInternal → FdInternal
unfolding set_fd_state set_fd_req set_initiator_mode
begin_download i =
    set_fd_state FirmwareDeviceState.download
      (set_fd_req ready false none none none none (set_initiator_mode (downloading 0 0) i))

-- The device passes through `Activate` on its way to `Idle`.
unfoldable pub begin_activate : FdInternal → FdInternal
unfolding set_fd_state set_fd_idle
begin_activate i =
    set_fd_idle GetStatusReasonCode.activate_fw (set_fd_state FirmwareDeviceState.activate i)

unfoldable pub passed_component : PassComponentTableRequest → FirmwareComponent
passed_component req = record {
  comp_classification = req.comp_classification;
  comp_identifier = req.comp_identifier;
  comp_classification_index = req.comp_classification_index;
  comp_comparison_stamp = req.comp_comparison_stamp;
  comp_version = record {
    str_type = req.comp_ver_str_type;
    str_len = req.comp_ver_str_len;
    str_data = req.comp_ver_str;
  };
  comp_image_size = none;
  update_option_flags = none;
}

unfoldable pub updated_component : UpdateComponentRequest → FirmwareComponent
updated_component req = record {
  comp_classification = req.comp_classification;
  comp_identifier = req.comp_identifier;
  comp_classification_index = req.comp_classification_index;
  comp_comparison_stamp = req.comp_comparison_stamp;
  comp_version = record {
    str_type = req.comp_ver_str_type;
    str_len = req.comp_ver_str_len;
    str_data = req.comp_ver_str;
  };
  comp_image_size = some req.comp_image_size;
  update_option_flags = some req.update_option_flags;
}

module _ {W : Type 0} (t : Target W) where
  open t use {order, ops}

  unfoldable pub set_fd_t1_ts : Handler W (Unit {0})
  unfolding set_fd_t1_update_ts
  set_fd_t1_ts = do now ← ask ops.now; modify (set_fd_t1_update_ts now)

  -- `device_identifiers[0]` and `device_identifiers.get(1..count)`
  unfoldable pub answer_devid : PldmMsgHeader → ℕ → List Descriptor → Handler W ℕ
  unfolding new_devid_response
  answer_devid hdr count [] = lift panic
  answer_devid hdr count (d ∷ ds) =
      elim (new_devid_response
        (fw_response_header (instance_id hdr) FwUpdateCmd.query_device_identifiers)
        (base_code PldmBaseCompletionCode.success) d (take (count - 1) ds)) [
          | Result.ok resp ↦ respond (encode_devid_response order resp) unchanged
          | Result.err e ↦ throw (pldm_common e)
        ]

  unfoldable pub query_devid_rsp : Handler W ℕ
  unfolding answer_devid
  query_devid_rsp = with_request header_request λ hdr. do
    (count, ds) ←
        call_mut (ops.get_device_identifiers (replicate max_descriptors_count empty_descriptor))
    if count == 0 || ltb (length ds) count
        then throw (fd_ops device_identifiers_error)
        else answer_devid hdr count ds

  unfoldable pub get_firmware_parameters_rsp : Handler W ℕ
  get_firmware_parameters_rsp = with_request header_request λ hdr. do
    (_, params) ← call_mut (ops.get_firmware_parms default_params)
    respond
        (encode_params_response order
          (fw_response_header (instance_id hdr) FwUpdateCmd.get_firmware_parameters)
          (base_code PldmBaseCompletionCode.success) params)
        unchanged

  abbrev pub request_update_answer : RequestUpdateRequest → RequestUpdateResponse
  request_update_answer req = record {
    hdr = fw_response_header (instance_id req.hdr) FwUpdateCmd.request_update;
    completion_code = base_code PldmBaseCompletionCode.success;
    fd_meta_data_len = 0;
    fd_will_send_pkg_data_cmd = 0;
    get_pkg_data_max_transfer_size = none;
  }

  abbrev pub enter_update : RequestUpdateRequest → ℕ → Handler W ℕ
  enter_update req size = do
    modify (set_xfer_size size)
    respond (encode_request_update_response order (request_update_answer req))
        (set_fd_state learn_components)

  unfoldable pub accept_update : RequestUpdateRequest → Handler W ℕ
  unfolding set_xfer_size set_fd_state
  accept_update req =
      if ltb req.max_transfer_size baseline_transfer_size
      then refuse (fw_code FwUpdateCompletionCode.invalid_transfer_length)
      else call (ops.get_xfer_size req.max_transfer_size) >>= enter_update req

  unfoldable pub request_update_rsp : Handler W ℕ
  unfolding is_update_mode set_fd_t1_ts accept_update
  request_update_rsp = do
    i ← get
    if is_update_mode i
        then refuse (fw_code FwUpdateCompletionCode.already_in_update_mode)
        else (set_fd_t1_ts >> with_request (request_update_request order) accept_update)

  abbrev pub pass_component_answer : PassComponentTableRequest → ComponentResponseCode → List ℕ
  pass_component_answer req code =
      pass_component_response (instance_id req.hdr) (base_code PldmBaseCompletionCode.success)
        (if can_be_updated code
          then ComponentResponse.comp_can_be_updated
          else ComponentResponse.comp_cannot_be_updated)
        code

  abbrev pub answer_pass_component :
      PassComponentTableRequest → TransferRespFlag → ComponentResponseCode → Handler W ℕ
  answer_pass_component req flag code =
      respond (write_to_prefix (pass_component_answer req code))
        (λ i. if is_last flag then set_fd_state ready_xfer i else i)

  unfoldable pub learn_component : PassComponentTableRequest → TransferRespFlag → Handler W ℕ
  unfolding set_fd_state
  learn_component req flag = do
    (_, params) ← call_mut (ops.get_firmware_parms default_params)
    call (ops.handle_component (passed_component req) params pass_component)
        >>= answer_pass_component req flag

  abbrev pub take_flag : PassComponentTableRequest → Handler W ℕ
  take_flag req = elim (transfer_resp_try_from req.transfer_flag) [
    | Result.ok flag ↦ learn_component req flag
    | Result.err _ ↦ refuse (base_code PldmBaseCompletionCode.invalid_data)
  ]

  unfoldable pub pass_component_rsp : Handler W ℕ
  unfolding set_fd_t1_ts learn_component
  pass_component_rsp = do
    i ← get
    if not (state_eq i.state learn_components)
        then refuse (fw_code FwUpdateCompletionCode.invalid_state_for_command)
        else do set_fd_t1_ts; with_request (pass_component_request order) take_flag

  abbrev pub update_component_answer :
      UpdateComponentRequest
      → ComponentResponseCode
      → ComponentCompatibilityResponseCode
      → UpdateComponentResponse
  update_component_answer req code compatibility = record {
    hdr = fw_response_header (instance_id req.hdr) FwUpdateCmd.update_component;
    completion_code = base_code PldmBaseCompletionCode.success;
    comp_compatibility_resp =
        if can_be_updated code
        then ComponentCompatibilityResponse.comp_can_be_updated
        else ComponentCompatibilityResponse.comp_cannot_be_updated;
    comp_compatibility_resp_code = compatibility;
    update_option_flags_enabled = req.update_option_flags;
    time_before_req_fw_data = 0;
    get_comp_opaque_data_max_transfer_size = none;
  }

  unfoldable pub answer_update_component :
      UpdateComponentRequest → ComponentResponseCode → Handler W ℕ
  unfolding begin_download
  answer_update_component req code = do
    compatibility ←
        lift
          (unwrap_result (compatibility_response_code_try_from (component_response_code_code code)))
    respond
        (encode_update_component_response order (update_component_answer req code compatibility))
        (λ i. if can_be_updated code then begin_download i else i)

  unfoldable pub take_component : UpdateComponentRequest → Handler W ℕ
  unfolding set_component set_update_flags answer_update_component updated_component
  take_component req = do
    modify (set_component (updated_component req))
    modify (set_update_flags req.update_option_flags)
    (_, params) ← call_mut (ops.get_firmware_parms default_params)
    call (ops.handle_component (updated_component req) params update_component)
        >>= answer_update_component req

  unfoldable pub update_component_rsp : Handler W ℕ
  unfolding set_fd_t1_ts take_component
  update_component_rsp = do
    i ← get
    if not (state_eq i.state ready_xfer)
        then refuse (fw_code FwUpdateCompletionCode.invalid_state_for_command)
        else (set_fd_t1_ts >> with_request (update_component_request order) take_component)

  abbrev pub answer_activation : ActivateFirmwareRequest → ℕ × ℕ → Handler W ℕ
  answer_activation req (code, time) =
      respond
        (write_to_prefix
          (activation_response order FwUpdateCmd.activate_firmware (instance_id req.hdr) code time))
        (λ i.
          if code == base_code PldmBaseCompletionCode.success
            || code == fw_code FwUpdateCompletionCode.activation_not_required
          then begin_activate i
          else i)

  unfoldable pub activate_image : ActivateFirmwareRequest → Handler W ℕ
  unfolding begin_activate
  activate_image req =
      if req.self_contained_activation_req == 0 || req.self_contained_activation_req == 1
      then call_mut (ops.activate req.self_contained_activation_req 0) >>= answer_activation req
      else refuse (base_code PldmBaseCompletionCode.invalid_data)

  unfoldable pub activate_firmware_rsp : Handler W ℕ
  unfolding activate_image
  activate_firmware_rsp = do
    i ← get
    if not (state_eq i.state ready_xfer)
        then refuse (fw_code FwUpdateCompletionCode.invalid_state_for_command)
        else with_request activate_firmware_request activate_image
