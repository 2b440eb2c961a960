-- ===== src/Fd/Service.antt =====
-- The requests of `fd_context.rs` that are served outside the update flow, cancellation and status:
-- `activate_pending_component_image_rsp`, `update_security_revision_rsp`,
-- `cancel_update_component_rsp`, `cancel_update_rsp` and `get_status_rsp`.
use pldm_lib.Base.{
  ℕ, ◌%◌, Bool, true, false, ◌&&◌, not, Option, none, some, Result, ok, panic, leb, ◌==◌,
  if◌then◌else◌, List, Outcome,
}
use pldm_lib.Protocol.Error.{MsgHandlerError}
use pldm_lib.Protocol.Base.{PldmBaseCompletionCode}
use pldm_lib.Protocol.Update.{
  FwUpdateCmd, FwUpdateCompletionCode, FirmwareDeviceState, idle, ready_xfer, download, verify,
  apply,
}
use pldm_lib.Protocol.Results.{
  ApplyResult, apply_result_code, AuxState, operation_in_progress, operation_successful,
  operation_failed, idle_learn_components_read_xfer, AuxStateStatus, aux_state_status_code,
  GetStatusReasonCode, initialization, NonFunctioningComponentIndication,
}
use pldm_lib.Protocol.Header.{PldmMsgHeader, instance_id}
use pldm_lib.Codec.{write_to_prefix}
use pldm_lib.Message.Short.{
  fw_response_header, header_request, failure_bytes, ComponentKey, ComponentKeyRequest,
  component_key_request, PendingComponentResult, SecurityRevisionResult, pending_response,
  security_revision_code, cancel_update_response, get_status_response, UpdateOptionResp,
  no_force_update, force_update,
}
use pldm_lib.Message.Str.{FirmwareParameters, default_params, FirmwareComponent}
use pldm_lib.Fd.Internal.{
  FdInternal, FdReq, FdReqState, unused, ready, sent, failed, state_eq, is_update_mode,
  set_fd_state, set_fd_idle, get_fd_verify_progress, get_fd_apply_progress,
}
use pldm_lib.Fd.Ops.{Target}
use pldm_lib.Fd.Handler.{
  Handler, ◌>>=◌, ◌>>◌, pure, lift, get, call, call_mut, refuse, with_request, respond,
}
use pldm_lib.Fd.Responder.{base_code, fw_code, set_fd_t1_ts}

abbrev pub unchanged : FdInternal → FdInternal
unchanged i = i

abbrev pub downstream_device : ℕ
downstream_device = 0xffff

abbrev pub apply_success : ℕ
apply_success = apply_result_code ApplyResult.apply_success

abbrev is_apply_success : Option ℕ → Bool
is_apply_success none = false
is_apply_success (some r) = r == apply_success

-- A completed, successful apply cannot be cancelled any more.
unfoldable pub is_applied : FdReq → Bool
is_applied r = r.complete && is_apply_success r.result

-- `match fd_state` of `cancel_update_component_rsp`: `none` is the early return of its last arm.
abbrev pub should_cancel_component : FirmwareDeviceState → FdReq → Option Bool
should_cancel_component download r = some true
should_cancel_component verify r = some true
should_cancel_component apply r = some (not (is_applied r))
should_cancel_component _ r = none

-- `match fd_state` of `cancel_update_rsp`
abbrev pub should_cancel_update : FirmwareDeviceState → FdReq → Bool
should_cancel_update download r = true
should_cancel_update verify r = true
should_cancel_update apply r = not (is_applied r)
should_cancel_update _ r = false

abbrev pub progress_percent_not_supported : ℕ
progress_percent_not_supported = 101

-- `ProgressPercent::new(percent).unwrap()`
abbrev new_percent : ℕ → Outcome MsgHandlerError ℕ
new_percent p = if leb p progress_percent_not_supported then ok p else panic

abbrev percent_or_default : Option ℕ → Outcome MsgHandlerError ℕ
percent_or_default none = ok progress_percent_not_supported
percent_or_default (some p) = new_percent p

abbrev status_or_generic : Option ℕ → ℕ
status_or_generic none = aux_state_status_code AuxStateStatus.generic_error
status_or_generic (some s) = s

abbrev in_progress_or_success : ℕ
in_progress_or_success = aux_state_status_code AuxStateStatus.aux_state_in_progress_or_success

abbrev pub aux_of : FdReqState → FdReq → AuxState × ℕ
aux_of unused r = (idle_learn_components_read_xfer, in_progress_or_success)
aux_of sent r = (operation_in_progress, in_progress_or_success)
aux_of ready r =
    (if r.complete then operation_successful else operation_in_progress, in_progress_or_success)
aux_of failed r = (operation_failed, status_or_generic r.result)

abbrev reason_or_initialization : Option GetStatusReasonCode → GetStatusReasonCode
reason_or_initialization none = initialization
reason_or_initialization (some c) = c

-- Bit 0 of the flags.
abbrev force_option : ℕ → UpdateOptionResp
force_option flags = if flags % 2 == 1 then force_update else no_force_update

module _ {W : Type 0} (t : Target W) where
  open t use {order, ops}

  -- `component_command_params` and the callers' `if let Some(len) = .. { return Ok(len) }`: the rest
  -- of the handler goes on with the firmware parameters.
  unfoldable pub component_command_params : ℕ → (FirmwareParameters → Handler W ℕ) → Handler W ℕ
  component_command_params classification rest =
      if classification == downstream_device
      then refuse (base_code PldmBaseCompletionCode.invalid_data)
      else (do (_, params) ← call_mut (ops.get_firmware_parms default_params); rest params)

  abbrev pub key_of : ComponentKeyRequest → ComponentKey
  key_of req = record {
    classification = req.comp_classification;
    identifier = req.comp_identifier;
    classification_index = req.comp_classification_index;
  }

  abbrev pub answer_pending : ComponentKeyRequest → PendingComponentResult → Handler W ℕ
  answer_pending req result =
      respond (write_to_prefix (pending_response order result (instance_id req.hdr))) unchanged

  abbrev pub activate_pending : ComponentKeyRequest → FirmwareParameters → Handler W ℕ
  activate_pending req params =
      call (ops.handle_pending_component (key_of req) params) >>= answer_pending req

  unfoldable pub activate_pending_component_image_rsp : Handler W ℕ
  unfolding component_command_params
  activate_pending_component_image_rsp = do
    i ← get
    if not (state_eq i.state idle)
        then refuse (fw_code FwUpdateCompletionCode.invalid_state_for_command)
        else with_request (component_key_request order)
            λ req. component_command_params req.comp_classification (activate_pending req)

  abbrev pub answer_security : ComponentKeyRequest → SecurityRevisionResult → Handler W ℕ
  answer_security req result =
      respond
        (write_to_prefix (
          failure_bytes (record {
            hdr = fw_response_header (instance_id req.hdr) FwUpdateCmd.update_security_revision;
            completion_code = security_revision_code result;
          })))
        unchanged

  abbrev pub revise_security : ComponentKeyRequest → FirmwareParameters → Handler W ℕ
  revise_security req params =
      call (ops.update_security_revision (key_of req) params) >>= answer_security req

  unfoldable pub update_security_revision_rsp : Handler W ℕ
  unfolding component_command_params
  update_security_revision_rsp = do
    i ← get
    if not (state_eq i.state idle)
        then refuse (fw_code FwUpdateCompletionCode.invalid_state_for_command)
        else with_request (component_key_request order)
            λ req. component_command_params req.comp_classification (revise_security req)

  -- `if should_cancel { self.ops.cancel_update_component(..)? }`
  abbrev pub cancel_if : Bool → FirmwareComponent → Handler W (Unit {0})
  cancel_if true comp = call (ops.cancel_update_component comp)
  cancel_if false comp = pure tt

  abbrev pub cancel_code : Bool → ℕ
  cancel_code b =
      if b then base_code PldmBaseCompletionCode.success else base_code PldmBaseCompletionCode.error

  abbrev pub answer_cancel_component : Bool → PldmMsgHeader → Handler W ℕ
  answer_cancel_component should_cancel hdr =
      respond
        (write_to_prefix (
          failure_bytes (record {
            hdr = fw_response_header (instance_id hdr) FwUpdateCmd.cancel_update_component;
            completion_code = cancel_code should_cancel;
          })))
        (λ i. if should_cancel then set_fd_state ready_xfer i else i)

  unfoldable pub cancel_component : Bool → Handler W ℕ
  unfolding set_fd_state
  cancel_component should_cancel = do
    i ← get
    cancel_if should_cancel i.update_comp
    with_request header_request (answer_cancel_component should_cancel)

  unfoldable pub cancel_update_component_rsp : Handler W ℕ
  unfolding is_update_mode cancel_component is_applied
  cancel_update_component_rsp = do
    i ← get
    if not (is_update_mode i)
        then refuse (fw_code FwUpdateCompletionCode.not_in_update_mode)
        else elim (should_cancel_component i.state i.req) [
          | none ↦ refuse (fw_code FwUpdateCompletionCode.invalid_state_for_command)
          | some should_cancel ↦ cancel_component should_cancel
        ]

  abbrev pub answer_cancel_update :
      Bool → PldmMsgHeader → NonFunctioningComponentIndication × ℕ → Handler W ℕ
  answer_cancel_update should_cancel hdr (indication, bitmap) =
      respond
        (write_to_prefix (
          cancel_update_response order (instance_id hdr) (cancel_code should_cancel) indication
            bitmap))
        (λ i. if should_cancel then set_fd_idle GetStatusReasonCode.cancel_update i else i)

  unfoldable pub cancel_all : Bool → Handler W ℕ
  unfolding set_fd_idle
  cancel_all should_cancel = do
    i ← get
    cancel_if should_cancel i.update_comp
    with_request header_request
        λ hdr. call ops.get_non_functional_component_info >>= answer_cancel_update should_cancel hdr

  unfoldable pub cancel_update_rsp : Handler W ℕ
  unfolding is_update_mode set_fd_t1_ts cancel_all is_applied
  cancel_update_rsp = do
    i ← get
    if not (is_update_mode i)
        then refuse (fw_code FwUpdateCompletionCode.not_in_update_mode)
        else (set_fd_t1_ts t >> cancel_all (should_cancel_update i.state i.req))

  -- A failed query leaves the default, whatever the callback wrote.
  unfoldable pub download_percent : FirmwareComponent → Handler W ℕ
  download_percent comp c =
      let (r, p, w) = ops.query_download_progress comp progress_percent_not_supported c.world in
      elim r [
        | Result.ok _ ↦ (ok p, record c { world = w })
        | Result.err _ ↦ (ok progress_percent_not_supported, record c { world = w })
      ]

  unfoldable pub status_percent : FirmwareDeviceState → FdInternal → Handler W ℕ
  unfolding download_percent get_fd_verify_progress get_fd_apply_progress
  status_percent download i = download_percent i.update_comp
  status_percent verify i = lift (percent_or_default (get_fd_verify_progress i))
  status_percent apply i = lift (percent_or_default (get_fd_apply_progress i))
  status_percent _ i = pure progress_percent_not_supported

  abbrev pub status_of : PldmMsgHeader → FdInternal → ℕ → List ℕ
  status_of hdr i percent =
      let (aux, status) = aux_of i.req.state i.req in
      get_status_response order (record {
        hdr = fw_response_header (instance_id hdr) FwUpdateCmd.get_status;
        completion_code = base_code PldmBaseCompletionCode.success;
        current_state = i.state;
        previous_state = i.prev_state;
        aux_state = aux;
        aux_state_status = status;
        progress_percent = percent;
        reason_code = reason_or_initialization i.reason;
        update_option = force_option i.update_flags;
      })

  abbrev pub answer_status : PldmMsgHeader → FdInternal → ℕ → Handler W ℕ
  answer_status hdr i percent = respond (write_to_prefix (status_of hdr i percent)) unchanged

  unfoldable pub get_status_rsp : Handler W ℕ
  unfolding status_percent
  get_status_rsp =
      with_request header_request
        λ hdr. do i ← get; status_percent i.state i >>= answer_status hdr i
