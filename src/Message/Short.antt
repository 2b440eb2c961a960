-- ===== src/Message/Short.antt =====
-- The fixed messages of `pldm-common/src/message/firmware_update` that are `repr(C, packed)`
-- structs with `zerocopy`'s own codec, and `PldmFailureResponse` of `protocol/base.rs`.
use pldm_lib.Base.{ℕ, List, [], ◌∷◌, ◌++◌}
use pldm_lib.Protocol.Base.{
  request, response, PldmBaseCompletionCode, base_completion_code, fw_update,
}
use pldm_lib.Protocol.Update.{
  FwUpdateCmd, fw_update_cmd_code, FwUpdateCompletionCode, fw_completion_code, FirmwareDeviceState,
  fd_state_code,
}
use pldm_lib.Protocol.Results.{
  TransferResult, transfer_result_code, VerifyResult, verify_result_code, ApplyResult,
  apply_result_code, ComponentResponse, component_response_code, ComponentResponseCode,
  component_response_code_code, AuxState, aux_state_code, GetStatusReasonCode, reason_code_code,
  NonFunctioningComponentIndication, indication_code,
}
use pldm_lib.Protocol.Header.{PldmMsgHeader, header_bytes, new_header}
use pldm_lib.Codec.{Reader, ◌>>=◌, pure, byte, header, int}
use pldm_lib.Codec.Order.{ByteOrder}

-- `PldmMsgHeader::new` for a response and for a request of the firmware update type.
unfoldable pub fw_response_header : ℕ → FwUpdateCmd → PldmMsgHeader
fw_response_header id cmd = new_header id response fw_update (fw_update_cmd_code cmd)

unfoldable pub fw_request_header : ℕ → FwUpdateCmd → PldmMsgHeader
fw_request_header id cmd = new_header id request fw_update (fw_update_cmd_code cmd)

pub record PldmFailureResponse : Type 0 where
  pub hdr : PldmMsgHeader
  pub completion_code : ℕ

-- A response that is a header and a completion code: `PldmFailureResponse`,
-- `CancelUpdateComponentResponse`, `UpdateSecurityRevisionResponse`.
unfoldable pub failure_bytes : PldmFailureResponse → List ℕ
failure_bytes r = header_bytes r.hdr ++ r.completion_code ∷ []

-- A request that is a header alone: `GetStatusRequest`, `CancelUpdateRequest`,
-- `CancelUpdateComponentRequest`, `QueryDeviceIdentifiersRequest`, `GetFirmwareParametersRequest`.
unfoldable pub header_request : Reader PldmMsgHeader
header_request = header

pub record ActivateFirmwareRequest : Type 0 where
  pub hdr : PldmMsgHeader
  pub self_contained_activation_req : ℕ

unfoldable pub activate_firmware_request : Reader ActivateFirmwareRequest
activate_firmware_request = do
  hdr ← header
  self_contained ← byte
  pure (record { hdr = hdr; self_contained_activation_req = self_contained })

-- `RequestFirmwareDataResponseFixed`
pub record FwDataResponseFixed : Type 0 where
  pub hdr : PldmMsgHeader
  pub completion_code : ℕ

unfoldable pub fw_data_response_fixed : Reader FwDataResponseFixed
fw_data_response_fixed = do
  hdr ← header
  completion ← byte
  pure (record { hdr = hdr; completion_code = completion })

abbrev pub fw_data_response_fixed_size : ℕ
fw_data_response_fixed_size = 4

-- `PendingComponent` and `SecurityRevisionComponent`
pub record ComponentKey : Type 0 where
  pub classification : ℕ
  pub identifier : ℕ
  pub classification_index : ℕ

-- `ActivatePendingComponentImageRequest` and `UpdateSecurityRevisionRequest`
pub record ComponentKeyRequest : Type 0 where
  pub hdr : PldmMsgHeader
  pub comp_classification : ℕ
  pub comp_identifier : ℕ
  pub comp_classification_index : ℕ

pub data PendingComponentResult : Type 0 where
  activated : ℕ → PendingComponentResult
  activation_not_required not_permitted : PendingComponentResult

pub data SecurityRevisionResult : Type 0 where
  updated not_permitted : SecurityRevisionResult

unfoldable pub security_revision_code : SecurityRevisionResult → ℕ
security_revision_code updated = base_completion_code PldmBaseCompletionCode.success
security_revision_code not_permitted =
    fw_completion_code FwUpdateCompletionCode.update_security_revision_not_permitted

pub data UpdateOptionResp : Type 0 where
  no_force_update force_update : UpdateOptionResp

pub record GetStatusResponse : Type 0 where
  pub hdr : PldmMsgHeader
  pub completion_code : ℕ
  pub current_state : FirmwareDeviceState
  pub previous_state : FirmwareDeviceState
  pub aux_state : AuxState
  pub aux_state_status : ℕ
  pub progress_percent : ℕ
  pub reason_code : GetStatusReasonCode
  pub update_option : UpdateOptionResp

-- `flags.set_request_force_update(update_option == ForceUpdate)` on flags of 0
abbrev pub option_flags : UpdateOptionResp → ℕ
option_flags no_force_update = 0
option_flags force_update = 1

module _ (bo : ByteOrder) where
  open bo use {write_int}

  unfoldable pub component_key_request : Reader ComponentKeyRequest
  component_key_request = do
    hdr ← header
    classification ← int bo 2
    identifier ← int bo 2
    index ← byte
    pure (record {
      hdr = hdr;
      comp_classification = classification;
      comp_identifier = identifier;
      comp_classification_index = index;
    })

  -- `ActivateFirmwareResponse` and `ActivatePendingComponentImageResponse`
  unfoldable pub activation_response : FwUpdateCmd → ℕ → ℕ → ℕ → List ℕ
  activation_response cmd id completion estimated_time =
      header_bytes (fw_response_header id cmd) ++ completion ∷ write_int 2 estimated_time

  -- `PendingComponentResult::into_response`
  unfoldable pub pending_response : PendingComponentResult → ℕ → List ℕ
  unfolding activation_response
  pending_response (activated t) id =
      activation_response FwUpdateCmd.activate_pending_component_image id
        (base_completion_code PldmBaseCompletionCode.success) t
  pending_response activation_not_required id =
      activation_response FwUpdateCmd.activate_pending_component_image id
        (fw_completion_code FwUpdateCompletionCode.activation_not_required) 0
  pending_response not_permitted id =
      activation_response FwUpdateCmd.activate_pending_component_image id
        (fw_completion_code FwUpdateCompletionCode.activate_pending_image_not_permitted) 0

  -- `CancelUpdateResponse`
  unfoldable pub cancel_update_response : ℕ → ℕ → NonFunctioningComponentIndication → ℕ → List ℕ
  cancel_update_response id completion indication bitmap =
      header_bytes (fw_response_header id FwUpdateCmd.cancel_update)
      ++ completion ∷ indication_code indication ∷ write_int 8 bitmap

  -- `RequestFirmwareDataRequest`
  unfoldable pub request_fw_data_request : ℕ → ℕ → ℕ → List ℕ
  request_fw_data_request id offset length =
      header_bytes (fw_request_header id FwUpdateCmd.request_firmware_data)
      ++ (write_int 4 offset ++ write_int 4 length)

  -- `ApplyCompleteRequest`
  unfoldable pub apply_complete_request : ℕ → ApplyResult → ℕ → List ℕ
  apply_complete_request id result methods =
      header_bytes (fw_request_header id FwUpdateCmd.apply_complete)
      ++ apply_result_code result ∷ write_int 2 methods

  unfoldable pub get_status_response : GetStatusResponse → List ℕ
  get_status_response r =
      header_bytes r.hdr
      ++ r.completion_code
        ∷ fd_state_code r.current_state
        ∷ fd_state_code r.previous_state
        ∷ aux_state_code r.aux_state
        ∷ r.aux_state_status
        ∷ r.progress_percent
        ∷ reason_code_code r.reason_code
        ∷ write_int 4 (option_flags r.update_option)

-- `TransferCompleteRequest` and `VerifyCompleteRequest`
unfoldable pub transfer_complete_request : ℕ → TransferResult → List ℕ
transfer_complete_request id result =
    header_bytes (fw_request_header id FwUpdateCmd.transfer_complete)
    ++ transfer_result_code result ∷ []

unfoldable pub verify_complete_request : ℕ → VerifyResult → List ℕ
verify_complete_request id result =
    header_bytes (fw_request_header id FwUpdateCmd.verify_complete)
    ++ verify_result_code result ∷ []

-- `PassComponentTableResponse`
unfoldable pub pass_component_response : ℕ → ℕ → ComponentResponse → ComponentResponseCode → List ℕ
pass_component_response id completion resp code =
    header_bytes (fw_response_header id FwUpdateCmd.pass_component_table)
    ++ completion ∷ component_response_code resp ∷ component_response_code_code code ∷ []
