-- ===== src/Protocol/Error.antt =====
-- The error enums of `pldm-common/src/error.rs`, `pldm-common/src/codec.rs` and
-- `pldm-interface/src/error.rs`, and `FdOpsError` of `firmware_device/fd_ops.rs`.

pub data PldmError : Type 0 where
  invalid_data invalid_length invalid_msg_type invalid_protocol_version : PldmError
  unsupported_cmd unsupported_pldm_type invalid_completion_code : PldmError
  invalid_transfer_op_flag invalid_transfer_resp_flag : PldmError
  invalid_version_string_type invalid_version_string_length invalid_fd_state : PldmError
  invalid_descriptor_type invalid_descriptor_length invalid_descriptor_count : PldmError
  invalid_component_classification invalid_component_response_code : PldmError
  invalid_component_compatibility_response : PldmError
  invalid_component_compatibility_response_code : PldmError
  invalid_transfer_result invalid_verify_result invalid_apply_result : PldmError
  invalid_get_status_reason_code invalid_aux_state_status : PldmError

pub data PldmCodecError : Type 0 where
  buffer_too_short unsupported invalid_data : PldmCodecError

pub data UtilError : Type 0 where
  invalid_mctp_payload_length invalid_mctp_msg_type : UtilError

pub data FdOpsError : Type 0 where
  device_identifiers_error firmware_parameters_error transfer_size_error : FdOpsError
  component_error fw_download_error verify_error apply_error activate_error : FdOpsError
  cancel_update_error security_revision_error : FdOpsError

pub data MsgHandlerError : Type 0 where
  codec : PldmCodecError → MsgHandlerError
  pldm_common : PldmError → MsgHandlerError
  util : UtilError → MsgHandlerError
  fd_ops : FdOpsError → MsgHandlerError
  fd_initiator_mode_error not_ready t1_timeout : MsgHandlerError
