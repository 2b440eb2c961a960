-- ===== src/Protocol/Results.antt =====
-- The enums of the component responses and of the results that the device reports:
-- `pldm-common/src/protocol/firmware_update.rs` and `pldm-common/src/message/firmware_update`.
-- A variant with no discriminant of its own (`VendorDefined`) has the one after the last.
use pldm_lib.Base.{ℕ, Result, ◌&&◌, leb, ◌==◌, if◌then◌else◌}
use pldm_lib.Protocol.Error.{PldmError}

pub data ComponentResponse : Type 0 where
  comp_can_be_updated comp_cannot_be_updated : ComponentResponse

abbrev pub component_response_code : ComponentResponse → ℕ
component_response_code comp_can_be_updated = 0
component_response_code comp_cannot_be_updated = 1

pub data ComponentResponseCode : Type 0 where
  comp_can_be_updated comp_comparison_stamp_identical : ComponentResponseCode
  comp_comparison_stamp_lower invalid_comp_comparison_stamp comp_conflict : ComponentResponseCode
  comp_prerequisites_not_met comp_not_supported comp_security_restrictions : ComponentResponseCode
  incomplete_comp_image_set active_image_not_updateable_subsequently : ComponentResponseCode
  comp_ver_str_identical comp_ver_str_lower vendor_defined : ComponentResponseCode

pub ComponentResponseCode-discrete : Discrete ComponentResponseCode
ComponentResponseCode-discrete = hlevel

abbrev pub component_response_code_code : ComponentResponseCode → ℕ
component_response_code_code comp_can_be_updated = 0x00
component_response_code_code comp_comparison_stamp_identical = 0x01
component_response_code_code comp_comparison_stamp_lower = 0x02
component_response_code_code invalid_comp_comparison_stamp = 0x03
component_response_code_code comp_conflict = 0x04
component_response_code_code comp_prerequisites_not_met = 0x05
component_response_code_code comp_not_supported = 0x06
component_response_code_code comp_security_restrictions = 0x07
component_response_code_code incomplete_comp_image_set = 0x08
component_response_code_code active_image_not_updateable_subsequently = 0x09
component_response_code_code comp_ver_str_identical = 0x0a
component_response_code_code comp_ver_str_lower = 0x0b
component_response_code_code vendor_defined = 12

unfoldable pub component_response_code_try_from : ℕ → Result PldmError ComponentResponseCode
component_response_code_try_from value =
    if value == 0x00
    then Result.ok comp_can_be_updated
    else if value == 0x01
    then Result.ok comp_comparison_stamp_identical
    else if value == 0x02
    then Result.ok comp_comparison_stamp_lower
    else if value == 0x03
    then Result.ok invalid_comp_comparison_stamp
    else if value == 0x04
    then Result.ok comp_conflict
    else if value == 0x05
    then Result.ok comp_prerequisites_not_met
    else if value == 0x06
    then Result.ok comp_not_supported
    else if value == 0x07
    then Result.ok comp_security_restrictions
    else if value == 0x08
    then Result.ok incomplete_comp_image_set
    else if value == 0x09
    then Result.ok active_image_not_updateable_subsequently
    else if value == 0x0a
    then Result.ok comp_ver_str_identical
    else if value == 0x0b
    then Result.ok comp_ver_str_lower
    else if leb 0xd0 value && leb value 0xef
    then Result.ok vendor_defined
    else Result.err PldmError.invalid_component_response_code

pub data ComponentCompatibilityResponse : Type 0 where
  comp_can_be_updated comp_cannot_be_updated : ComponentCompatibilityResponse

abbrev pub compatibility_response_code : ComponentCompatibilityResponse → ℕ
compatibility_response_code comp_can_be_updated = 0
compatibility_response_code comp_cannot_be_updated = 1

unfoldable pub compatibility_response_try_from : ℕ → Result PldmError ComponentCompatibilityResponse
compatibility_response_try_from value =
    if value == 0
    then Result.ok comp_can_be_updated
    else if value == 1
    then Result.ok comp_cannot_be_updated
    else Result.err PldmError.invalid_component_compatibility_response

pub data ComponentCompatibilityResponseCode : Type 0 where
  no_response_code comp_comparison_stamp_identical comp_comparison_stamp_lower :
      ComponentCompatibilityResponseCode
  invalid_comp_comparison_stamp comp_conflict comp_prerequisites_not_met :
      ComponentCompatibilityResponseCode
  comp_not_supported comp_security_restrictions incomplete_comp_image_set :
      ComponentCompatibilityResponseCode
  comp_info_no_match comp_ver_str_identical comp_ver_str_lower vendor_defined :
      ComponentCompatibilityResponseCode

abbrev pub compatibility_response_code_code : ComponentCompatibilityResponseCode → ℕ
compatibility_response_code_code no_response_code = 0x00
compatibility_response_code_code comp_comparison_stamp_identical = 0x01
compatibility_response_code_code comp_comparison_stamp_lower = 0x02
compatibility_response_code_code invalid_comp_comparison_stamp = 0x03
compatibility_response_code_code comp_conflict = 0x04
compatibility_response_code_code comp_prerequisites_not_met = 0x05
compatibility_response_code_code comp_not_supported = 0x06
compatibility_response_code_code comp_security_restrictions = 0x07
compatibility_response_code_code incomplete_comp_image_set = 0x08
compatibility_response_code_code comp_info_no_match = 0x09
compatibility_response_code_code comp_ver_str_identical = 0x0a
compatibility_response_code_code comp_ver_str_lower = 0x0b
compatibility_response_code_code vendor_defined = 12

unfoldable pub compatibility_response_code_try_from :
    ℕ → Result PldmError ComponentCompatibilityResponseCode
compatibility_response_code_try_from value =
    if value == 0x00
    then Result.ok no_response_code
    else if value == 0x01
    then Result.ok comp_comparison_stamp_identical
    else if value == 0x02
    then Result.ok comp_comparison_stamp_lower
    else if value == 0x03
    then Result.ok invalid_comp_comparison_stamp
    else if value == 0x04
    then Result.ok comp_conflict
    else if value == 0x05
    then Result.ok comp_prerequisites_not_met
    else if value == 0x06
    then Result.ok comp_not_supported
    else if value == 0x07
    then Result.ok comp_security_restrictions
    else if value == 0x08
    then Result.ok incomplete_comp_image_set
    else if value == 0x09
    then Result.ok comp_info_no_match
    else if value == 0x0a
    then Result.ok comp_ver_str_identical
    else if value == 0x0b
    then Result.ok comp_ver_str_lower
    else if leb 0xd0 value && leb value 0xef
    then Result.ok vendor_defined
    else Result.err PldmError.invalid_component_compatibility_response_code

pub data TransferResult : Type 0 where
  transfer_success transfer_error_image_corrupt : TransferResult
  transfer_error_version_mismatch fd_aborted_transfer transfer_time_out : TransferResult
  transfer_generic_error fd_aborted_transfer_low_power_state : TransferResult
  fd_aborted_transfer_reset_needed fd_aborted_transfer_storage_issue : TransferResult
  fd_aborted_transfer_invalid_component_opaque_data : TransferResult
  fd_aborted_transfer_downstream_device_issue : TransferResult
  fd_aborted_transfer_security_revision_error vendor_defined : TransferResult

pub TransferResult-discrete : Discrete TransferResult
TransferResult-discrete = hlevel

abbrev pub transfer_result_code : TransferResult → ℕ
transfer_result_code transfer_success = 0x00
transfer_result_code transfer_error_image_corrupt = 0x01
transfer_result_code transfer_error_version_mismatch = 0x02
transfer_result_code fd_aborted_transfer = 0x03
transfer_result_code transfer_time_out = 0x09
transfer_result_code transfer_generic_error = 0x0a
transfer_result_code fd_aborted_transfer_low_power_state = 0x0b
transfer_result_code fd_aborted_transfer_reset_needed = 0x0c
transfer_result_code fd_aborted_transfer_storage_issue = 0x0d
transfer_result_code fd_aborted_transfer_invalid_component_opaque_data = 0x0e
transfer_result_code fd_aborted_transfer_downstream_device_issue = 0x0f
transfer_result_code fd_aborted_transfer_security_revision_error = 0x10
transfer_result_code vendor_defined = 17

unfoldable pub transfer_result_try_from : ℕ → Result PldmError TransferResult
transfer_result_try_from value =
    if value == 0x00
    then Result.ok transfer_success
    else if value == 0x01
    then Result.ok transfer_error_image_corrupt
    else if value == 0x02
    then Result.ok transfer_error_version_mismatch
    else if value == 0x03
    then Result.ok fd_aborted_transfer
    else if value == 0x09
    then Result.ok transfer_time_out
    else if value == 0x0a
    then Result.ok transfer_generic_error
    else if value == 0x0b
    then Result.ok fd_aborted_transfer_low_power_state
    else if value == 0x0c
    then Result.ok fd_aborted_transfer_reset_needed
    else if value == 0x0d
    then Result.ok fd_aborted_transfer_storage_issue
    else if value == 0x0e
    then Result.ok fd_aborted_transfer_invalid_component_opaque_data
    else if value == 0x0f
    then Result.ok fd_aborted_transfer_downstream_device_issue
    else if value == 0x10
    then Result.ok fd_aborted_transfer_security_revision_error
    else if leb 0x70 value && leb value 0x8f
    then Result.ok vendor_defined
    else Result.err PldmError.invalid_transfer_result

pub data VerifyResult : Type 0 where
  verify_success verify_error_verification_failure : VerifyResult
  verify_error_version_mismatch verify_failed_fd_security_checks : VerifyResult
  verify_error_image_incomplete verify_time_out verify_generic_error : VerifyResult
  vendor_defined : VerifyResult

pub VerifyResult-discrete : Discrete VerifyResult
VerifyResult-discrete = hlevel

abbrev pub verify_result_code : VerifyResult → ℕ
verify_result_code verify_success = 0x00
verify_result_code verify_error_verification_failure = 0x01
verify_result_code verify_error_version_mismatch = 0x02
verify_result_code verify_failed_fd_security_checks = 0x03
verify_result_code verify_error_image_incomplete = 0x04
verify_result_code verify_time_out = 0x09
verify_result_code verify_generic_error = 0x0a
verify_result_code vendor_defined = 11

unfoldable pub verify_result_try_from : ℕ → Result PldmError VerifyResult
verify_result_try_from value =
    if value == 0x00
    then Result.ok verify_success
    else if value == 0x01
    then Result.ok verify_error_verification_failure
    else if value == 0x02
    then Result.ok verify_error_version_mismatch
    else if value == 0x03
    then Result.ok verify_failed_fd_security_checks
    else if value == 0x04
    then Result.ok verify_error_image_incomplete
    else if value == 0x09
    then Result.ok verify_time_out
    else if value == 0x0a
    then Result.ok verify_generic_error
    else if leb 0x90 value && leb value 0xaf
    then Result.ok vendor_defined
    else Result.err PldmError.invalid_verify_result

pub data ApplyResult : Type 0 where
  apply_success apply_success_with_activation_method : ApplyResult
  apply_failure_memory_issue apply_time_out apply_generic_error vendor_defined : ApplyResult

pub ApplyResult-discrete : Discrete ApplyResult
ApplyResult-discrete = hlevel

abbrev pub apply_result_code : ApplyResult → ℕ
apply_result_code apply_success = 0x00
apply_result_code apply_success_with_activation_method = 0x01
apply_result_code apply_failure_memory_issue = 0x02
apply_result_code apply_time_out = 0x09
apply_result_code apply_generic_error = 0x0a
apply_result_code vendor_defined = 11

unfoldable pub apply_result_try_from : ℕ → Result PldmError ApplyResult
apply_result_try_from value =
    if value == 0x00
    then Result.ok apply_success
    else if value == 0x01
    then Result.ok apply_success_with_activation_method
    else if value == 0x02
    then Result.ok apply_failure_memory_issue
    else if value == 0x09
    then Result.ok apply_time_out
    else if value == 0x0a
    then Result.ok apply_generic_error
    else if leb 0xb0 value && leb value 0xcf
    then Result.ok vendor_defined
    else Result.err PldmError.invalid_apply_result

pub data AuxState : Type 0 where
  operation_in_progress operation_successful operation_failed : AuxState
  idle_learn_components_read_xfer : AuxState

abbrev pub aux_state_code : AuxState → ℕ
aux_state_code operation_in_progress = 0
aux_state_code operation_successful = 1
aux_state_code operation_failed = 2
aux_state_code idle_learn_components_read_xfer = 3

pub data AuxStateStatus : Type 0 where
  aux_state_in_progress_or_success reserved timeout generic_error : AuxStateStatus
  vendor_defined : AuxStateStatus

abbrev pub aux_state_status_code : AuxStateStatus → ℕ
aux_state_status_code aux_state_in_progress_or_success = 0x00
aux_state_status_code reserved = 1
aux_state_status_code timeout = 0x09
aux_state_status_code generic_error = 0x0a
aux_state_status_code vendor_defined = 11

unfoldable pub aux_state_status_try_from : ℕ → Result PldmError AuxStateStatus
aux_state_status_try_from value =
    if value == 0x00
    then Result.ok aux_state_in_progress_or_success
    else if leb 0x01 value && leb value 0x08
    then Result.ok reserved
    else if value == 0x09
    then Result.ok timeout
    else if value == 0x0a
    then Result.ok generic_error
    else if leb 0x70 value && leb value 0xef
    then Result.ok vendor_defined
    else Result.err PldmError.invalid_aux_state_status

pub data GetStatusReasonCode : Type 0 where
  initialization activate_fw cancel_update learn_component_timeout : GetStatusReasonCode
  ready_xfer_timeout download_timeout verify_timeout apply_timeout : GetStatusReasonCode
  vendor_defined : GetStatusReasonCode

abbrev pub reason_code_code : GetStatusReasonCode → ℕ
reason_code_code initialization = 0
reason_code_code activate_fw = 1
reason_code_code cancel_update = 2
reason_code_code learn_component_timeout = 3
reason_code_code ready_xfer_timeout = 4
reason_code_code download_timeout = 5
reason_code_code verify_timeout = 6
reason_code_code apply_timeout = 7
reason_code_code vendor_defined = 8

unfoldable pub reason_code_try_from : ℕ → Result PldmError GetStatusReasonCode
reason_code_try_from value =
    if value == 0
    then Result.ok initialization
    else if value == 1
    then Result.ok activate_fw
    else if value == 2
    then Result.ok cancel_update
    else if value == 3
    then Result.ok learn_component_timeout
    else if value == 4
    then Result.ok ready_xfer_timeout
    else if value == 5
    then Result.ok download_timeout
    else if value == 6
    then Result.ok verify_timeout
    else if value == 7
    then Result.ok apply_timeout
    else if leb 200 value && leb value 255
    then Result.ok vendor_defined
    else Result.err PldmError.invalid_get_status_reason_code

pub data NonFunctioningComponentIndication : Type 0 where
  components_functioning components_not_functioning : NonFunctioningComponentIndication

abbrev pub indication_code : NonFunctioningComponentIndication → ℕ
indication_code components_functioning = 0
indication_code components_not_functioning = 1

unfoldable pub indication_try_from : ℕ → Result PldmError NonFunctioningComponentIndication
indication_try_from value =
    if value == 0
    then Result.ok components_functioning
    else if value == 1
    then Result.ok components_not_functioning
    else Result.err PldmError.invalid_data
