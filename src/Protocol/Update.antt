-- ===== src/Protocol/Update.antt =====
-- The command and state enums of `pldm-common/src/protocol/firmware_update.rs`.
use pldm_lib.Base.{ℕ, Result, ◌==◌, if◌then◌else◌}
use pldm_lib.Protocol.Error.{PldmError}

abbrev pub baseline_transfer_size : ℕ
baseline_transfer_size = 32

abbrev pub max_padding_size : ℕ
max_padding_size = baseline_transfer_size

abbrev pub max_ver_str_len : ℕ
max_ver_str_len = 32

abbrev pub descriptor_data_max_len : ℕ
descriptor_data_max_len = 64

abbrev pub max_component_count : ℕ
max_component_count = 8

abbrev pub max_descriptors_count : ℕ
max_descriptors_count = 4

pub data FwUpdateCmd : Type 0 where
  query_device_identifiers get_firmware_parameters query_downstream_devices : FwUpdateCmd
  query_downstream_identifiers get_downstream_firmware_parameters : FwUpdateCmd
  request_update get_package_data get_device_meta_data pass_component_table : FwUpdateCmd
  update_component request_firmware_data transfer_complete verify_complete : FwUpdateCmd
  apply_complete get_meta_data activate_firmware get_status : FwUpdateCmd
  cancel_update_component cancel_update activate_pending_component_image : FwUpdateCmd
  request_downstream_device_update update_security_revision : FwUpdateCmd

abbrev pub fw_update_cmd_code : FwUpdateCmd → ℕ
fw_update_cmd_code query_device_identifiers = 0x01
fw_update_cmd_code get_firmware_parameters = 0x02
fw_update_cmd_code query_downstream_devices = 0x03
fw_update_cmd_code query_downstream_identifiers = 0x04
fw_update_cmd_code get_downstream_firmware_parameters = 0x05
fw_update_cmd_code request_update = 0x10
fw_update_cmd_code get_package_data = 0x11
fw_update_cmd_code get_device_meta_data = 0x12
fw_update_cmd_code pass_component_table = 0x13
fw_update_cmd_code update_component = 0x14
fw_update_cmd_code request_firmware_data = 0x15
fw_update_cmd_code transfer_complete = 0x16
fw_update_cmd_code verify_complete = 0x17
fw_update_cmd_code apply_complete = 0x18
fw_update_cmd_code get_meta_data = 0x19
fw_update_cmd_code activate_firmware = 0x1a
fw_update_cmd_code get_status = 0x1b
fw_update_cmd_code cancel_update_component = 0x1c
fw_update_cmd_code cancel_update = 0x1d
fw_update_cmd_code activate_pending_component_image = 0x1f
fw_update_cmd_code request_downstream_device_update = 0x20
fw_update_cmd_code update_security_revision = 0x22

unfoldable pub fw_update_cmd_try_from : ℕ → Result PldmError FwUpdateCmd
fw_update_cmd_try_from value =
    if value == 0x01
    then Result.ok query_device_identifiers
    else if value == 0x02
    then Result.ok get_firmware_parameters
    else if value == 0x03
    then Result.ok query_downstream_devices
    else if value == 0x04
    then Result.ok query_downstream_identifiers
    else if value == 0x05
    then Result.ok get_downstream_firmware_parameters
    else if value == 0x10
    then Result.ok request_update
    else if value == 0x11
    then Result.ok get_package_data
    else if value == 0x12
    then Result.ok get_device_meta_data
    else if value == 0x13
    then Result.ok pass_component_table
    else if value == 0x14
    then Result.ok update_component
    else if value == 0x15
    then Result.ok request_firmware_data
    else if value == 0x16
    then Result.ok transfer_complete
    else if value == 0x17
    then Result.ok verify_complete
    else if value == 0x18
    then Result.ok apply_complete
    else if value == 0x19
    then Result.ok get_meta_data
    else if value == 0x1a
    then Result.ok activate_firmware
    else if value == 0x1b
    then Result.ok get_status
    else if value == 0x1c
    then Result.ok cancel_update_component
    else if value == 0x1d
    then Result.ok cancel_update
    else if value == 0x1f
    then Result.ok activate_pending_component_image
    else if value == 0x20
    then Result.ok request_downstream_device_update
    else if value == 0x22
    then Result.ok update_security_revision
    else Result.err PldmError.unsupported_cmd

pub data FwUpdateCompletionCode : Type 0 where
  not_in_update_mode already_in_update_mode data_out_of_range : FwUpdateCompletionCode
  invalid_transfer_length invalid_state_for_command incomplete_update : FwUpdateCompletionCode
  busy_in_background cancel_pending command_not_expected retry_request_fw_data :
      FwUpdateCompletionCode
  unable_to_initiate_update activation_not_required : FwUpdateCompletionCode
  self_contained_activation_not_permitted no_device_metadata : FwUpdateCompletionCode
  retry_request_update no_package_data invalid_transfer_handle : FwUpdateCompletionCode
  invalid_transfer_operation_flag activate_pending_image_not_permitted : FwUpdateCompletionCode
  package_data_error no_opaque_data update_security_revision_not_permitted : FwUpdateCompletionCode
  downstream_device_list_changed : FwUpdateCompletionCode

abbrev pub fw_completion_code : FwUpdateCompletionCode → ℕ
fw_completion_code not_in_update_mode = 0x80
fw_completion_code already_in_update_mode = 0x81
fw_completion_code data_out_of_range = 0x82
fw_completion_code invalid_transfer_length = 0x83
fw_completion_code invalid_state_for_command = 0x84
fw_completion_code incomplete_update = 0x85
fw_completion_code busy_in_background = 0x86
fw_completion_code cancel_pending = 0x87
fw_completion_code command_not_expected = 0x88
fw_completion_code retry_request_fw_data = 0x89
fw_completion_code unable_to_initiate_update = 0x8a
fw_completion_code activation_not_required = 0x8b
fw_completion_code self_contained_activation_not_permitted = 0x8c
fw_completion_code no_device_metadata = 0x8d
fw_completion_code retry_request_update = 0x8e
fw_completion_code no_package_data = 0x8f
fw_completion_code invalid_transfer_handle = 0x90
fw_completion_code invalid_transfer_operation_flag = 0x91
fw_completion_code activate_pending_image_not_permitted = 0x92
fw_completion_code package_data_error = 0x93
fw_completion_code no_opaque_data = 0x94
fw_completion_code update_security_revision_not_permitted = 0x95
fw_completion_code downstream_device_list_changed = 0x96

unfoldable pub fw_completion_try_from : ℕ → Result PldmError FwUpdateCompletionCode
fw_completion_try_from value =
    if value == 0x80
    then Result.ok not_in_update_mode
    else if value == 0x81
    then Result.ok already_in_update_mode
    else if value == 0x82
    then Result.ok data_out_of_range
    else if value == 0x83
    then Result.ok invalid_transfer_length
    else if value == 0x84
    then Result.ok invalid_state_for_command
    else if value == 0x85
    then Result.ok incomplete_update
    else if value == 0x86
    then Result.ok busy_in_background
    else if value == 0x87
    then Result.ok cancel_pending
    else if value == 0x88
    then Result.ok command_not_expected
    else if value == 0x89
    then Result.ok retry_request_fw_data
    else if value == 0x8a
    then Result.ok unable_to_initiate_update
    else if value == 0x8b
    then Result.ok activation_not_required
    else if value == 0x8c
    then Result.ok self_contained_activation_not_permitted
    else if value == 0x8d
    then Result.ok no_device_metadata
    else if value == 0x8e
    then Result.ok retry_request_update
    else if value == 0x8f
    then Result.ok no_package_data
    else if value == 0x90
    then Result.ok invalid_transfer_handle
    else if value == 0x91
    then Result.ok invalid_transfer_operation_flag
    else if value == 0x92
    then Result.ok activate_pending_image_not_permitted
    else if value == 0x93
    then Result.ok package_data_error
    else Result.err PldmError.invalid_completion_code

pub data FirmwareDeviceState : Type 0 where
  idle learn_components ready_xfer download verify apply activate : FirmwareDeviceState

pub FirmwareDeviceState-discrete : Discrete FirmwareDeviceState
FirmwareDeviceState-discrete = hlevel

abbrev pub fd_state_code : FirmwareDeviceState → ℕ
fd_state_code idle = 0
fd_state_code learn_components = 1
fd_state_code ready_xfer = 2
fd_state_code download = 3
fd_state_code verify = 4
fd_state_code apply = 5
fd_state_code activate = 6

unfoldable pub fd_state_try_from : ℕ → Result PldmError FirmwareDeviceState
fd_state_try_from value =
    if value == 0
    then Result.ok idle
    else if value == 1
    then Result.ok learn_components
    else if value == 2
    then Result.ok ready_xfer
    else if value == 3
    then Result.ok download
    else if value == 4
    then Result.ok verify
    else if value == 5
    then Result.ok apply
    else if value == 6
    then Result.ok activate
    else Result.err PldmError.invalid_fd_state
