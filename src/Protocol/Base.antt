-- ===== src/Protocol/Base.antt =====
-- The enums of `pldm-common/src/protocol/base.rs`: discriminants (`as u8`) and `TryFrom<u8>`.
use pldm_lib.Base.{ℕ, Result, ◌==◌, if◌then◌else◌}
use pldm_lib.Protocol.Error.{PldmError}

abbrev pub pldm_msg_header_len : ℕ
pldm_msg_header_len = 3

pub data PldmSupportedType : Type 0 where
  base platform bios fru fw_update oem : PldmSupportedType

pub PldmSupportedType-discrete : Discrete PldmSupportedType
PldmSupportedType-discrete = hlevel

abbrev pub supported_type_code : PldmSupportedType → ℕ
supported_type_code base = 0x00
supported_type_code platform = 0x02
supported_type_code bios = 0x03
supported_type_code fru = 0x04
supported_type_code fw_update = 0x05
supported_type_code oem = 0x3f

unfoldable pub supported_type_try_from : ℕ → Result PldmError PldmSupportedType
supported_type_try_from value =
    if value == 0x00
    then Result.ok base
    else if value == 0x02
    then Result.ok platform
    else if value == 0x03
    then Result.ok bios
    else if value == 0x04
    then Result.ok fru
    else if value == 0x05
    then Result.ok fw_update
    else if value == 0x3f
    then Result.ok oem
    else Result.err PldmError.unsupported_pldm_type

pub data PldmControlCmd : Type 0 where
  set_tid get_tid get_pldm_version get_pldm_types get_pldm_commands : PldmControlCmd

abbrev pub control_cmd_code : PldmControlCmd → ℕ
control_cmd_code set_tid = 0x1
control_cmd_code get_tid = 0x2
control_cmd_code get_pldm_version = 0x3
control_cmd_code get_pldm_types = 0x4
control_cmd_code get_pldm_commands = 0x5

unfoldable pub control_cmd_try_from : ℕ → Result PldmError PldmControlCmd
control_cmd_try_from value =
    if value == 0x1
    then Result.ok set_tid
    else if value == 0x2
    then Result.ok get_tid
    else if value == 0x3
    then Result.ok get_pldm_version
    else if value == 0x4
    then Result.ok get_pldm_types
    else if value == 0x5
    then Result.ok get_pldm_commands
    else Result.err PldmError.unsupported_cmd

pub data PldmMsgType : Type 0 where
  response reserved request async_request_notify : PldmMsgType

abbrev pub msg_type_code : PldmMsgType → ℕ
msg_type_code response = 0x00
msg_type_code reserved = 0x01
msg_type_code request = 0x02
msg_type_code async_request_notify = 0x03

unfoldable pub msg_type_try_from : ℕ → Result PldmError PldmMsgType
msg_type_try_from value =
    if value == 0x00
    then Result.ok response
    else if value == 0x01
    then Result.ok reserved
    else if value == 0x02
    then Result.ok request
    else if value == 0x03
    then Result.ok async_request_notify
    else Result.err PldmError.invalid_msg_type

pub data PldmBaseCompletionCode : Type 0 where
  success error invalid_data invalid_length not_ready unsupported_pldm_cmd : PldmBaseCompletionCode
  invalid_pldm_type : PldmBaseCompletionCode

abbrev pub base_completion_code : PldmBaseCompletionCode → ℕ
base_completion_code success = 0x00
base_completion_code error = 0x01
base_completion_code invalid_data = 0x02
base_completion_code invalid_length = 0x03
base_completion_code not_ready = 0x04
base_completion_code unsupported_pldm_cmd = 0x05
base_completion_code invalid_pldm_type = 0x20

unfoldable pub base_completion_try_from : ℕ → Result PldmError PldmBaseCompletionCode
base_completion_try_from value =
    if value == 0x00
    then Result.ok success
    else if value == 0x01
    then Result.ok error
    else if value == 0x02
    then Result.ok invalid_data
    else if value == 0x03
    then Result.ok invalid_length
    else if value == 0x04
    then Result.ok not_ready
    else if value == 0x05
    then Result.ok unsupported_pldm_cmd
    else if value == 0x20
    then Result.ok invalid_pldm_type
    else Result.err PldmError.invalid_completion_code

pub data PldmControlCompletionCode : Type 0 where
  invalid_data_transfer_handle invalid_transfer_operation_flag : PldmControlCompletionCode
  invalid_pldm_type_in_request_data invalid_pldm_version_in_request_data : PldmControlCompletionCode

abbrev pub control_completion_code : PldmControlCompletionCode → ℕ
control_completion_code invalid_data_transfer_handle = 0x80
control_completion_code invalid_transfer_operation_flag = 0x81
control_completion_code invalid_pldm_type_in_request_data = 0x83
control_completion_code invalid_pldm_version_in_request_data = 0x84

unfoldable pub control_completion_try_from : ℕ → Result PldmError PldmControlCompletionCode
control_completion_try_from value =
    if value == 0x80
    then Result.ok invalid_data_transfer_handle
    else if value == 0x81
    then Result.ok invalid_transfer_operation_flag
    else if value == 0x83
    then Result.ok invalid_pldm_type_in_request_data
    else if value == 0x84
    then Result.ok invalid_pldm_version_in_request_data
    else Result.err PldmError.invalid_completion_code

pub data TransferOperationFlag : Type 0 where
  get_next_part get_first_part : TransferOperationFlag

abbrev pub transfer_operation_code : TransferOperationFlag → ℕ
transfer_operation_code get_next_part = 0
transfer_operation_code get_first_part = 1

unfoldable pub transfer_operation_try_from : ℕ → Result PldmError TransferOperationFlag
transfer_operation_try_from value =
    if value == 0
    then Result.ok get_next_part
    else if value == 1
    then Result.ok get_first_part
    else Result.err PldmError.invalid_transfer_op_flag

pub data TransferRespFlag : Type 0 where
  start middle end start_and_end : TransferRespFlag

pub TransferRespFlag-discrete : Discrete TransferRespFlag
TransferRespFlag-discrete = hlevel

abbrev pub transfer_resp_code : TransferRespFlag → ℕ
transfer_resp_code start = 0x01
transfer_resp_code middle = 0x02
transfer_resp_code end = 0x04
transfer_resp_code start_and_end = 0x05

unfoldable pub transfer_resp_try_from : ℕ → Result PldmError TransferRespFlag
transfer_resp_try_from value =
    if value == 0x01
    then Result.ok start
    else if value == 0x02
    then Result.ok middle
    else if value == 0x04
    then Result.ok end
    else if value == 0x05
    then Result.ok start_and_end
    else Result.err PldmError.invalid_transfer_resp_flag
