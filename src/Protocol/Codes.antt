-- ===== src/Protocol/Codes.antt =====
-- The discriminants of the enums of `pldm-common/src/protocol` and their `TryFrom<u8>`.
use pldm_lib.Protocol.Error.{PldmError}
use pldm_lib.Base.{ℕ, ◌≢◌, ◌<◌, ◌≤◌, ◌≡◌, Result, arith}
use pldm_lib.Protocol.Update.{
  FwUpdateCmd, fw_update_cmd_code, fw_update_cmd_try_from, FirmwareDeviceState, fd_state_code,
  fd_state_try_from, FwUpdateCompletionCode, fw_completion_code, fw_completion_try_from,
}
use pldm_lib.Protocol.Results.{VerifyResult, verify_result_code, verify_result_try_from}

-- Every command of the update type is read back from its code.
fw_update_cmd-round :
    (c : FwUpdateCmd) → fw_update_cmd_try_from (fw_update_cmd_code c) ≡ Result.ok c
unfolding fw_update_cmd_try_from
fw_update_cmd-round c = ground arith

-- A byte that is read as a command of the update type is that command's code.
pub fw_update_cmd-inverse :
    (n : ℕ) (c : FwUpdateCmd) → fw_update_cmd_try_from n ≡ Result.ok c → fw_update_cmd_code c ≡ n
unfolding fw_update_cmd_try_from
fw_update_cmd-inverse n c h = ground arith

-- Every state of the device is read back from its code.
pub fd_state-round : (s : FirmwareDeviceState) → fd_state_try_from (fd_state_code s) ≡ Result.ok s
unfolding fd_state_try_from
fd_state-round s = ground arith

-- Every verify result but the vendor-defined one is read back from its code.
verify_result-round :
    (r : VerifyResult)
    → r ≢ VerifyResult.vendor_defined
    → verify_result_try_from (verify_result_code r) ≡ Result.ok r
unfolding verify_result_try_from
verify_result-round r h = ground arith

-- A completion code of the update type below 0x94 is read back from its code.
fw_completion-round :
    (c : FwUpdateCompletionCode)
    → fw_completion_code c < 0x94
    → fw_completion_try_from (fw_completion_code c) ≡ Result.ok c
unfolding fw_completion_try_from
fw_completion-round c h = ground arith

-- A completion code of the update type from 0x94 on, which the enum has, is refused by its
-- `TryFrom`.
pub fw_completion-lost :
    (c : FwUpdateCompletionCode)
    → 0x94 ≤ fw_completion_code c
    → fw_completion_try_from (fw_completion_code c) ≡ Result.err PldmError.invalid_completion_code
unfolding fw_completion_try_from
fw_completion-lost c h = ground arith
