-- ===== src/Tests/Messages.antt =====
-- Codes, headers, refusals and the control commands, on concrete bytes.
use pldm_lib.Base.{◌≡◌, refl, true, [], ◌∷◌, Result, ok, arith}
use pldm_lib.Protocol.Base.{fw_update, PldmMsgType}
use pldm_lib.Protocol.Update.{FwUpdateCmd, FwUpdateCompletionCode}
use pldm_lib.Protocol.Update.{fw_update_cmd_try_from}
use pldm_lib.Fd.Handler.{refuse}
use pldm_lib.Cmd.Refusals.{refuse-bytes}
use pldm_lib.Protocol.Header.{new_header}
use pldm_lib.Protocol.Error.{PldmError}
use pldm_lib.Protocol.Base.{supported_type_code}
use pldm_lib.Protocol.Update.{fw_completion_code, fw_completion_try_from}
use pldm_lib.Protocol.Header.{IsHeader}
use pldm_lib.Protocol.Header.Laws.{Reads, new_header-Reads}
use pldm_lib.Protocol.Codes.{fw_completion-lost}
use pldm_lib.Mctp.{extract_pldm_msg, construct_mctp_pldm_msg}
use pldm_lib.Mctp.Laws.{extract-construct}
use pldm_lib.Control.{is_supported_version}
use pldm_lib.Control.Responder.{set_tid_rsp, get_tid_rsp}
use pldm_lib.Control.Types.{get_tid_answer, get_tid-set_tid}
use pldm_lib.Tests.{controls, at, fd_idle, activate_bytes, stray}

refuse-bytes_example :
    refuse 0x84 (at 1 fd_idle activate_bytes)
    ≡ (ok 4, at 1 fd_idle (0 ∷ 0x05 ∷ 0x1a ∷ 0x84 ∷ 0 ∷ 0 ∷ []))
refuse-bytes_example =
    refuse-bytes 0x84 0x80 0x05 0x1a 1 (0 ∷ 0 ∷ []) (at 1 fd_idle activate_bytes) refl

zeros-constructed : construct_mctp_pldm_msg (9 ∷ 0 ∷ 0 ∷ 0 ∷ []) ≡ Result.ok (1, 0 ∷ 0 ∷ 0 ∷ [])
unfolding construct_mctp_pldm_msg
zeros-constructed = refl

extract-construct_example : extract_pldm_msg (1 ∷ 5 ∷ 6 ∷ 7 ∷ []) ≡ Result.ok (5 ∷ 6 ∷ 7 ∷ [])
extract-construct_example =
    extract-construct (9 ∷ 0 ∷ 0 ∷ 0 ∷ []) (0 ∷ 0 ∷ 0 ∷ []) (5 ∷ 6 ∷ 7 ∷ []) 1 zeros-constructed
      refl

get_tid-set_tid_example :
    let (r, ctx', payload) = set_tid_rsp controls (0x81 ∷ 0 ∷ 1 ∷ 42 ∷ []) in
    (r ≡ ok 4)
    × (get_tid_rsp ctx' (0x82 ∷ 0 ∷ 2 ∷ 0 ∷ 0 ∷ []) ≡ (ok 5, ctx', get_tid_answer 0x82 42 []))
get_tid-set_tid_example = get_tid-set_tid controls 0x81 0 1 42 0x82 0 2 0 0 [] []

version-supported : is_supported_version fw_update 0xf1f1f000 controls ≡ true
unfolding is_supported_version
version-supported = refl

get_status-read : fw_update_cmd_try_from 0x1b ≡ Result.ok FwUpdateCmd.get_status
unfolding fw_update_cmd_try_from
get_status-read = refl

fw_completion-lost_example :
    fw_completion_try_from (fw_completion_code FwUpdateCompletionCode.no_opaque_data)
    ≡ Result.err PldmError.invalid_completion_code
fw_completion-lost_example = fw_completion-lost FwUpdateCompletionCode.no_opaque_data (omega arith)

new_header-Reads_example :
    Reads
      (new_header 3 PldmMsgType.request fw_update 0x1b)
      3
      (supported_type_code fw_update)
      0x1b
      PldmMsgType.request
new_header-Reads_example =
    new_header-Reads 3 PldmMsgType.request fw_update 0x1b (omega arith) (omega arith)

stray-IsHeader : IsHeader stray
stray-IsHeader = ground arith
