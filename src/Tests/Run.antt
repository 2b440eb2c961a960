-- ===== src/Tests/Run.antt =====
-- A whole update through the interface, and its dispatch.
use pldm_lib.Base.{◌≡◌, refl, true, false, [], ◌∷◌, Result, ok, arith}
use pldm_lib.Protocol.Base.{fw_update}
use pldm_lib.Protocol.Update.{verify, apply, FwUpdateCmd}
use pldm_lib.Fd.Internal.{default_fd_internal}
use pldm_lib.Cmd.Run.{request, run, visits, apply-needs-verify}
use pldm_lib.Protocol.Update.{fw_update_cmd_try_from}
use pldm_lib.Protocol.Header.{instance_id, cmd_code}
use pldm_lib.Codec.{decode, header}
use pldm_lib.Fd.Handler.{refuse, generate_failure_response}
use pldm_lib.Fd.Responder.{request_update_rsp, pass_component_rsp, update_component_rsp}
use pldm_lib.Fd.Initiator.{fd_progress}
use pldm_lib.Fd.Reply.{handle_response}
use pldm_lib.Fd.Flow.{◌⟶◌}
use pldm_lib.Cmd.{fw_update_handler}
use pldm_lib.Cmd.Run.{step, step-Edge}
use pldm_lib.Cmd.Refusals.{fw_update_handler-refuse}
use pldm_lib.Fd.Internal.{get_fd_download_chunk}
use pldm_lib.Cmd.{process_initiator_response, generate_initiator_request, process_request}
use pldm_lib.Protocol.Base.{supported_type_try_from, transfer_resp_try_from}
use pldm_lib.Protocol.Results.{compatibility_response_code_try_from, transfer_result_try_from}
use pldm_lib.Protocol.Header.{header_bytes, new_header}
use pldm_lib.Message.Update.{
  request_update_request, pass_component_request, update_component_request, version_bytes,
}
use pldm_lib.Message.Device.{encode_request_update_response, encode_update_component_response}
use pldm_lib.Message.Short.{
  fw_data_response_fixed, pass_component_response, request_fw_data_request,
  transfer_complete_request, verify_complete_request,
}
use pldm_lib.Codec.{int, byte, slice, put, finish, write_to_prefix}
use pldm_lib.Codec.Order.{from_le, to_le}
use pldm_lib.Base.{◌≢◌, panic}
use pldm_lib.Cmd.{preprocess_request}
use pldm_lib.Cmd.Busy.{process_request-free}
use pldm_lib.Base.{ℕ, List, ◌↔◌, err}
use pldm_lib.Protocol.Error.{MsgHandlerError}
use pldm_lib.Cmd.{CmdInterface}
use pldm_lib.Cmd.Checked.{IsChecked, preprocess_request-IsChecked}
use pldm_lib.Cmd.Answers.{IsAnswerTo, process_initiator_response-stray}
use pldm_lib.Tests.{
  fd_downloading, target, controls, interface, request_update_bytes, update_component_bytes,
  update_events, at, fd_idle,
}

ends_in_apply : (run target update_events interface).internal.state ≡ apply
unfolding default_fd_internal process_initiator_response handle_response decode header
    generate_initiator_request fd_progress process_request supported_type_try_from cmd_code
    instance_id fw_update_cmd_try_from request_update_rsp request_update_request int byte slice
    from_le encode_request_update_response pass_component_rsp pass_component_request
    transfer_resp_try_from update_component_rsp update_component_request
    compatibility_response_code_try_from encode_update_component_response put write_to_prefix
    transfer_result_try_from fw_data_response_fixed header_bytes new_header finish
    get_fd_download_chunk version_bytes to_le pass_component_response request_fw_data_request
    transfer_complete_request verify_complete_request
ends_in_apply = refl

apply-needs-verify_example : visits target verify update_events interface ≡ true
unfolding default_fd_internal
apply-needs-verify_example = apply-needs-verify target update_events interface refl ends_in_apply

step-Edge_example :
    interface.internal.state
    ⟶ (step target (request (1 ∷ request_update_bytes)) interface).internal.state
step-Edge_example = step-Edge target (request (1 ∷ request_update_bytes)) interface

fw_update_handler-refuse_example :
    fw_update_handler target FwUpdateCmd.update_component (at 1 fd_idle update_component_bytes)
    ≡ refuse 0x84 (at 1 fd_idle update_component_bytes)
fw_update_handler-refuse_example =
    fw_update_handler-refuse target FwUpdateCmd.update_component 0x84
      (at 1 fd_idle update_component_bytes) refl

request-checked :
    preprocess_request controls request_update_bytes ≡ ok (Result.ok (fw_update, 0x10))
unfolding preprocess_request decode header supported_type_try_from cmd_code
request-checked = refl

preprocess_request-IsChecked_example :
    (preprocess_request controls request_update_bytes ≡ ok (Result.ok (fw_update, 0x10)))
    ↔ IsChecked controls fw_update 0x10 request_update_bytes
preprocess_request-IsChecked_example =
    preprocess_request-IsChecked controls request_update_bytes fw_update 0x10

abbrev downloading_interface : CmdInterface ℕ
downloading_interface = record interface { internal = fd_downloading }

-- An answer with the instance id of the request that is out and another command.
abbrev other_answer : List ℕ
other_answer = 1 ∷ 1 ∷ 0x05 ∷ 0x16 ∷ 0 ∷ []

not_an-IsAnswerTo : ¬ IsAnswerTo fd_downloading.req other_answer
not_an-IsAnswerTo = ground arith

process_initiator_response-stray_example :
    (e : MsgHandlerError) × (process_initiator_response target downloading_interface other_answer
      ≡ (err e, downloading_interface))
process_initiator_response-stray_example =
    process_initiator_response-stray target downloading_interface other_answer not_an-IsAnswerTo

idle_interface : (process_request target interface (1 ∷ 0x80 ∷ 0x05 ∷ [])).0 ≢ panic
unfolding process_request decode header generate_failure_response write_to_prefix
idle_interface h = ground arith

process_request-free_example :
    (process_request target interface (1 ∷ 0x80 ∷ 0x05 ∷ [])).1.busy ≡ false
process_request-free_example =
    process_request-free target interface (1 ∷ 0x80 ∷ 0x05 ∷ []) refl idle_interface
