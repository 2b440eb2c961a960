-- ===== src/Cmd.antt =====
-- `CmdInterface` of `pldm-interface/src/cmd_interface.rs`: a message that arrives is checked, and
-- goes to the handler of its command. `busy` is the atomic flag that is set while a request is
-- served; a panic leaves it set.
pub mod Busy
pub mod Answers
pub mod Checked
pub mod Platform
pub mod Safety
pub mod Ready
pub mod Runs
pub mod Run
pub mod Refusals
use pldm_lib.Base.{
  ℕ, ◌+◌, Bool, true, false, ◌&&◌, not, List, [], ◌∷◌, Option, none, some, Result, Outcome, ok, err,
  panic, ltb, if◌then◌else◌,
}
use pldm_lib.Protocol.Error.{util, not_ready}
use pldm_lib.Protocol.Base.{
  PldmSupportedType, base, fw_update, supported_type_try_from, PldmControlCmd, control_cmd_try_from,
  PldmBaseCompletionCode, base_completion_code,
}
use pldm_lib.Protocol.Update.{FwUpdateCmd, fw_update_cmd_try_from}
use pldm_lib.Protocol.Header.{PldmMsgHeader, is_request, is_hdr_ver_valid, pldm_type, cmd_code}
use pldm_lib.Codec.{CodecResult, decode, header}
use pldm_lib.Mctp.{pldm_msg_offset, extract_pldm_msg, construct_mctp_pldm_msg}
use pldm_lib.Fd.Internal.{FdInternal, default_fd_internal}
use pldm_lib.Fd.Ops.{Target}
use pldm_lib.Fd.Handler.{Answer, Ctx, Handler, refuse, generate_failure_response}
use pldm_lib.Fd.Responder.{
  query_devid_rsp, get_firmware_parameters_rsp, request_update_rsp, pass_component_rsp,
  update_component_rsp, activate_firmware_rsp,
}
use pldm_lib.Fd.Service.{
  activate_pending_component_image_rsp, update_security_revision_rsp, cancel_update_component_rsp,
  cancel_update_rsp, get_status_rsp,
}
use pldm_lib.Fd.Initiator.{fd_progress}
use pldm_lib.Fd.Reply.{handle_response}
use pldm_lib.Control.{
  ControlContext, ProtocolCapability, new_control_context, is_supported_type, is_supported_command,
}
use pldm_lib.Control.Responder.{
  ControlHandler, control_refuse, get_tid_rsp, set_tid_rsp, get_pldm_types_rsp,
  get_pldm_commands_rsp, get_pldm_version_rsp,
}

pub record CmdInterface (World : Type 0) : Type 0 where
  pub ctrl_ctx : ControlContext
  pub internal : FdInternal
  pub world : World
  pub busy : Bool

-- `CmdInterface::new`, on a device context that has just been made
unfoldable pub new_cmd_interface :
    {World : Type 0} → List ProtocolCapability → World → CmdInterface World
unfolding new_control_context default_fd_internal
new_cmd_interface caps world = record {
  ctrl_ctx = new_control_context caps;
  internal = default_fd_internal;
  world = world;
  busy = false;
}

abbrev unsupported_pldm_cmd : ℕ
unsupported_pldm_cmd = base_completion_code PldmBaseCompletionCode.unsupported_pldm_cmd

-- `PldmHeader::decode`, then the tests of the header, the type and the command, in this order.
abbrev check_header : PldmMsgHeader → ControlContext → Result ℕ (PldmSupportedType × ℕ)
check_header hdr ctx =
    if not (is_request hdr && is_hdr_ver_valid hdr)
    then Result.err (base_completion_code PldmBaseCompletionCode.invalid_data)
    else elim (supported_type_try_from (pldm_type hdr)) [
      | Result.err _ ↦ Result.err (base_completion_code PldmBaseCompletionCode.invalid_pldm_type)
      | Result.ok kind ↦
          if not (is_supported_type kind ctx)
          then Result.err (base_completion_code PldmBaseCompletionCode.invalid_pldm_type)
          else if is_supported_command kind (cmd_code hdr) ctx
          then Result.ok (kind, cmd_code hdr)
          else Result.err unsupported_pldm_cmd
    ]

unfoldable pub preprocess_request :
    ControlContext → List ℕ → CodecResult (Result ℕ (PldmSupportedType × ℕ))
unfolding is_request is_hdr_ver_valid pldm_type is_supported_type is_supported_command
preprocess_request ctx payload = elim (decode header payload) [
  | ok hdr ↦ ok (check_header hdr ctx)
  | err _ ↦ ok (Result.err (base_completion_code PldmBaseCompletionCode.invalid_data))
  | panic ↦ panic
]

module _ {W : Type 0} (t : Target W) where
  open t use {order}

  unfoldable pub process_control_cmd : ℕ → ControlHandler
  process_control_cmd code ctx payload = elim (control_cmd_try_from code) [
    | Result.ok PldmControlCmd.get_tid ↦ get_tid_rsp ctx payload
    | Result.ok PldmControlCmd.set_tid ↦ set_tid_rsp ctx payload
    | Result.ok PldmControlCmd.get_pldm_types ↦ get_pldm_types_rsp ctx payload
    | Result.ok PldmControlCmd.get_pldm_commands ↦ get_pldm_commands_rsp order ctx payload
    | Result.ok PldmControlCmd.get_pldm_version ↦ get_pldm_version_rsp order ctx payload
    | Result.err _ ↦ control_refuse unsupported_pldm_cmd ctx payload
  ]

  -- The handler of each command; the commands that the device itself sends have none.
  unfoldable pub fw_update_handler : FwUpdateCmd → Handler W ℕ
  fw_update_handler FwUpdateCmd.query_device_identifiers = query_devid_rsp t
  fw_update_handler FwUpdateCmd.get_firmware_parameters = get_firmware_parameters_rsp t
  fw_update_handler FwUpdateCmd.request_update = request_update_rsp t
  fw_update_handler FwUpdateCmd.pass_component_table = pass_component_rsp t
  fw_update_handler FwUpdateCmd.update_component = update_component_rsp t
  fw_update_handler FwUpdateCmd.activate_firmware = activate_firmware_rsp t
  fw_update_handler FwUpdateCmd.cancel_update_component = cancel_update_component_rsp t
  fw_update_handler FwUpdateCmd.cancel_update = cancel_update_rsp t
  fw_update_handler FwUpdateCmd.update_security_revision = update_security_revision_rsp t
  fw_update_handler FwUpdateCmd.get_status = get_status_rsp t
  fw_update_handler FwUpdateCmd.activate_pending_component_image =
      activate_pending_component_image_rsp t
  fw_update_handler _ = refuse unsupported_pldm_cmd

  unfoldable pub process_fw_update_cmd : ℕ → Handler W ℕ
  unfolding fw_update_handler
  process_fw_update_cmd code c = elim (fw_update_cmd_try_from code) [
    | Result.ok cmd ↦ fw_update_handler cmd c
    | Result.err _ ↦ refuse unsupported_pldm_cmd c
  ]

  -- What is returned, the interface after the call, and the PLDM part of the buffer.
  abbrev pub Served : Type 0
  Served = Answer ℕ × CmdInterface W × List ℕ

  -- The handler of the type. Another type of the table reaches `unreachable!()`.
  unfoldable pub dispatch : PldmSupportedType → ℕ → CmdInterface W → List ℕ → Served
  unfolding process_control_cmd process_fw_update_cmd
  dispatch base code s payload =
      let (r, ctx, payload') = process_control_cmd code s.ctrl_ctx payload in
      (r, record s { ctrl_ctx = ctx }, payload')
  dispatch fw_update code s payload =
      let (r, c) =
        process_fw_update_cmd code
          (record { world = s.world; internal = s.internal; payload = payload }) in
      (r, record s { internal = c.internal; world = c.world }, c.payload)
  dispatch _ code s payload = (panic, s, payload)

  abbrev pub with_offset : Answer ℕ → Answer ℕ
  with_offset (ok bytes) = ok (pldm_msg_offset + bytes)
  with_offset (err e) = err e
  with_offset panic = panic

  -- `self.busy.store(false)` and the length, unless a panic ended the call before them
  abbrev pub finish_request : Served → Served
  finish_request (panic, s, payload) = (panic, s, payload)
  finish_request (r, s, payload) = (with_offset r, record s { busy = false }, payload)

  unfoldable pub serve : CmdInterface W → List ℕ → Served
  unfolding preprocess_request dispatch
  serve s payload = elim (preprocess_request s.ctrl_ctx payload) [
    | ok (Result.ok (kind, code)) ↦ finish_request (dispatch kind code s payload)
    | ok (Result.err code) ↦
        let (r, payload') = generate_failure_response code payload in
        finish_request (r, s, payload')
    | err e ↦ (panic, s, payload)
    | panic ↦ (panic, s, payload)
  ]

  -- `handle_responder_msg` is `process_request`. The slice from offset 1 of an empty buffer panics,
  -- when the flag is set already.
  unfoldable pub process_request : CmdInterface W → List ℕ → Served
  unfolding serve
  process_request s [] =
      if s.busy then (err not_ready, s, []) else (panic, record s { busy = true }, [])
  process_request s (b ∷ payload) =
      if s.busy
      then (err not_ready, s, b ∷ payload)
      else let (r, s', payload') = serve (record s { busy = true }) payload in (r, s', b ∷ payload')

  abbrev pub context : CmdInterface W → List ℕ → Ctx W
  context s payload = record { world = s.world; internal = s.internal; payload = payload }

  abbrev pub after : CmdInterface W → Ctx W → CmdInterface W
  after s c = record s { internal = c.internal; world = c.world }

  abbrev pub some_if_positive : Answer ℕ → Answer (Option ℕ)
  some_if_positive (ok n) = ok (if ltb 0 n then some n else none)
  some_if_positive (err e) = err e
  some_if_positive panic = panic

  unfoldable pub generate_initiator_request :
      CmdInterface W → List ℕ → Answer (Option ℕ) × CmdInterface W × List ℕ
  unfolding construct_mctp_pldm_msg
  generate_initiator_request s msg = elim (construct_mctp_pldm_msg msg) [
    | Result.ok (b, payload) ↦
        let (r, c) = fd_progress t (context s payload) in
        (some_if_positive r, after s c, b ∷ c.payload)
    | Result.err e ↦ (err (util e), s, msg)
  ]

  unfoldable pub process_initiator_response :
      CmdInterface W → List ℕ → Answer (Unit {0}) × CmdInterface W
  unfolding extract_pldm_msg
  process_initiator_response s msg = elim (extract_pldm_msg msg) [
    | Result.ok payload ↦ let (r, c) = handle_response t (context s payload) in (r, after s c)
    | Result.err e ↦ (err (util e), s)
  ]
