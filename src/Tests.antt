-- ===== src/Tests.antt =====
-- A small platform whose world is its clock, an update that runs through it, and states of a device.
mod Run
mod Safety
mod Flow
mod Messages
mod Platform
mod Codecs
mod Commands
use pldm_lib.Base.{
  ℕ, ◌%◌, Bool, Option, ◌≡◌, ◌<◌, refl, true, false, none, some, List, [], ◌∷◌, replicate, Result,
  ok, err, arith,
}
use pldm_lib.Protocol.Base.{PldmSupportedType, fw_update, PldmMsgType}
use pldm_lib.Protocol.Update.{
  FirmwareDeviceState, idle, learn_components, ready_xfer, download, verify, apply, FwUpdateCmd,
  FwUpdateCompletionCode,
}
use pldm_lib.Protocol.Results.{
  ComponentResponseCode, comp_can_be_updated, TransferResult, transfer_success, VerifyResult,
  verify_success, ApplyResult, apply_success, components_functioning,
}
use pldm_lib.Protocol.Header.{PldmMsgHeader}
use pldm_lib.Codec.Order.{little_endian, little_endian-IsByteOrder}
use pldm_lib.Message.Short.{activated, updated}
use pldm_lib.Fd.Internal.{
  FdInternal, FdReq, default_fd_internal, sent, ready, downloading, verifying, applying,
}
use pldm_lib.Fd.Ops.{FdOps, Target, IsTyped, HasNoVendorCode, HasShortChunks}
use pldm_lib.Fd.Handler.{Ctx}
use pldm_lib.Fd.Invariant.{IsValid, IsSafe}
use pldm_lib.Control.{ControlContext, ProtocolCapability}
use pldm_lib.Cmd.{CmdInterface}
use pldm_lib.Cmd.Run.{Event, request, response, progress, run, visits, apply-needs-verify}
use pldm_lib.Protocol.Error.{codec, buffer_too_short, fd_initiator_mode_error, t1_timeout}
use pldm_lib.Protocol.Update.{fw_update_cmd_try_from}
use pldm_lib.Protocol.Header.{instance_id, cmd_code}
use pldm_lib.Codec.{decode, header}
use pldm_lib.Message.Str.{default_component}
use pldm_lib.Fd.Internal.{InitiatorModeState, new_fd_req}
use pldm_lib.Fd.Handler.{refuse, generate_failure_response}
use pldm_lib.Fd.Responder.{
  request_update_rsp, pass_component_rsp, update_component_rsp, activate_firmware_rsp,
}
use pldm_lib.Fd.Service.{
  activate_pending_component_image_rsp, update_security_revision_rsp, cancel_update_component_rsp,
  cancel_update_rsp, get_status_rsp,
}
use pldm_lib.Fd.Initiator.{fd_progress, progress_in}
use pldm_lib.Fd.Reply.{expects, handle_response}
use pldm_lib.Fd.Invariant.Requests.{fd_progress-IsSafe}
use pldm_lib.Fd.Invariant.Replies.{handle_response-IsSafe}
use pldm_lib.Fd.Invariant.Answers.{
  request_update_rsp-IsSafe, pass_component_rsp-IsSafe, update_component_rsp-IsSafe,
  activate_firmware_rsp-IsSafe,
}
use pldm_lib.Fd.Invariant.Services.{
  activate_pending_rsp-IsSafe, update_security_rsp-IsSafe, cancel_update_component_rsp-IsSafe,
  cancel_update_rsp-IsSafe, get_status_rsp-IsSafe,
}
use pldm_lib.Fd.Flow.{◌⟶◌}
use pldm_lib.Fd.Flow.Replies.{handle_response-unexpected, verified-success, transferred-success}
use pldm_lib.Fd.Flow.Timers.{fd_progress-t1, progress_in-wait}
use pldm_lib.Cmd.{fw_update_handler}
use pldm_lib.Cmd.Run.{step, step-Edge}
use pldm_lib.Cmd.Refusals.{fw_update_handler-refuse, refuse-bytes}
use pldm_lib.Fd.Internal.{get_fd_download_chunk}
use pldm_lib.Cmd.{process_initiator_response, generate_initiator_request, process_request}
use pldm_lib.Protocol.Base.{supported_type_try_from, transfer_resp_try_from}
use pldm_lib.Protocol.Results.{compatibility_response_code_try_from, transfer_result_try_from}
use pldm_lib.Protocol.Header.{header_bytes, new_header}
use pldm_lib.Message.Update.{
  request_update_request, pass_component_request, update_component_request, version_bytes,
}
use pldm_lib.Message.Device.{encode_request_update_response, encode_update_component_response}
use pldm_lib.Message.Short.{
  fw_data_response_fixed, pass_component_response, request_fw_data_request,
  transfer_complete_request, verify_complete_request,
}
use pldm_lib.Codec.{int, byte, slice, put, finish, write_to_prefix}
use pldm_lib.Codec.Order.{from_le, to_le}
use pldm_lib.Base.{◌+◌, ◌≤◌, ◌≢◌, length, panic}
use pldm_lib.Protocol.Error.{PldmError}
use pldm_lib.Protocol.Base.{supported_type_code}
use pldm_lib.Protocol.Update.{fw_update_cmd_code, fw_completion_code, fw_completion_try_from}
use pldm_lib.Protocol.Results.{verify_result_code, verify_result_try_from}
use pldm_lib.Protocol.Header.{
  IsHeader, is_request, is_hdr_ver_valid, pldm_type, hdr_ver, datagram, into_response,
}
use pldm_lib.Protocol.Header.Laws.{Reads, new_header-Reads}
use pldm_lib.Protocol.Codes.{fw_update_cmd-inverse, fw_completion-lost}
use pldm_lib.Message.Short.{apply_complete_request}
use pldm_lib.Fd.Initiator.{
  send_request_fw_data, send_transfer_complete, fd_progress_verify, fd_progress_apply,
}
use pldm_lib.Fd.Reply.{data_slice, store_result}
use pldm_lib.Fd.Flow.Download.{
  get_fd_download_chunk-bounds, send_request_fw_data-remembers, vendor_result-panics,
}
use pldm_lib.Fd.Flow.Retry.{verify_complete-again, apply_complete-again}
use pldm_lib.Mctp.{extract_pldm_msg, construct_mctp_pldm_msg}
use pldm_lib.Mctp.Laws.{extract-construct}
use pldm_lib.Control.{
  is_supported_type, is_supported_command, is_supported_version, get_supported_commands,
  get_supported_types,
}
use pldm_lib.Control.Responder.{set_tid_rsp, get_tid_rsp}
use pldm_lib.Control.Types.{get_tid_answer, get_tid-set_tid}
use pldm_lib.Control.Laws.{supported_version-HasCommands}
use pldm_lib.Cmd.{preprocess_request}
use pldm_lib.Cmd.Busy.{preprocess_request-ok, process_request-free}

-- The world is the clock.
abbrev pub ops : FdOps ℕ
ops = record {
  get_device_identifiers = λ ds w. (Result.ok 1, ds, w);
  get_firmware_parms = λ p w. (Result.ok tt, p, w);
  get_xfer_size = λ n w. (Result.ok n, w);
  handle_component = λ comp p op w. (Result.ok ComponentResponseCode.comp_can_be_updated, w);
  query_download_offset_and_length = λ comp w. (Result.ok (0, 4), w);
  download_fw_data = λ offset bytes comp w. (Result.ok TransferResult.transfer_success, w);
  is_download_complete = λ comp w. (true, w);
  query_download_progress = λ comp p w. (Result.ok tt, p, w);
  verify = λ comp p w. (Result.ok VerifyResult.verify_success, 100, w);
  apply = λ comp p w. (Result.ok ApplyResult.apply_success, 100, w);
  activate = λ self time w. (Result.ok 0, 0, w);
  cancel_update_component = λ comp w. (Result.ok tt, w);
  handle_pending_component = λ key p w. (Result.ok (activated 1), w);
  get_non_functional_component_info = λ w. (Result.ok (components_functioning, 0), w);
  update_security_revision = λ key p w. (Result.ok updated, w);
  now = λ w. (w, w);
}

abbrev pub target : Target ℕ
target = record { order = little_endian; ops = ops }

pub ops-IsTyped : IsTyped ops
ops-IsTyped = record {
  devids_length = λ ds w. refl;
  verify_percent = λ c p w h. omega arith;
  apply_percent = λ c p w h. omega arith;
}

pub ops-HasNoVendorCode : HasNoVendorCode ops
ops-HasNoVendorCode = record {
  handle_component_code = λ c p op w h. ground arith;
  download_code = λ offset bytes c w h. ground arith;
}

pub ops-HasShortChunks : HasShortChunks ops
ops-HasShortChunks = record { chunk_end = λ c w r h. ground arith }

abbrev pub controls : ControlContext
controls = record {
  tid = 0;
  capabilities =
      record {
        pldm_type = fw_update;
        protocol_version = 0xf1f1f000;
        supported_commands = 0x10 ∷ 0x13 ∷ 0x14 ∷ [];
      }
      ∷ [];
}

abbrev pub interface : CmdInterface ℕ
interface = record { ctrl_ctx = controls; internal = default_fd_internal; world = 0; busy = false }

abbrev pub zeros : List ℕ
zeros = replicate 16 0

abbrev pub request_update_bytes : List ℕ
request_update_bytes = 0x80 ∷ 0x05 ∷ 0x10 ∷ 0 ∷ 2 ∷ 0 ∷ 0 ∷ 1 ∷ 0 ∷ 1 ∷ 0 ∷ 0 ∷ 1 ∷ 1 ∷ 65 ∷ []

abbrev pub pass_component_bytes : List ℕ
pass_component_bytes = 0x80 ∷ 0x05 ∷ 0x13 ∷ 5 ∷ 0 ∷ 0 ∷ 0 ∷ 0 ∷ 0 ∷ 0 ∷ 0 ∷ 0 ∷ 0 ∷ 1 ∷ 1 ∷ 65 ∷ []

abbrev pub update_component_bytes : List ℕ
update_component_bytes =
    0x80 ∷ 0x05 ∷ 0x14 ∷ 0 ∷ 0 ∷ 0 ∷ 0 ∷ 0 ∷ 0 ∷ 0 ∷ 0 ∷ 0 ∷ 4 ∷ 0 ∷ 0 ∷ 0 ∷ 0 ∷ 0 ∷ 0 ∷ 0 ∷ 1 ∷ 1
    ∷ 65 ∷ []

-- An update up to the answer to VerifyComplete.
abbrev pub update_events : List Event
update_events =
    request (1 ∷ request_update_bytes)
    ∷ request (1 ∷ pass_component_bytes)
    ∷ request (1 ∷ update_component_bytes)
    ∷ progress zeros
    ∷ response (1 ∷ 1 ∷ 0x05 ∷ 0x15 ∷ 0 ∷ 7 ∷ 7 ∷ 7 ∷ 7 ∷ [])
    ∷ progress zeros
    ∷ response (1 ∷ 1 ∷ 0x05 ∷ 0x16 ∷ 0 ∷ [])
    ∷ progress zeros
    ∷ response (1 ∷ 1 ∷ 0x05 ∷ 0x17 ∷ 0 ∷ [])
    ∷ []

-- The state of a device with the request `req`.
abbrev pub fd : FirmwareDeviceState → InitiatorModeState → FdReq → FdInternal
fd s mode req = record {
  state = s;
  prev_state = idle;
  reason = none;
  update_comp = default_component;
  update_flags = 0;
  max_xfer_size = 512;
  req = req;
  initiator_mode_state = mode;
  fd_t1_update_ts = 0;
  fd_t1_timeout = 120000;
  fd_t2_retry_time = 5000;
}

abbrev pub req_ready : FdReq
req_ready = record {
  state = ready;
  complete = false;
  result = none;
  instance_id = none;
  command = none;
  sent_time = none;
}

-- A request that was sent at time 0.
abbrev pub req_sent : Bool → Option ℕ → ℕ → FdReq
req_sent complete result cmd = record {
  state = sent;
  complete = complete;
  result = result;
  instance_id = some 1;
  command = some cmd;
  sent_time = some 0;
}

abbrev pub at : ℕ → FdInternal → List ℕ → Ctx ℕ
at now i payload = record { world = now; internal = i; payload = payload }

abbrev pub fd_idle : FdInternal
fd_idle = fd idle (downloading 0 0) new_fd_req

abbrev pub fd_learning : FdInternal
fd_learning = fd learn_components (downloading 0 0) new_fd_req

abbrev pub fd_ready : FdInternal
fd_ready = fd ready_xfer (downloading 0 0) new_fd_req

abbrev pub fd_downloading : FdInternal
fd_downloading = fd download (downloading 0 4) (req_sent false none 0x15)

abbrev pub fd_transferred : FdInternal
fd_transferred = fd download (downloading 0 4) (req_sent true (some 0) 0x16)

abbrev pub fd_verifying : FdInternal
fd_verifying = fd verify (verifying 0) req_ready

abbrev pub fd_verified : FdInternal
fd_verified = fd verify (verifying 100) (req_sent true (some 0) 0x17)

abbrev pub fd_applied : FdInternal
fd_applied = fd apply (applying 100) (req_sent true (some 0) 0x18)

pub idle-IsValid : IsValid fd_idle
idle-IsValid = ground arith

pub learning-IsValid : IsValid fd_learning
learning-IsValid = ground arith

pub ready-IsValid : IsValid fd_ready
ready-IsValid = ground arith

pub downloading-IsValid : IsValid fd_downloading
downloading-IsValid = ground arith

pub verifying-IsValid : IsValid fd_verifying
verifying-IsValid = ground arith

abbrev pub chunk_answer : List ℕ
chunk_answer = 1 ∷ 0x05 ∷ 0x15 ∷ 0 ∷ 7 ∷ 7 ∷ 7 ∷ 7 ∷ []

abbrev pub activate_bytes : List ℕ
activate_bytes = 0x80 ∷ 0x05 ∷ 0x1a ∷ 1 ∷ 0 ∷ 0 ∷ []

abbrev pub cancel_bytes : List ℕ
cancel_bytes = 0x80 ∷ 0x05 ∷ 0x1d ∷ replicate 16 0

-- An answer to another instance id.
abbrev pub stray : PldmMsgHeader
stray = record { byte_0 = 2; byte_1 = 0x05; byte_2 = 0x15 }

-- The chunk from 0, 4 bytes long, of an image of 4 bytes.
abbrev pub fd_sized : FdInternal
fd_sized = record fd_downloading {
  update_comp = record default_component { comp_image_size = some 4 };
}
