-- ===== src/Control/Responder.antt =====
-- The five control commands of `control_context.rs`, with their messages of
-- `pldm-common/src/message/control.rs`. A handler takes the context and the payload buffer, and
-- returns both; only SetTID changes the context.
use pldm_lib.Base.{
  ℕ, not, List, [], ◌∷◌, ◌++◌, Option, none, some, Result, ok, err, panic, ◌==◌, if◌then◌else◌,
  ◌>>=◌,
}
use pldm_lib.Protocol.Error.{codec}
use pldm_lib.Protocol.Base.{
  PldmSupportedType, base, supported_type_try_from, PldmControlCmd, control_cmd_code,
  PldmBaseCompletionCode, base_completion_code, PldmControlCompletionCode, control_completion_code,
  PldmMsgType, TransferOperationFlag, transfer_operation_code, TransferRespFlag, transfer_resp_code,
}
use pldm_lib.Protocol.Header.{PldmMsgHeader, instance_id, into_response, new_header, header_bytes}
use pldm_lib.Codec.{
  CodecResult, Reader, Written, ◌>>=◌ as bind, pure, byte, header, int, decode, write_to_prefix,
}
use pldm_lib.Codec.Order.{ByteOrder}
use pldm_lib.Fd.Handler.{Answer, decode_failure_code, generate_failure_response}
use pldm_lib.Control.Bitmap.{construct_bitmap}
use pldm_lib.Control.{
  ControlContext, get_supported_commands, get_protocol_versions, get_supported_types,
  is_supported_type, is_supported_version,
}

abbrev pub ControlAnswer : Type 0
ControlAnswer = Answer ℕ × ControlContext × List ℕ

abbrev pub ControlHandler : Type 0
ControlHandler = ControlContext → List ℕ → ControlAnswer

abbrev pub control_header : ℕ → PldmControlCmd → PldmMsgHeader
control_header id cmd = new_header id PldmMsgType.response base (control_cmd_code cmd)

abbrev pub pldm_cmds_bitmap_len : ℕ
pldm_cmds_bitmap_len = 32

abbrev pub pldm_types_bitmap_len : ℕ
pldm_types_bitmap_len = 8

abbrev success : ℕ
success = base_completion_code PldmBaseCompletionCode.success

-- `return generate_failure_response(payload, code)`
unfoldable pub control_refuse : ℕ → ControlHandler
control_refuse code ctx payload =
    let (r, payload') = generate_failure_response code payload in (r, ctx, payload')

-- `resp.encode(payload).map_err(MsgHandlerError::Codec)`
unfoldable pub send : CodecResult Written → ControlHandler
send (ok (size, payload')) ctx payload = (ok size, ctx, payload')
send (err e) ctx payload = (err (codec e), ctx, payload)
send panic ctx payload = (panic, ctx, payload)

-- `match resp.encode(payload) { Ok(bytes) => Ok(bytes), Err(_) => INVALID_LENGTH }`
unfoldable pub send_or_refuse : CodecResult Written → ControlHandler
unfolding control_refuse
send_or_refuse (ok (size, payload')) ctx payload = (ok size, ctx, payload')
send_or_refuse (err e) ctx payload =
    control_refuse (base_completion_code PldmBaseCompletionCode.invalid_length) ctx payload
send_or_refuse panic ctx payload = (panic, ctx, payload)

abbrev pub with_decoded : {A : Type 0} → Reader A → (A → ControlHandler) → ControlHandler
with_decoded r k ctx payload = elim (decode r payload) [
  | ok req ↦ k req ctx payload
  | err e ↦ control_refuse (decode_failure_code e) ctx payload
  | panic ↦ (panic, ctx, payload)
]

unfoldable pub get_tid_rsp : ControlHandler
unfolding send
get_tid_rsp = with_decoded header λ hdr ctx payload.
    send
      (write_to_prefix
        (header_bytes (control_header (instance_id hdr) PldmControlCmd.get_tid)
          ++ success ∷ ctx.tid ∷ [])
        payload)
      ctx payload

-- `SetTidRequest`
unfoldable pub set_tid_request : Reader (PldmMsgHeader × ℕ)
set_tid_request = bind header λ hdr. bind byte λ tid. pure (hdr, tid)

unfoldable pub set_tid_rsp : ControlHandler
unfolding send
set_tid_rsp = with_decoded set_tid_request λ req ctx payload.
    send
      (write_to_prefix
        (header_bytes (control_header (instance_id req.0) PldmControlCmd.set_tid) ++ success ∷ [])
        payload)
      (record ctx { tid = req.1 }) payload

unfoldable pub answer_types : PldmMsgHeader → ControlHandler
unfolding send construct_bitmap get_supported_types
answer_types hdr ctx payload =
    send
      (construct_bitmap pldm_types_bitmap_len (get_supported_types 6 ctx) >>= λ bitmap.
        write_to_prefix
          (header_bytes (control_header (instance_id hdr) PldmControlCmd.get_pldm_types)
            ++ success ∷ bitmap)
          payload)
      ctx payload

unfoldable pub get_pldm_types_rsp : ControlHandler
unfolding answer_types
get_pldm_types_rsp = with_decoded header answer_types

-- `PldmSupportedType::try_from(req.pldm_type)`, then `is_supported_type`
abbrev pub with_supported_type : ℕ → (PldmSupportedType → ControlHandler) → ControlHandler
with_supported_type code k ctx payload = elim (supported_type_try_from code) [
  | Result.ok kind ↦
      if not (is_supported_type kind ctx)
      then control_refuse
          (control_completion_code PldmControlCompletionCode.invalid_pldm_type_in_request_data) ctx
          payload
      else k kind ctx payload
  | Result.err _ ↦
      control_refuse
        (control_completion_code PldmControlCompletionCode.invalid_pldm_type_in_request_data) ctx
        payload
]

module _ (bo : ByteOrder) where
  open bo use {write_int}

  -- `GetPldmCommandsRequest`: header, type, version
  unfoldable pub get_pldm_commands_request : Reader (PldmMsgHeader × ℕ × ℕ)
  get_pldm_commands_request =
      bind header λ hdr. bind byte λ kind. bind (int bo 4) λ version. pure (hdr, kind, version)

  unfoldable pub answer_commands : PldmMsgHeader → Option (List ℕ) → ControlHandler
  unfolding send_or_refuse construct_bitmap
  answer_commands hdr none ctx payload = (panic, ctx, payload)
  answer_commands hdr (some cmds) ctx payload =
      send_or_refuse
        (construct_bitmap pldm_cmds_bitmap_len cmds >>= λ bitmap.
          write_to_prefix
            (header_bytes (control_header (instance_id hdr) PldmControlCmd.get_pldm_commands)
              ++ success ∷ bitmap)
            payload)
        ctx payload

  unfoldable pub answer_version_commands : PldmMsgHeader → ℕ → PldmSupportedType → ControlHandler
  unfolding answer_commands is_supported_version get_supported_commands
  answer_version_commands hdr version kind ctx payload =
      if not (is_supported_version kind version ctx)
      then control_refuse
          (control_completion_code PldmControlCompletionCode.invalid_pldm_version_in_request_data)
          ctx payload
      else answer_commands hdr (get_supported_commands kind version ctx) ctx payload

  abbrev pub commands_of_type : PldmMsgHeader × ℕ × ℕ → ControlHandler
  commands_of_type (hdr, code, version) =
      with_supported_type code (answer_version_commands hdr version)

  unfoldable pub get_pldm_commands_rsp : ControlHandler
  unfolding answer_version_commands
  get_pldm_commands_rsp = with_decoded get_pldm_commands_request commands_of_type

  -- `GetPldmVersionRequest`: header, transfer operation flag, type; the transfer handle is not used.
  unfoldable pub get_pldm_version_request : Reader (PldmMsgHeader × ℕ × ℕ)
  get_pldm_version_request =
      bind header
        λ hdr. bind (int bo 4) λ handle. bind byte λ flag. bind byte λ kind. pure (hdr, flag, kind)

  unfoldable pub answer_version : PldmMsgHeader → List ℕ → ControlHandler
  unfolding send_or_refuse
  answer_version hdr [] ctx payload =
      control_refuse (base_completion_code PldmBaseCompletionCode.error) ctx payload
  answer_version hdr (v ∷ vs) ctx payload =
      send_or_refuse
        (write_to_prefix
          (header_bytes (into_response hdr)
            ++ success
              ∷ (write_int 4 0
                  ++ transfer_resp_code TransferRespFlag.start_and_end ∷ write_int 4 v))
          payload)
        ctx payload

  unfoldable pub answer_first_version : PldmMsgHeader → ℕ → PldmSupportedType → ControlHandler
  unfolding answer_version get_protocol_versions
  answer_first_version hdr flag kind ctx payload =
      if not (flag == transfer_operation_code TransferOperationFlag.get_first_part)
      then control_refuse
          (control_completion_code PldmControlCompletionCode.invalid_transfer_operation_flag) ctx
          payload
      else answer_version hdr (get_protocol_versions kind 2 ctx.capabilities) ctx payload

  abbrev pub version_of_type : PldmMsgHeader × ℕ × ℕ → ControlHandler
  version_of_type (hdr, flag, code) = with_supported_type code (answer_first_version hdr flag)

  unfoldable pub get_pldm_version_rsp : ControlHandler
  unfolding answer_first_version
  get_pldm_version_rsp = with_decoded get_pldm_version_request version_of_type
