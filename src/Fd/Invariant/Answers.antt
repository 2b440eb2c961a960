-- ===== src/Fd/Invariant/Answers.antt =====
-- Safety of `request_update_rsp`, `pass_component_rsp`, `update_component_rsp` and
-- `activate_firmware_rsp` of `fd_context.rs`.
use pldm_lib.Base.{
  ℕ, ◌≡◌, ◌≢◌, refl, Result, Result-cases, arith, inl, inr, Bool, Bool-cases, ltb, if◌then◌else◌,
  not,
}
use pldm_lib.Protocol.Base.{TransferRespFlag, transfer_resp_try_from}
use pldm_lib.Protocol.Results.{
  ComponentResponseCode, ComponentCompatibilityResponseCode, component_response_code_code,
  compatibility_response_code_try_from,
}
use pldm_lib.Message.Device.{encode_request_update_response, encode_update_component_response}
use pldm_lib.Protocol.Update.{
  FwUpdateCompletionCode, FwUpdateCmd, learn_components, ready_xfer, baseline_transfer_size,
}
use pldm_lib.Codec.{write_to_prefix}
use pldm_lib.Codec.Order.{IsByteOrder}
use pldm_lib.Message.Short.{ActivateFirmwareRequest, activate_firmware_request}
use pldm_lib.Message.Str.{FirmwareComponent, default_params}
use pldm_lib.Message.Update.{
  RequestUpdateRequest, request_update_request, PassComponentTableRequest, pass_component_request,
  UpdateComponentRequest, update_component_request,
}
use pldm_lib.Fd.Internal.{
  FdInternal, set_xfer_size, set_update_flags, set_component, is_update_mode, set_fd_state,
}
use pldm_lib.Fd.Ops.{Target, HasNoVendorCode}
use pldm_lib.Fd.Handler.{Ctx, ◌>>=◌, ◌>>◌, call, lift, with_request}
use pldm_lib.Protocol.Header.{instance_id}
use pldm_lib.Protocol.Base.{PldmBaseCompletionCode}
use pldm_lib.Base.{◌==◌, ◌||◌}
use pldm_lib.Message.Str.{FirmwareParameters}
use pldm_lib.Message.Short.{activation_response}
use pldm_lib.Fd.Ops.{pass_component, update_component}
use pldm_lib.Fd.Internal.{state_eq}
use pldm_lib.Fd.Responder.{
  take_flag, request_update_rsp, enter_update, answer_pass_component, answer_activation,
  request_update_answer, pass_component_answer, update_component_answer, base_code, fw_code,
  passed_component, is_last, updated_component, unwrap_result, set_fd_t1_ts, accept_update,
  request_update_rsp, learn_component, pass_component_rsp, begin_download, answer_update_component,
  take_component, update_component_rsp, begin_activate, activate_image, activate_firmware_rsp,
  can_be_updated,
}
use pldm_lib.Base.{◌+◌, ◌^◌, ◌<◌, List, ok}
use pldm_lib.Codec.{decode}
use pldm_lib.Codec.Order.{ByteOrder}
use pldm_lib.Fd.Invariant.{ImageFits, IsValid, IsSafe}
use pldm_lib.Fd.Invariant.Encoders.{
  request_update_request-Total, pass_component_request-Total, update_component_request-Total,
  activate_firmware_request-Total, encode_request_update-NoPanic, encode_update_component-NoPanic,
  write_to_prefix-NoPanic,
}
use pldm_lib.Fd.Invariant.Rules.{
  refuse-IsSafe, with_request-IsSafe, respond-IsSafe, guard-IsSafe, call-IsSafe, call_mut-IsSafe,
  stamp-IsSafe,
}

learn-IsValid :
    (n : ℕ) (i : FdInternal)
    → IsValid i
    → IsValid (set_fd_state learn_components (set_xfer_size n i))
unfolding set_fd_state set_xfer_size
learn-IsValid n i v = ground arith

xfer-IsValid : (n : ℕ) (i : FdInternal) → IsValid i → IsValid (set_xfer_size n i)
unfolding set_xfer_size
xfer-IsValid n i v = ground arith

passed-IsValid :
    (b : Bool) (i : FdInternal) → IsValid i → IsValid (if b then set_fd_state ready_xfer i else i)
unfolding set_fd_state
passed-IsValid b i v = ground arith

taken-IsValid :
    (comp : FirmwareComponent) (n : ℕ) (i : FdInternal)
    → ImageFits comp
    → IsValid i
    → IsValid (set_update_flags n (set_component comp i))
unfolding set_update_flags set_component
taken-IsValid comp n i f v = ground arith

begin_download-IsValid :
    (b : Bool) (i : FdInternal) → IsValid i → IsValid (if b then begin_download i else i)
unfolding begin_download
begin_download-IsValid b i v = ground arith

begin_activate-IsValid :
    (b : Bool) (i : FdInternal) → IsValid i → IsValid (if b then begin_activate i else i)
unfolding begin_activate
begin_activate-IsValid b i v = ground arith

-- Every code but the vendor's is one of the compatibility codes too.
compatible :
    (code : ComponentResponseCode)
    → code ≢ ComponentResponseCode.vendor_defined
    → (r : ComponentCompatibilityResponseCode) × (compatibility_response_code_try_from
          (component_response_code_code code)
        ≡ Result.ok r)
unfolding compatibility_response_code_try_from
compatible ComponentResponseCode.vendor_defined h = absurd (h refl)
compatible ComponentResponseCode.comp_can_be_updated h = (_, refl)
compatible _ h = (_, refl)

-- An UpdateComponent request that can be read from the bytes announces an image that ends, with its
-- padding, below 2 ^ 32.
abbrev pub AnnouncesFit : ByteOrder → List ℕ → Type 0
AnnouncesFit bo payload =
    (req : UpdateComponentRequest)
    → decode (update_component_request bo) payload ≡ ok req
    → req.comp_image_size + 32 < 2 ^ 32

module _ {W : Type 0} (t : Target W) (law : IsByteOrder t.order) where
  open t use {order, ops}

  enter_update-IsSafe :
      (req : RequestUpdateRequest) (size : ℕ) (c : Ctx W)
      → IsValid c.internal
      → IsSafe (enter_update t req size c)
  enter_update-IsSafe req size c v =
      respond-IsSafe (encode_request_update_response order (request_update_answer t req))
        (set_fd_state learn_components) (record c { internal = set_xfer_size size c.internal })
        (encode_request_update-NoPanic order law (request_update_answer t req) c.payload refl)
        (xfer-IsValid size c.internal v) (learn-IsValid size c.internal v)

  accept_update-IsSafe :
      (req : RequestUpdateRequest) (c : Ctx W) → IsValid c.internal → IsSafe (accept_update t req c)
  unfolding accept_update
  accept_update-IsSafe req c v =
      let xfer = ops.get_xfer_size req.max_transfer_size in
      guard-IsSafe (ltb req.max_transfer_size baseline_transfer_size)
        (fw_code FwUpdateCompletionCode.invalid_transfer_length) (call xfer >>= enter_update t req)
        c v (call-IsSafe xfer (enter_update t req) c v λ size e. enter_update-IsSafe req size _ v)

  answer_pass_component-IsSafe :
      (req : PassComponentTableRequest) (flag : TransferRespFlag) (code : ComponentResponseCode)
      (c : Ctx W)
      → IsValid c.internal
      → IsSafe (answer_pass_component t req flag code c)
  answer_pass_component-IsSafe req flag code c v =
      let reply = pass_component_answer t req code in
      respond-IsSafe (write_to_prefix reply)
        (λ i. if is_last flag then set_fd_state ready_xfer i else i) c
        (write_to_prefix-NoPanic reply c.payload) v (passed-IsValid (is_last flag) c.internal v)

  learn_component-IsSafe :
      (req : PassComponentTableRequest) (flag : TransferRespFlag) (c : Ctx W)
      → IsValid c.internal
      → IsSafe (learn_component t req flag c)
  unfolding learn_component
  learn_component-IsSafe req flag c v =
      let judge = λ (params : FirmwareParameters).
        ops.handle_component (passed_component req) params pass_component in
      call_mut-IsSafe (ops.get_firmware_parms default_params)
        (λ a. call (judge a.1) >>= answer_pass_component t req flag) c v
        λ u.
          call-IsSafe (judge (ops.get_firmware_parms default_params c.world).1)
            (answer_pass_component t req flag)
            (record c { world = (ops.get_firmware_parms default_params c.world).2 }) v
            λ code e. answer_pass_component-IsSafe req flag code _ v

  answer_update_component-IsSafe :
      (req : UpdateComponentRequest) (code : ComponentResponseCode) (c : Ctx W)
      → code ≢ ComponentResponseCode.vendor_defined
      → IsValid c.internal
      → IsSafe (answer_update_component t req code c)
  unfolding answer_update_component
  answer_update_component-IsSafe req code c h v =
      let (r, e) = compatible code h in
      let reply = update_component_answer t req code r in
      rw (e, IsSafe, ◌>>=◌, lift, unwrap_result)
        (respond-IsSafe (encode_update_component_response order reply)
          (λ i. if can_be_updated code then begin_download i else i) c
          (encode_update_component-NoPanic order law reply c.payload) v
          (begin_download-IsValid (can_be_updated code) c.internal v))

  take_component-IsSafe :
      (req : UpdateComponentRequest) (c : Ctx W)
      → HasNoVendorCode ops
      → req.comp_image_size + 32 < 2 ^ 32
      → IsValid c.internal
      → IsSafe (take_component t req c)
  unfolding take_component
  take_component-IsSafe req c n f v =
      let v' = taken-IsValid (updated_component req) req.update_option_flags c.internal f v in
      let judge = λ (params : FirmwareParameters).
        ops.handle_component (updated_component req) params update_component in
      let c' : Ctx W = record c {
        internal =
            set_update_flags req.update_option_flags
              (set_component (updated_component req) c.internal);
      } in
      call_mut-IsSafe (ops.get_firmware_parms default_params)
        (λ a. call (judge a.1) >>= answer_update_component t req) c' v'
        λ u.
          call-IsSafe (judge (ops.get_firmware_parms default_params c.world).1)
            (answer_update_component t req)
            (record c' { world = (ops.get_firmware_parms default_params c.world).2 }) v'
            λ code e.
              answer_update_component-IsSafe req code _
                (λ q. n.handle_component_code _ _ _ _ (rw q at e)) v'

  answer_activation-IsSafe :
      (req : ActivateFirmwareRequest) (r : ℕ × ℕ) (c : Ctx W)
      → IsValid c.internal
      → IsSafe (answer_activation t req r c)
  answer_activation-IsSafe req (code, time) c v =
      let reply =
        activation_response order FwUpdateCmd.activate_firmware (instance_id req.hdr) code time in
      let activated =
        code == base_code PldmBaseCompletionCode.success
        || code == fw_code FwUpdateCompletionCode.activation_not_required in
      respond-IsSafe (write_to_prefix reply) (λ i. if activated then begin_activate i else i) c
        (write_to_prefix-NoPanic reply c.payload) v (begin_activate-IsValid activated c.internal v)

  activate_image-IsSafe :
      (req : ActivateFirmwareRequest) (c : Ctx W)
      → IsValid c.internal
      → IsSafe (activate_image t req c)
  unfolding activate_image
  activate_image-IsSafe req c v =
      let self = req.self_contained_activation_req in
      elim (Bool-cases (self == 0 || self == 1)) [
        | inl e ↦ rw e (
            call_mut-IsSafe (ops.activate self 0) (answer_activation t req) c v
              λ a. answer_activation-IsSafe req _ _ v)
        | inr e ↦ rw e (refuse-IsSafe (base_code PldmBaseCompletionCode.invalid_data) c v)
      ]

  -- RequestUpdate in a valid state does not panic, whatever its bytes, and the state after it
  -- is valid, in a lawful byte order.
  pub request_update_rsp-IsSafe : (c : Ctx W) → IsValid c.internal → IsSafe (request_update_rsp t c)
  unfolding request_update_rsp
  request_update_rsp-IsSafe c v =
      guard-IsSafe (is_update_mode c.internal)
        (fw_code FwUpdateCompletionCode.already_in_update_mode)
        (set_fd_t1_ts t >> with_request (request_update_request order) (accept_update t)) c v
        (stamp-IsSafe t (with_request (request_update_request order) (accept_update t)) c v
          λ c' p v'.
            with_request-IsSafe (request_update_request order) (accept_update t) c'
              (request_update_request-Total order) v' λ req q. accept_update-IsSafe req c' v')

  pass_request-IsSafe :
      (req : PassComponentTableRequest) (c : Ctx W)
      → IsValid c.internal
      → IsSafe (take_flag t req c)
  pass_request-IsSafe req c v = elim (Result-cases (transfer_resp_try_from req.transfer_flag)) [
    | inl (flag, e) ↦ rw (e, IsSafe, take_flag) (learn_component-IsSafe req flag c v)
    | inr (x, e) ↦
        rw (e, IsSafe, take_flag)
          (refuse-IsSafe (base_code PldmBaseCompletionCode.invalid_data) c v)
  ]

  -- PassComponentTable in a valid state does not panic, whatever its bytes, and the state after
  -- it is valid, in a lawful byte order.
  pub pass_component_rsp-IsSafe : (c : Ctx W) → IsValid c.internal → IsSafe (pass_component_rsp t c)
  unfolding pass_component_rsp
  pass_component_rsp-IsSafe c v =
      guard-IsSafe (not (state_eq c.internal.state learn_components))
        (fw_code FwUpdateCompletionCode.invalid_state_for_command)
        (set_fd_t1_ts t >> with_request (pass_component_request order) (take_flag t)) c v
        (stamp-IsSafe t (with_request (pass_component_request order) (take_flag t)) c v λ c' p v'.
          with_request-IsSafe (pass_component_request order) (take_flag t) c'
            (pass_component_request-Total order) v' λ req q. pass_request-IsSafe req c' v')

  -- UpdateComponent in a valid state does not panic, whatever its bytes, and the state after it
  -- is valid, on a platform that answers with no vendor-defined code and in a lawful byte
  -- order.
  pub update_component_rsp-IsSafe :
      (c : Ctx W)
      → HasNoVendorCode ops
      → AnnouncesFit order c.payload
      → IsValid c.internal
      → IsSafe (update_component_rsp t c)
  unfolding update_component_rsp
  update_component_rsp-IsSafe c n f v =
      guard-IsSafe (not (state_eq c.internal.state ready_xfer))
        (fw_code FwUpdateCompletionCode.invalid_state_for_command)
        (set_fd_t1_ts t >> with_request (update_component_request order) (take_component t)) c v
        (stamp-IsSafe t (with_request (update_component_request order) (take_component t)) c v
          λ c' p v'.
            with_request-IsSafe (update_component_request order) (take_component t) c'
              (update_component_request-Total order) v'
              λ req q. take_component-IsSafe req c' n (f req (rw p at q)) v')

  -- ActivateFirmware in a valid state does not panic, whatever its bytes, and the state after
  -- it is valid, in a lawful byte order.
  pub activate_firmware_rsp-IsSafe :
      (c : Ctx W) → IsValid c.internal → IsSafe (activate_firmware_rsp t c)
  unfolding activate_firmware_rsp
  activate_firmware_rsp-IsSafe c v =
      guard-IsSafe (not (state_eq c.internal.state ready_xfer))
        (fw_code FwUpdateCompletionCode.invalid_state_for_command)
        (with_request activate_firmware_request (activate_image t)) c v
        (with_request-IsSafe activate_firmware_request (activate_image t) c
          activate_firmware_request-Total v λ req q. activate_image-IsSafe req c v)
