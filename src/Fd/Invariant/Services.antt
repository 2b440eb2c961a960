-- ===== src/Fd/Invariant/Services.antt =====
-- Safety of the commands of `fd_context.rs` outside the update flow, of cancellation and of status.
use pldm_lib.Base.{
  ℕ, Bool, true, false, arith, Bool-cases, inl, inr, Option-cases, not, ◌==◌, if◌then◌else◌,
}
use pldm_lib.Protocol.Base.{PldmBaseCompletionCode}
use pldm_lib.Protocol.Update.{FwUpdateCmd, FwUpdateCompletionCode, idle, ready_xfer}
use pldm_lib.Protocol.Results.{GetStatusReasonCode}
use pldm_lib.Protocol.Header.{PldmMsgHeader, instance_id}
use pldm_lib.Codec.{write_to_prefix}
use pldm_lib.Message.Short.{
  fw_response_header, header_request, failure_bytes, ComponentKeyRequest, component_key_request,
  pending_response, security_revision_code, cancel_update_response,
}
use pldm_lib.Message.Str.{FirmwareParameters, default_params, FirmwareComponent}
use pldm_lib.Fd.Internal.{FdInternal, state_eq, is_update_mode, set_fd_state, set_fd_idle}
use pldm_lib.Fd.Ops.{Target}
use pldm_lib.Fd.Handler.{Ctx, Handler, ◌>>=◌, ◌>>◌, call, refuse, with_request}
use pldm_lib.Fd.Responder.{base_code, fw_code, set_fd_t1_ts}
use pldm_lib.Fd.Service.{
  unchanged, downstream_device, component_command_params, key_of, answer_pending, activate_pending,
  activate_pending_component_image_rsp, answer_security, revise_security,
  update_security_revision_rsp, cancel_if, cancel_code, answer_cancel_component, cancel_component,
  cancel_update_component_rsp, answer_cancel_update, cancel_all, cancel_update_rsp,
  should_cancel_component, should_cancel_update, status_percent, status_of, answer_status,
  get_status_rsp,
}
use pldm_lib.Fd.Invariant.{IsValid, IsSafe, IsSafe-bind, IsSafe-ok}
use pldm_lib.Fd.Invariant.Encoders.{
  header_request-Total, component_key_request-Total, write_to_prefix-NoPanic,
}
use pldm_lib.Fd.Invariant.Rules.{
  refuse-IsSafe, with_request-IsSafe, respond-IsSafe, guard-IsSafe, call-IsSafe, call_mut-IsSafe,
  stamp-IsSafe,
}

cancelled-IsValid :
    (b : Bool) (i : FdInternal) → IsValid i → IsValid (if b then set_fd_state ready_xfer i else i)
unfolding set_fd_state
cancelled-IsValid b i v = ground arith

idled-IsValid :
    (b : Bool) (i : FdInternal)
    → IsValid i
    → IsValid (if b then set_fd_idle GetStatusReasonCode.cancel_update i else i)
unfolding set_fd_idle
idled-IsValid b i v = ground arith

module _ {W : Type 0} (t : Target W) where
  open t use {order, ops}

  command_params-IsSafe :
      (classification : ℕ) (k : FirmwareParameters → Handler W ℕ) (c : Ctx W)
      → IsValid c.internal
      → ((p : FirmwareParameters) (c' : Ctx W) → IsValid c'.internal → IsSafe (k p c'))
      → IsSafe (component_command_params t classification k c)
  unfolding component_command_params
  command_params-IsSafe classification k c v h =
      elim (Bool-cases (classification == downstream_device)) [
        | inl e ↦ rw (e, IsSafe) (refuse-IsSafe (base_code PldmBaseCompletionCode.invalid_data) c v)
        | inr e ↦
            rw (e, IsSafe)
              (call_mut-IsSafe (ops.get_firmware_parms default_params) (λ a. k a.1) c v
                λ u. h _ _ v)
      ]

  activate_pending-IsSafe :
      (req : ComponentKeyRequest) (p : FirmwareParameters) (c : Ctx W)
      → IsValid c.internal
      → IsSafe (activate_pending t req p c)
  activate_pending-IsSafe req p c v =
      call-IsSafe (ops.handle_pending_component (key_of t req) p) (answer_pending t req) c v λ r e.
        respond-IsSafe (write_to_prefix (pending_response order r (instance_id req.hdr))) unchanged
          (record c { world = (ops.handle_pending_component (key_of t req) p c.world).1 })
          (write_to_prefix-NoPanic (pending_response order r (instance_id req.hdr)) c.payload) v v

  revise_security-IsSafe :
      (req : ComponentKeyRequest) (p : FirmwareParameters) (c : Ctx W)
      → IsValid c.internal
      → IsSafe (revise_security t req p c)
  revise_security-IsSafe req p c v =
      call-IsSafe (ops.update_security_revision (key_of t req) p) (answer_security t req) c v λ r e.
        let reply = failure_bytes (record {
          hdr = fw_response_header (instance_id req.hdr) FwUpdateCmd.update_security_revision;
          completion_code = security_revision_code r;
        }) in
        respond-IsSafe (write_to_prefix reply) unchanged
          (record c { world = (ops.update_security_revision (key_of t req) p c.world).1 })
          (write_to_prefix-NoPanic reply c.payload) v v

  -- Both commands that name a component.
  key_request-IsSafe :
      (k : ComponentKeyRequest → FirmwareParameters → Handler W ℕ) (c : Ctx W)
      → IsValid c.internal
      → ((req : ComponentKeyRequest) (p : FirmwareParameters) (c' : Ctx W)
          → IsValid c'.internal
          → IsSafe (k req p c'))
      → IsSafe (
          (if not (state_eq c.internal.state idle)
              then refuse (fw_code FwUpdateCompletionCode.invalid_state_for_command)
              else with_request
                  (component_key_request order)
                  λ req. component_command_params t req.comp_classification (k req))
            c)
  key_request-IsSafe k c v h =
      let rest =
        λ (req : ComponentKeyRequest). component_command_params t req.comp_classification (k req) in
      guard-IsSafe (not (state_eq c.internal.state idle))
        (fw_code FwUpdateCompletionCode.invalid_state_for_command)
        (with_request (component_key_request order) rest) c v
        (with_request-IsSafe (component_key_request order) rest c
          (component_key_request-Total order) v
          λ req q. command_params-IsSafe req.comp_classification (k req) c v (h req))

  -- ActivatePendingComponentImage in a valid state does not panic, whatever its bytes, and the
  -- state after it is valid.
  pub activate_pending_rsp-IsSafe :
      (c : Ctx W) → IsValid c.internal → IsSafe (activate_pending_component_image_rsp t c)
  unfolding activate_pending_component_image_rsp
  activate_pending_rsp-IsSafe c v =
      key_request-IsSafe (activate_pending t) c v activate_pending-IsSafe

  -- UpdateSecurityRevision in a valid state does not panic, whatever its bytes, and the state
  -- after it is valid.
  pub update_security_rsp-IsSafe :
      (c : Ctx W) → IsValid c.internal → IsSafe (update_security_revision_rsp t c)
  unfolding update_security_revision_rsp
  update_security_rsp-IsSafe c v = key_request-IsSafe (revise_security t) c v revise_security-IsSafe

  -- The platform is told of a cancelled component, or not, and the rest of the handler runs.
  cancel_if-IsSafe :
      (b : Bool) (comp : FirmwareComponent) (m : Handler W ℕ) (c : Ctx W)
      → IsValid c.internal
      → ((c' : Ctx W) → IsValid c'.internal → IsSafe (m c'))
      → IsSafe ((cancel_if t b comp >> m) c)
  cancel_if-IsSafe true comp m c v h =
      call-IsSafe (ops.cancel_update_component comp) (λ u. m) c v λ a e. h _ v
  cancel_if-IsSafe false comp m c v h = h c v

  cancel_component-IsSafe :
      (b : Bool) (c : Ctx W) → IsValid c.internal → IsSafe (cancel_component t b c)
  unfolding cancel_component
  cancel_component-IsSafe b c v =
      cancel_if-IsSafe b c.internal.update_comp
        (with_request header_request (answer_cancel_component t b)) c v
        λ c' v'.
          with_request-IsSafe header_request (answer_cancel_component t b) c' header_request-Total
            v'
            λ hdr q.
              let reply = failure_bytes (record {
                hdr = fw_response_header (instance_id hdr) FwUpdateCmd.cancel_update_component;
                completion_code = cancel_code t b;
              }) in
              respond-IsSafe (write_to_prefix reply)
                (λ i. if b then set_fd_state ready_xfer i else i) c'
                (write_to_prefix-NoPanic reply c'.payload) v' (cancelled-IsValid b c'.internal v')

  -- CancelUpdateComponent in a valid state does not panic, whatever its bytes, and the state
  -- after it is valid.
  pub cancel_update_component_rsp-IsSafe :
      (c : Ctx W) → IsValid c.internal → IsSafe (cancel_update_component_rsp t c)
  unfolding cancel_update_component_rsp
  cancel_update_component_rsp-IsSafe c v = elim (Bool-cases (not (is_update_mode c.internal))) [
    | inl e ↦ rw (e, IsSafe) (refuse-IsSafe (fw_code FwUpdateCompletionCode.not_in_update_mode) c v)
    | inr e ↦ elim (Option-cases (should_cancel_component c.internal.state c.internal.req)) [
      | inl q ↦
          rw (e, q, IsSafe)
            (refuse-IsSafe (fw_code FwUpdateCompletionCode.invalid_state_for_command) c v)
      | inr (b, q) ↦ rw (e, q, IsSafe) (cancel_component-IsSafe b c v)
    ]
  ]

  cancel_all-IsSafe : (b : Bool) (c : Ctx W) → IsValid c.internal → IsSafe (cancel_all t b c)
  unfolding cancel_all
  cancel_all-IsSafe b c v =
      let rest = λ (hdr : PldmMsgHeader).
        call ops.get_non_functional_component_info >>= answer_cancel_update t b hdr in
      cancel_if-IsSafe b c.internal.update_comp (with_request header_request rest) c v λ c' v'.
        with_request-IsSafe header_request rest c' header_request-Total v' λ hdr q.
          call-IsSafe ops.get_non_functional_component_info (answer_cancel_update t b hdr) c' v'
            λ r e.
              let reply =
                cancel_update_response order (instance_id hdr) (cancel_code t b) r.0 r.1 in
              respond-IsSafe (write_to_prefix reply)
                (λ i. if b then set_fd_idle GetStatusReasonCode.cancel_update i else i)
                (record c' { world = (ops.get_non_functional_component_info c'.world).1 })
                (write_to_prefix-NoPanic reply c'.payload) v' (idled-IsValid b c'.internal v')

  -- CancelUpdate in a valid state does not panic, whatever its bytes, and the state after it is
  -- valid.
  pub cancel_update_rsp-IsSafe : (c : Ctx W) → IsValid c.internal → IsSafe (cancel_update_rsp t c)
  unfolding cancel_update_rsp
  cancel_update_rsp-IsSafe c v =
      let b = should_cancel_update c.internal.state c.internal.req in
      guard-IsSafe (not (is_update_mode c.internal))
        (fw_code FwUpdateCompletionCode.not_in_update_mode) (set_fd_t1_ts t >> cancel_all t b) c v
        (stamp-IsSafe t (cancel_all t b) c v λ c' p. cancel_all-IsSafe b c')

  status_percent-IsSafe :
      (c : Ctx W) → IsValid c.internal → IsSafe (status_percent t c.internal.state c.internal c)
  unfolding status_percent
  status_percent-IsSafe c v = ground arith

  status-IsSafe :
      (hdr : PldmMsgHeader) (c : Ctx W)
      → IsValid c.internal
      → IsSafe ((status_percent t c.internal.state c.internal >>= answer_status t hdr c.internal) c)
  status-IsSafe hdr c v =
      let r = status_percent t c.internal.state c.internal c in
      let h = status_percent-IsSafe c v in
      IsSafe-bind (status_percent t c.internal.state c.internal) (answer_status t hdr c.internal) c
        h
        λ p e.
          let v' = IsSafe-ok r e h in
          respond-IsSafe (write_to_prefix (status_of t hdr c.internal p)) unchanged r.1
            (write_to_prefix-NoPanic (status_of t hdr c.internal p) r.1.payload) v' v'

  -- GetStatus in a valid state does not panic, whatever its bytes, and the state after it is
  -- valid.
  pub get_status_rsp-IsSafe : (c : Ctx W) → IsValid c.internal → IsSafe (get_status_rsp t c)
  unfolding get_status_rsp
  get_status_rsp-IsSafe c v =
      with_request-IsSafe header_request
        (λ hdr. status_percent t c.internal.state c.internal >>= answer_status t hdr c.internal) c
        header_request-Total v λ hdr q. status-IsSafe hdr c v
