-- ===== src/Cmd/Run.antt =====
-- Runs of the whole interface: any sequence of requests, of answers of the update agent, and of
-- calls for the device's own requests, in any order and with any bytes.
use pldm_lib.Base.{
  ℕ, ◌≡◌, refl, List, [], ◌∷◌, Bool, true, false, ◌||◌, arith, inl, inr, Bool-cases,
}
use pldm_lib.Protocol.Base.{PldmSupportedType}
use pldm_lib.Protocol.Update.{FwUpdateCmd, FirmwareDeviceState, idle, verify, apply}
use pldm_lib.Fd.Internal.{FdInternal, state_eq}
use pldm_lib.Fd.Ops.{Target}
use pldm_lib.Fd.Handler.{Ctx, refuse}
use pldm_lib.Fd.Flow.{
  ◌⟶◌, stay, update_requested, table_passed, component_taken, transferred, verified, applied,
  component_cancelled, update_cancelled, activated,
}
use pldm_lib.Fd.Flow.Edges.{
  request_update-Edge, pass_component-Edge, update_component-Edge, activate_firmware-Edge,
  cancel_component-Edge, cancel_update-Edge, handle_response-Edge, fd_progress-Edge,
}
use pldm_lib.Fd.Flow.Queries.{
  query_devid-internal, get_firmware_parameters-internal, activate_pending-internal,
  update_security-internal, get_status-internal,
}
use pldm_lib.Cmd.{
  CmdInterface, fw_update_handler, process_fw_update_cmd, dispatch, serve, process_request,
  generate_initiator_request, process_initiator_response,
}

-- What the transport calls, with the buffer it gives.
pub data Event : Type 0 where
  request response progress : List ℕ → Event

module _ {W : Type 0} (t : Target W) where
  abbrev pub step : Event → CmdInterface W → CmdInterface W
  step (request msg) s = (process_request t s msg).1
  step (response msg) s = (process_initiator_response t s msg).1
  step (progress msg) s = (generate_initiator_request t s msg).1

  abbrev pub run : List Event → CmdInterface W → CmdInterface W
  run [] s = s
  run (e ∷ es) s = run es (step e s)

  same-Edge : (i j : FdInternal) → j ≡ i → i.state ⟶ j.state
  same-Edge i j e = rw e stay

  -- Every update command takes the device along a step of the update flow, or leaves it in its state.
  pub fw_update_handler-Edge :
      (cmd : FwUpdateCmd) (c : Ctx W)
      → c.internal.state ⟶ (fw_update_handler t cmd c).1.internal.state
  unfolding fw_update_handler refuse
  fw_update_handler-Edge FwUpdateCmd.query_device_identifiers c =
      same-Edge c.internal _ (query_devid-internal t c)
  fw_update_handler-Edge FwUpdateCmd.get_firmware_parameters c =
      same-Edge c.internal _ (get_firmware_parameters-internal t c)
  fw_update_handler-Edge FwUpdateCmd.request_update c = request_update-Edge t c
  fw_update_handler-Edge FwUpdateCmd.pass_component_table c = pass_component-Edge t c
  fw_update_handler-Edge FwUpdateCmd.update_component c = update_component-Edge t c
  fw_update_handler-Edge FwUpdateCmd.activate_firmware c = activate_firmware-Edge t c
  fw_update_handler-Edge FwUpdateCmd.cancel_update_component c = cancel_component-Edge t c
  fw_update_handler-Edge FwUpdateCmd.cancel_update c = cancel_update-Edge t c
  fw_update_handler-Edge FwUpdateCmd.update_security_revision c =
      same-Edge c.internal _ (update_security-internal t c)
  fw_update_handler-Edge FwUpdateCmd.get_status c = same-Edge c.internal _ (get_status-internal t c)
  fw_update_handler-Edge FwUpdateCmd.activate_pending_component_image c =
      same-Edge c.internal _ (activate_pending-internal t c)
  fw_update_handler-Edge _ c = stay

  process_fw_update_cmd-Edge :
      (code : ℕ) (c : Ctx W) → c.internal.state ⟶ (process_fw_update_cmd t code c).1.internal.state
  unfolding process_fw_update_cmd refuse
  process_fw_update_cmd-Edge code c = grind (arith, stay, fw_update_handler-Edge)

  dispatch-Edge :
      (kind : PldmSupportedType) (code : ℕ) (s : CmdInterface W) (payload : List ℕ)
      → s.internal.state ⟶ (dispatch t kind code s payload).1.internal.state
  unfolding dispatch
  dispatch-Edge PldmSupportedType.fw_update code s payload = process_fw_update_cmd-Edge code _
  dispatch-Edge _ code s payload = stay

  serve-Edge :
      (s : CmdInterface W) (payload : List ℕ)
      → s.internal.state ⟶ (serve t s payload).1.internal.state
  unfolding serve
  serve-Edge s payload = grind (arith, stay, dispatch-Edge)

  -- One call of the interface, whatever its kind and its bytes, leaves the device in its state
  -- or takes it along one step of the update flow.
  pub step-Edge : (e : Event) (s : CmdInterface W) → s.internal.state ⟶ (step e s).internal.state
  unfolding process_request generate_initiator_request process_initiator_response
  step-Edge (request []) s = grind (arith, stay)
  step-Edge (request (b ∷ payload)) s =
      let e = serve-Edge (record s { busy = true }) payload in grind (arith, stay)
  step-Edge (response msg) s = grind (arith, stay, handle_response-Edge)
  step-Edge (progress msg) s = grind (arith, stay, fd_progress-Edge)

  -- The states that a run passes through, the first one included.
  abbrev pub visits : FirmwareDeviceState → List Event → CmdInterface W → Bool
  visits v [] s = state_eq s.internal.state v
  visits v (e ∷ es) s = state_eq s.internal.state v || visits v es (step e s)

  -- The device is on the way to `Apply`, but has not verified an image.
  abbrev is_before_apply : FirmwareDeviceState → Bool
  is_before_apply verify = false
  is_before_apply apply = false
  is_before_apply _ = true

  not_verified-Edge :
      (a b : FirmwareDeviceState)
      → a ⟶ b
      → is_before_apply a ≡ true
      → state_eq b verify ≡ false
      → is_before_apply b ≡ true
  not_verified-Edge a b stay h n = h
  not_verified-Edge a b update_requested h n = refl
  not_verified-Edge a b table_passed h n = refl
  not_verified-Edge a b component_taken h n = refl
  not_verified-Edge a b transferred h n = ground arith
  not_verified-Edge a b verified h n = ground arith
  not_verified-Edge a b applied h n = refl
  not_verified-Edge a b (component_cancelled e) h n = refl
  not_verified-Edge a b (update_cancelled e) h n = refl
  not_verified-Edge a b activated h n = refl

  first_unvisited :
      (v : FirmwareDeviceState) (es : List Event) (s : CmdInterface W)
      → visits v es s ≡ false
      → state_eq s.internal.state v ≡ false
  first_unvisited v [] s n = n
  first_unvisited v (e ∷ es) s n = ground arith

  not_verified-run :
      (es : List Event) (s : CmdInterface W)
      → is_before_apply s.internal.state ≡ true
      → visits verify es s ≡ false
      → is_before_apply (run es s).internal.state ≡ true
  not_verified-run [] s h n = h
  not_verified-run (e ∷ es) s h n =
      let n' : visits verify es (step e s) ≡ false = ground arith in
      not_verified-run es (step e s)
        (not_verified-Edge _ _ (step-Edge e s) h (first_unvisited verify es (step e s) n')) n'

  -- A run of the interface over any events (requests, answers of the update agent and calls for
  -- the device's own requests, in any order and with any bytes) that starts in `Idle` and ends
  -- in `Apply` has visited `Verify`.
  pub apply-needs-verify :
      (es : List Event) (s : CmdInterface W)
      → s.internal.state ≡ idle
      → (run es s).internal.state ≡ apply
      → visits verify es s ≡ true
  apply-needs-verify es s i a = elim (Bool-cases (visits verify es s)) [
    | inl e ↦ e
    | inr e ↦ let h = not_verified-run es s (rw i refl) e in ground arith
  ]
