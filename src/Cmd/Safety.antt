-- ===== src/Cmd/Safety.antt =====
-- No handler that `CmdInterface` calls panics, and each leaves the device's state valid and the
-- capability table served.
use pldm_lib.Base.{
  ℕ, ◌≡◌, refl, sym, ap, ◌∙◌, List, [], ◌∷◌, true, ok, err, panic, All, arith, Bool-cases,
  Result-cases, inl, inr, subst,
}
use pldm_lib.Protocol.Base.{
  PldmSupportedType, base, fw_update, control_cmd_try_from, PldmControlCmd,
}
use pldm_lib.Protocol.Update.{FwUpdateCmd, fw_update_cmd_code, fw_update_cmd_try_from}
use pldm_lib.Protocol.Codes.{fw_update_cmd-inverse}
use pldm_lib.Fd.Ops.{Target}
use pldm_lib.Fd.Handler.{Ctx, Answer}
use pldm_lib.Fd.Invariant.{IsValid, IsSafe}
use pldm_lib.Fd.Invariant.Rules.{refuse-IsSafe}
use pldm_lib.Fd.Invariant.Queries.{query_devid_rsp-IsSafe, get_firmware_parameters_rsp-IsSafe}
use pldm_lib.Fd.Invariant.Answers.{
  AnnouncesFit, request_update_rsp-IsSafe, pass_component_rsp-IsSafe, update_component_rsp-IsSafe,
  activate_firmware_rsp-IsSafe,
}
use pldm_lib.Fd.Invariant.Services.{
  activate_pending_rsp-IsSafe, update_security_rsp-IsSafe, cancel_update_component_rsp-IsSafe,
  cancel_update_rsp-IsSafe, get_status_rsp-IsSafe,
}
use pldm_lib.Control.{ControlContext, ProtocolCapability, type_eq, any_cap, is_supported_type}
use pldm_lib.Control.Responder.{ControlAnswer}
use pldm_lib.Control.Safety.{
  Keeps, HasByteCommands, control_refuse-Keeps, get_tid_rsp-Keeps, set_tid_rsp-Keeps,
  get_pldm_types_rsp-Keeps, get_pldm_commands_rsp-Keeps, get_pldm_version_rsp-Keeps,
}
use pldm_lib.Cmd.{
  CmdInterface, process_control_cmd, fw_update_handler, process_fw_update_cmd, dispatch, context,
  after,
}
use pldm_lib.Cmd.Platform.{IsPlatform, IsServed, IsTable, Handles}

same_type : (a b : PldmSupportedType) → type_eq a b ≡ true → a ≡ b
same_type a b h = ground arith

supported-IsServed :
    (k : PldmSupportedType) (caps : List ProtocolCapability)
    → All (λ cap. IsServed cap.pldm_type) caps
    → any_cap (λ cap. type_eq cap.pldm_type k) caps ≡ true
    → IsServed k
unfolding any_cap
supported-IsServed k [] h e = ground arith
supported-IsServed k (c ∷ cs) h e = elim (Bool-cases (type_eq c.pldm_type k)) [
  | inl q ↦ subst IsServed (same_type c.pldm_type k q) h.0
  | inr q ↦ supported-IsServed k cs h.1 (rw q at e)
]

pub type-IsServed :
    (kind : PldmSupportedType) (ctx : ControlContext)
    → IsTable ctx.capabilities
    → is_supported_type kind ctx ≡ true
    → IsServed kind
unfolding is_supported_type
type-IsServed kind ctx h e = supported-IsServed kind ctx.capabilities h.served e

module _ {W : Type 0} (t : Target W) (p : IsPlatform t) where
  open t use {order, ops}

  control-Keeps :
      (code : ℕ) (ctx : ControlContext) (payload : List ℕ)
      → HasByteCommands ctx.capabilities
      → Keeps ctx.capabilities (process_control_cmd t code ctx payload)
  unfolding process_control_cmd
  control-Keeps code ctx payload h = elim (Result-cases (control_cmd_try_from code)) [
    | inl (PldmControlCmd.get_tid, e) ↦
        rw (e, Keeps, process_control_cmd) (get_tid_rsp-Keeps ctx payload)
    | inl (PldmControlCmd.set_tid, e) ↦
        rw (e, Keeps, process_control_cmd) (set_tid_rsp-Keeps ctx payload)
    | inl (PldmControlCmd.get_pldm_types, e) ↦
        rw (e, Keeps, process_control_cmd) (get_pldm_types_rsp-Keeps ctx payload)
    | inl (PldmControlCmd.get_pldm_commands, e) ↦
        rw (e, Keeps, process_control_cmd) (get_pldm_commands_rsp-Keeps order ctx payload h)
    | inl (PldmControlCmd.get_pldm_version, e) ↦
        rw (e, Keeps, process_control_cmd) (get_pldm_version_rsp-Keeps order ctx payload)
    | inr (x, e) ↦ rw (e, Keeps, process_control_cmd) (control_refuse-Keeps _ ctx payload)
  ]

  -- No handler of an update command panics in a valid state, and the state after it is valid,
  -- when the platform keeps to `IsPlatform` and an UpdateComponent request announces an image
  -- that ends, with its padding, below 2 ^ 32.
  pub fw_update_handler-IsSafe :
      (cmd : FwUpdateCmd) (c : Ctx W)
      → (cmd ≡ FwUpdateCmd.update_component → AnnouncesFit order c.payload)
      → IsValid c.internal
      → IsSafe (fw_update_handler t cmd c)
  unfolding fw_update_handler
  fw_update_handler-IsSafe FwUpdateCmd.query_device_identifiers c f v =
      query_devid_rsp-IsSafe t p.law c p.typed p.tables v
  fw_update_handler-IsSafe FwUpdateCmd.get_firmware_parameters c f v =
      get_firmware_parameters_rsp-IsSafe t p.law c p.tables v
  fw_update_handler-IsSafe FwUpdateCmd.request_update c f v = request_update_rsp-IsSafe t p.law c v
  fw_update_handler-IsSafe FwUpdateCmd.pass_component_table c f v =
      pass_component_rsp-IsSafe t p.law c v
  fw_update_handler-IsSafe FwUpdateCmd.update_component c f v =
      update_component_rsp-IsSafe t p.law c p.no_vendor (f refl) v
  fw_update_handler-IsSafe FwUpdateCmd.activate_firmware c f v =
      activate_firmware_rsp-IsSafe t p.law c v
  fw_update_handler-IsSafe FwUpdateCmd.cancel_update_component c f v =
      cancel_update_component_rsp-IsSafe t c v
  fw_update_handler-IsSafe FwUpdateCmd.cancel_update c f v = cancel_update_rsp-IsSafe t c v
  fw_update_handler-IsSafe FwUpdateCmd.update_security_revision c f v =
      update_security_rsp-IsSafe t c v
  fw_update_handler-IsSafe FwUpdateCmd.get_status c f v = get_status_rsp-IsSafe t c v
  fw_update_handler-IsSafe FwUpdateCmd.activate_pending_component_image c f v =
      activate_pending_rsp-IsSafe t c v
  fw_update_handler-IsSafe _ c f v = refuse-IsSafe _ c v

  process_fw_update_cmd-IsSafe :
      (code : ℕ) (c : Ctx W)
      → (code ≡ fw_update_cmd_code FwUpdateCmd.update_component → AnnouncesFit order c.payload)
      → IsValid c.internal
      → IsSafe (process_fw_update_cmd t code c)
  unfolding process_fw_update_cmd
  process_fw_update_cmd-IsSafe code c f v = elim (Result-cases (fw_update_cmd_try_from code)) [
    | inl (cmd, e) ↦
        let inverse = fw_update_cmd-inverse code cmd e in
        rw (e, IsSafe, process_fw_update_cmd)
          (fw_update_handler-IsSafe cmd c (λ q. f (sym inverse ∙ ap fw_update_cmd_code q)) v)
    | inr (x, e) ↦ rw (e, IsSafe, process_fw_update_cmd) (refuse-IsSafe _ c v)
  ]

  kept-Handles :
      (r : ControlAnswer) (s : CmdInterface W)
      → Keeps s.ctrl_ctx.capabilities r
      → IsValid s.internal
      → IsTable s.ctrl_ctx.capabilities
      → Handles (r.0, record s { ctrl_ctx = r.1 }, r.2)
  kept-Handles (ok n, ctx, payload) s k v h = (v, subst IsTable (sym k) h)
  kept-Handles (err e, ctx, payload) s k v h = (v, subst IsTable (sym k) h)
  kept-Handles (panic, ctx, payload) s k v h = k

  pub safe-Handles :
      {A B : Type 0} (r : Answer A × Ctx W) (s : CmdInterface W) (x : B)
      → IsSafe r
      → IsTable s.ctrl_ctx.capabilities
      → Handles (r.0, after t s r.1, x)
  safe-Handles (ok n, c) s x k h = (k, h)
  safe-Handles (err e, c) s x k h = (k, h)
  safe-Handles (panic, c) s x k h = k

  pub dispatch-Handles :
      (kind : PldmSupportedType) (code : ℕ) (s : CmdInterface W) (payload : List ℕ)
      → IsServed kind
      → IsValid s.internal
      → IsTable s.ctrl_ctx.capabilities
      → (code ≡ fw_update_cmd_code FwUpdateCmd.update_component → AnnouncesFit order payload)
      → Handles (dispatch t kind code s payload)
  unfolding dispatch
  dispatch-Handles base code s payload served v h f =
      kept-Handles (process_control_cmd t code s.ctrl_ctx payload) s
        (control-Keeps code s.ctrl_ctx payload h.commands) v h
  dispatch-Handles fw_update code s payload served v h f =
      let r = process_fw_update_cmd t code (context t s payload) in
      safe-Handles r s r.1.payload (process_fw_update_cmd-IsSafe code (context t s payload) f v) h
  dispatch-Handles _ code s payload served v h f = absurd served
