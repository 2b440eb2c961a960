-- ===== src/Fd/Flow/Queries.antt =====
-- The commands of `fd_context.rs` that only ask: inventory, status, and the commands on components
-- outside an update.
use pldm_lib.Base.{ℕ, ◌≡◌, refl, List, [], ◌∷◌, arith}
use pldm_lib.Protocol.Header.{PldmMsgHeader}
use pldm_lib.Protocol.Update.{FirmwareDeviceState}
use pldm_lib.Message.Device.{Descriptor}
use pldm_lib.Fd.Internal.{FdInternal}
use pldm_lib.Fd.Ops.{Target}
use pldm_lib.Fd.Handler.{Ctx, refuse}
use pldm_lib.Fd.Responder.{answer_devid, query_devid_rsp, get_firmware_parameters_rsp}
use pldm_lib.Fd.Service.{
  activate_pending_component_image_rsp, update_security_revision_rsp, status_percent,
  get_status_rsp,
}

module _ {W : Type 0} (t : Target W) where
  answer_devid-internal :
      (hdr : PldmMsgHeader) (n : ℕ) (ds : List Descriptor) (c : Ctx W)
      → (answer_devid t hdr n ds c).1.internal ≡ c.internal
  unfolding answer_devid refuse
  answer_devid-internal hdr n [] c = refl
  answer_devid-internal hdr n (d ∷ ds) c = ground arith

  pub query_devid-internal : (c : Ctx W) → (query_devid_rsp t c).1.internal ≡ c.internal
  unfolding query_devid_rsp refuse
  query_devid-internal c = grind (arith, answer_devid-internal)

  pub get_firmware_parameters-internal :
      (c : Ctx W) → (get_firmware_parameters_rsp t c).1.internal ≡ c.internal
  unfolding get_firmware_parameters_rsp refuse
  get_firmware_parameters-internal c = ground arith

  pub activate_pending-internal :
      (c : Ctx W) → (activate_pending_component_image_rsp t c).1.internal ≡ c.internal
  unfolding activate_pending_component_image_rsp refuse
  activate_pending-internal c = ground arith

  pub update_security-internal :
      (c : Ctx W) → (update_security_revision_rsp t c).1.internal ≡ c.internal
  unfolding update_security_revision_rsp refuse
  update_security-internal c = ground arith

  status_percent-internal :
      (s : FirmwareDeviceState) (i : FdInternal) (c : Ctx W)
      → (status_percent t s i c).1.internal ≡ c.internal
  unfolding status_percent
  status_percent-internal s i c = ground arith

  pub get_status-internal : (c : Ctx W) → (get_status_rsp t c).1.internal ≡ c.internal
  unfolding get_status_rsp refuse
  get_status-internal c =
      let e = status_percent-internal c.internal.state c.internal c in ground arith
