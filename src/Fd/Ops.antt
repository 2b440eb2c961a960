-- ===== src/Fd/Ops.antt =====
-- The callbacks of the platform, the trait `FdOps` of
-- `pldm-interface/src/firmware_device/fd_ops.rs`, which this repository does not implement. `World`
-- is what they keep between calls. A `&mut` argument is given by its old value, and comes back
-- beside the result whether the call succeeds or not.
use pldm_lib.Base.{◌+◌, ◌%◌, ◌^◌, ◌<◌, ℕ, ◌≤◌, ◌≡◌, ◌≢◌, Bool, List, Result, length}
use pldm_lib.Protocol.Error.{FdOpsError}
use pldm_lib.Protocol.Results.{
  ComponentResponseCode, TransferResult, VerifyResult, ApplyResult,
  NonFunctioningComponentIndication,
}
use pldm_lib.Message.Short.{ComponentKey, PendingComponentResult, SecurityRevisionResult}
use pldm_lib.Message.Str.{FirmwareComponent, FirmwareParameters}
use pldm_lib.Message.Device.{Descriptor}
use pldm_lib.Codec.Order.{ByteOrder}

pub data ComponentOperation : Type 0 where
  pass_component update_component : ComponentOperation

abbrev pub OpsResult : Type 0 → Type 0
OpsResult A = Result FdOpsError A

pub record FdOps (World : Type 0) : Type 0 where
  pub get_device_identifiers : List Descriptor → World → OpsResult ℕ × List Descriptor × World
  pub get_firmware_parms :
      FirmwareParameters → World → OpsResult (Unit {0}) × FirmwareParameters × World
  pub get_xfer_size : ℕ → World → OpsResult ℕ × World
  pub handle_component :
      FirmwareComponent
      → FirmwareParameters
      → ComponentOperation
      → World
      → OpsResult ComponentResponseCode × World
  pub query_download_offset_and_length : FirmwareComponent → World → OpsResult (ℕ × ℕ) × World
  pub download_fw_data : ℕ → List ℕ → FirmwareComponent → World → OpsResult TransferResult × World
  pub is_download_complete : FirmwareComponent → World → Bool × World
  pub query_download_progress : FirmwareComponent → ℕ → World → OpsResult (Unit {0}) × ℕ × World
  pub verify : FirmwareComponent → ℕ → World → OpsResult VerifyResult × ℕ × World
  pub apply : FirmwareComponent → ℕ → World → OpsResult ApplyResult × ℕ × World
  pub activate : ℕ → ℕ → World → OpsResult ℕ × ℕ × World
  pub cancel_update_component : FirmwareComponent → World → OpsResult (Unit {0}) × World
  pub handle_pending_component :
      ComponentKey → FirmwareParameters → World → OpsResult PendingComponentResult × World
  pub get_non_functional_component_info :
      World → OpsResult (NonFunctioningComponentIndication × ℕ) × World
  pub update_security_revision :
      ComponentKey → FirmwareParameters → World → OpsResult SecurityRevisionResult × World
  pub now : World → ℕ × World

-- The target that the library is built for: its byte order, and the platform's callbacks.
pub record Target (World : Type 0) : Type 0 where
  pub order : ByteOrder
  pub ops : FdOps World

-- What the types of the trait promise: a `ProgressPercent` is made by `new` and `set_value` alone,
-- which keep it at most 101, and a slice keeps its length.
pub record IsTyped {World : Type 0} (o : FdOps World) : Type 0 where
  pub devids_length :
      (ds : List Descriptor) (w : World) → length (o.get_device_identifiers ds w).1 ≡ length ds
  pub verify_percent :
      (c : FirmwareComponent) (p : ℕ) (w : World) → p ≤ 101 → (o.verify c p w).1 ≤ 101
  pub apply_percent :
      (c : FirmwareComponent) (p : ℕ) (w : World) → p ≤ 101 → (o.apply c p w).1 ≤ 101

-- The chunk that the platform asks for ends below 2 ^ 32.
pub record HasShortChunks {World : Type 0} (o : FdOps World) : Type 0 where
  pub chunk_end :
      (c : FirmwareComponent) (w : World) (r : ℕ × ℕ)
      → (o.query_download_offset_and_length c w).0 ≡ Result.ok r
      → r.0 % 2 ^ 32 + r.1 % 2 ^ 32 < 2 ^ 32

-- The platform answers with no vendor-defined code.
pub record HasNoVendorCode {World : Type 0} (o : FdOps World) : Type 0 where
  pub handle_component_code :
      (c : FirmwareComponent) (p : FirmwareParameters) (op : ComponentOperation) (w : World)
      → (o.handle_component c p op w).0 ≢ Result.ok ComponentResponseCode.vendor_defined
  pub download_code :
      (offset : ℕ) (bytes : List ℕ) (c : FirmwareComponent) (w : World)
      → (o.download_fw_data offset bytes c w).0 ≢ Result.ok TransferResult.vendor_defined
