-- ===== src/Transfer/Requests.antt =====
-- The requests of a multipart transfer. The five types of the source have the same packed layout:
-- header, transfer handle, operation flag.
use pldm_lib.Base.{ℕ, ◌^◌, ◌≤◌, ◌<◌, ◌≡◌, List, [], ◌∷◌, ◌++◌, length, length-append}
use pldm_lib.Protocol.Base.{fw_update, PldmMsgType, TransferOperationFlag, transfer_operation_code}
use pldm_lib.Protocol.Update.{FwUpdateCmd, fw_update_cmd_code}
use pldm_lib.Protocol.Header.{PldmMsgHeader, header_bytes, new_header}
use pldm_lib.Codec.{Reader, CodecResult, Written, ◌>>=◌, pure, header, byte, int, write_to_prefix}
use pldm_lib.Codec.Order.{ByteOrder, IsByteOrder}
use pldm_lib.Codec.Round.{Reads, Reads-header, Reads-byte, Reads-int, Reads-pure}
use pldm_lib.Codec.Writes.{RoundTrip, write-round}

pub record TransferRequest : Type 0 where
  pub hdr : PldmMsgHeader
  pub data_transfer_handle : ℕ
  pub transfer_operation_flag : ℕ

abbrev new_request : FwUpdateCmd → ℕ → ℕ → TransferOperationFlag → TransferRequest
new_request cmd id handle flag = record {
  hdr = new_header id PldmMsgType.request fw_update (fw_update_cmd_code cmd);
  data_transfer_handle = handle;
  transfer_operation_flag = transfer_operation_code flag;
}

unfoldable pub new_package_data_request : ℕ → ℕ → TransferOperationFlag → TransferRequest
new_package_data_request = new_request FwUpdateCmd.get_package_data

unfoldable pub new_device_meta_data_request : ℕ → ℕ → TransferOperationFlag → TransferRequest
new_device_meta_data_request = new_request FwUpdateCmd.get_device_meta_data

unfoldable pub new_meta_data_request : ℕ → ℕ → TransferOperationFlag → TransferRequest
new_meta_data_request = new_request FwUpdateCmd.get_meta_data

unfoldable pub new_identifiers_request : ℕ → ℕ → TransferOperationFlag → TransferRequest
new_identifiers_request = new_request FwUpdateCmd.query_downstream_identifiers

unfoldable pub new_parameters_request : ℕ → ℕ → TransferOperationFlag → TransferRequest
new_parameters_request = new_request FwUpdateCmd.get_downstream_firmware_parameters

module _ (bo : ByteOrder) where
  open bo use {write_int}

  unfoldable pub transfer_request : Reader TransferRequest
  transfer_request = do
    hdr ← header
    handle ← int bo 4
    flag ← byte
    pure (record { hdr = hdr; data_transfer_handle = handle; transfer_operation_flag = flag })

  unfoldable pub transfer_request_bytes : TransferRequest → List ℕ
  transfer_request_bytes r =
      header_bytes r.hdr ++ (write_int 4 r.data_transfer_handle ++ r.transfer_operation_flag ∷ [])

  unfoldable pub encode_transfer_request : TransferRequest → List ℕ → CodecResult Written
  unfolding transfer_request_bytes write_to_prefix
  encode_transfer_request r = write_to_prefix (transfer_request_bytes r)

module _ (bo : ByteOrder) (law : IsByteOrder bo) where
  transfer_request-Reads :
      (r : TransferRequest)
      → r.data_transfer_handle < 256 ^ 4
      → Reads (transfer_request bo) r (transfer_request_bytes bo r)
  unfolding transfer_request transfer_request_bytes
  transfer_request-Reads r h = Reads-header _ r.hdr _ _ (
      Reads-int bo law _ 4 r.data_transfer_handle _ _ h
        (Reads-byte _ r.transfer_operation_flag _ _ (Reads-pure _)))

  length-transfer_request : (r : TransferRequest) → length (transfer_request_bytes bo r) ≡ 8
  unfolding transfer_request_bytes header_bytes
  length-transfer_request r = simp (length-append, law.length-write)

  pub transfer_request-round :
      (r : TransferRequest) (buffer : List ℕ)
      → r.data_transfer_handle < 256 ^ 4
      → 8 ≤ length buffer
      → RoundTrip (transfer_request bo) r 8 (encode_transfer_request bo r buffer)
  unfolding encode_transfer_request
  transfer_request-round r buffer h room =
      write-round (transfer_request bo) r (transfer_request_bytes bo r) buffer 8
        (transfer_request-Reads r h) (length-transfer_request r) room
