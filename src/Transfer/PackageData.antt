-- ===== src/Transfer/PackageData.antt =====
-- `GetPackageDataResponse` of `get_package_data.rs`, which copies its portion into an array, with the
-- completion codes that `pldm_completion_code!` of `protocol/base.rs` makes for it.
pub mod Round
use pldm_lib.Base.{
  ℕ, ◌+◌, ◌-◌, List, [], ◌∷◌, ◌++◌, Result, ok, err, panic, ltb, leb, if◌then◌else◌, length,
  replicate, ◌>>=◌ as then_do,
}
use pldm_lib.Protocol.Base.{
  fw_update, PldmMsgType, PldmBaseCompletionCode, base_completion_code, base_completion_try_from,
  TransferOperationFlag, transfer_operation_code, transfer_operation_try_from,
}
use pldm_lib.Protocol.Update.{
  FwUpdateCmd, fw_update_cmd_code, FwUpdateCompletionCode, fw_completion_code,
  fw_completion_try_from,
}
use pldm_lib.Protocol.Error.{PldmError, PldmCodecError, buffer_too_short}
use pldm_lib.Protocol.Header.{PldmMsgHeader, instance_id, header_bytes, new_header}
use pldm_lib.Codec.{
  Reader, CodecResult, Written, Cursor, ◌>>=◌, pure, fail, header, byte, int, put, finish, decode,
}
use pldm_lib.Codec.Order.{ByteOrder, little_endian}
use pldm_lib.Message.Device.{start, done_writing, put_prefix}
use pldm_lib.Transfer.Portion.{portion_offset, all_left}

pub data GetPackageDataCode : Type 0 where
  base_codes : PldmBaseCompletionCode → GetPackageDataCode
  command_not_expected no_package_data invalid_transfer_handle : GetPackageDataCode
  invalid_transfer_operation_flag : GetPackageDataCode

abbrev pub package_data_code : GetPackageDataCode → ℕ
package_data_code (base_codes code) = base_completion_code code
package_data_code command_not_expected =
    fw_completion_code FwUpdateCompletionCode.command_not_expected
package_data_code no_package_data = fw_completion_code FwUpdateCompletionCode.no_package_data
package_data_code invalid_transfer_handle =
    fw_completion_code FwUpdateCompletionCode.invalid_transfer_handle
package_data_code invalid_transfer_operation_flag =
    fw_completion_code FwUpdateCompletionCode.invalid_transfer_operation_flag

abbrev pub own_code : FwUpdateCompletionCode → Result PldmError GetPackageDataCode
own_code FwUpdateCompletionCode.command_not_expected = Result.ok command_not_expected
own_code FwUpdateCompletionCode.no_package_data = Result.ok no_package_data
own_code FwUpdateCompletionCode.invalid_transfer_handle = Result.ok invalid_transfer_handle
own_code FwUpdateCompletionCode.invalid_transfer_operation_flag =
    Result.ok invalid_transfer_operation_flag
own_code _ = Result.err PldmError.invalid_completion_code

unfoldable pub package_data_code_try_from : ℕ → Result PldmError GetPackageDataCode
unfolding base_completion_try_from fw_completion_try_from
package_data_code_try_from value = elim (base_completion_try_from value) [
  | Result.ok code ↦ Result.ok (base_codes code)
  | Result.err _ ↦ elim (fw_completion_try_from value) [
    | Result.ok code ↦ own_code code
    | Result.err e ↦ Result.err e
  ]
]

pub record GetPackageDataResponse : Type 0 where
  pub hdr : PldmMsgHeader
  pub completion_code : ℕ
  pub next_data_transfer_handle : ℕ
  pub transfer_flag : ℕ
  pub portion_of_package_data : List ℕ
  pub portion_of_package_data_len : ℕ

abbrev pub max_portion_data_size : ℕ
max_portion_data_size = 0xff

abbrev pub filled_response :
    ℕ → GetPackageDataCode → ℕ → TransferOperationFlag → List ℕ → GetPackageDataResponse
filled_response id code handle flag portion = record {
  hdr =
      new_header id PldmMsgType.response fw_update
        (fw_update_cmd_code FwUpdateCmd.get_package_data);
  completion_code = package_data_code code;
  next_data_transfer_handle = handle;
  transfer_flag = transfer_operation_code flag;
  portion_of_package_data = portion ++ replicate (max_portion_data_size - length portion) 0;
  portion_of_package_data_len = length portion;
}

-- A portion that is longer than the array panics.
unfoldable pub new_package_data_response :
    ℕ → GetPackageDataCode → ℕ → TransferOperationFlag → List ℕ → CodecResult GetPackageDataResponse
new_package_data_response id code handle flag portion =
    if leb (length portion) max_portion_data_size
    then ok (filled_response id code handle flag portion)
    else panic

-- A byte that `TryFrom` turns into a value, or the error Unsupported
abbrev pub coded : {A : Type 0} → (ℕ → Result PldmError A) → Reader A
coded f = do
  b ← byte
  elim (f b) [ Result.ok a ↦ pure a | Result.err _ ↦ fail PldmCodecError.unsupported ]

unfoldable pub package_data_portion :
    ℕ → GetPackageDataCode → ℕ → TransferOperationFlag → Reader GetPackageDataResponse
unfolding new_package_data_response
package_data_portion id code handle flag portion =
    if ltb max_portion_data_size (length portion)
    then err buffer_too_short
    else then_do (new_package_data_response id code handle flag portion) λ r. ok (r, [])

unfoldable pub package_data_reader : Reader GetPackageDataResponse
unfolding package_data_portion package_data_code_try_from transfer_operation_try_from
package_data_reader = do
  hdr ← header
  code ← coded package_data_code_try_from
  handle ← int little_endian 4
  flag ← coded transfer_operation_try_from
  package_data_portion (instance_id hdr) code handle flag

unfoldable pub decode_package_data : List ℕ → CodecResult GetPackageDataResponse
unfolding package_data_reader decode
decode_package_data buffer =
    if ltb (length buffer) portion_offset
    then err buffer_too_short
    else decode package_data_reader buffer

-- The handle is written in the order of the target.
unfoldable pub write_package_data : ByteOrder → GetPackageDataResponse → Cursor → CodecResult Cursor
unfolding put put_prefix
write_package_data bo r c =
    then_do
      (then_do
        (then_do (then_do (put (header_bytes r.hdr) c) (put (r.completion_code ∷ [])))
          (put (bo.write_int 4 r.next_data_transfer_handle)))
        (put (r.transfer_flag ∷ [])))
      (put_prefix r.portion_of_package_data_len r.portion_of_package_data)

unfoldable pub encode_package_data :
    ByteOrder → GetPackageDataResponse → List ℕ → CodecResult Written
unfolding write_package_data finish
encode_package_data bo r buffer =
    if ltb (length buffer) (portion_offset + r.portion_of_package_data_len)
    then err buffer_too_short
    else done_writing (write_package_data bo r (start buffer))
