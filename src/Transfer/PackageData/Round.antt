-- ===== src/Transfer/PackageData/Round.antt =====
-- What `GetPackageDataResponse` decodes from what it encodes, and from any bytes.
use pldm_lib.Base.{
  ℕ, ◌+◌, ◌-◌, ◌^◌, ◌≤◌, ◌<◌, ◌≡◌, refl, ap, ◌∙◌, List, [], ◌∷◌, ◌++◌, Result, ok, err, panic,
  false, ltb, length, take, drop, length-append, take-append_length, replicate, arith, subst,
}
use pldm_lib.Protocol.Base.{
  fw_update, PldmMsgType, TransferOperationFlag, transfer_operation_code,
  transfer_operation_try_from, base_completion_try_from,
}
use pldm_lib.Protocol.Update.{fw_completion_try_from}
use pldm_lib.Protocol.Header.{instance_id, header_bytes, new_header}
use pldm_lib.Protocol.Header.Laws.{new_header-Reads}
use pldm_lib.Codec.{Reader, ◌>>=◌, Written, header, byte, int, decode}
use pldm_lib.Protocol.Error.{PldmError}
use pldm_lib.Fd.Invariant.Encoders.{NoPanic, Total, total_rules, decode-NoPanic}
use pldm_lib.Message.Device.{put_prefix}
use pldm_lib.Codec.Laws.{write_to_prefix_ok}
use pldm_lib.Codec.Order.{little_endian, little_endian-IsByteOrder, to_le}
use pldm_lib.Codec.Writes.{Writes, encoded}
use pldm_lib.Message.Round.{put_prefix-Writes}
use pldm_lib.Transfer.Portion.{portion_offset, fields-Writes}
use pldm_lib.Transfer.Round.{then_int}
use pldm_lib.Transfer.PackageData.{
  GetPackageDataCode, package_data_code, package_data_code_try_from, GetPackageDataResponse,
  max_portion_data_size, new_package_data_response, filled_response, package_data_portion,
  package_data_reader, coded, decode_package_data, write_package_data, encode_package_data,
}

-- Every code of the response is read back.
package_data_code_try_from-code :
    (c : GetPackageDataCode) → package_data_code_try_from (package_data_code c) ≡ Result.ok c
unfolding package_data_code_try_from base_completion_try_from fw_completion_try_from
package_data_code_try_from-code c = ground arith

flag_try_from-code :
    (f : TransferOperationFlag)
    → transfer_operation_try_from (transfer_operation_code f) ≡ Result.ok f
unfolding transfer_operation_try_from
flag_try_from-code f = ground arith

package_data_portion-Total :
    (id : ℕ) (c : GetPackageDataCode) (handle : ℕ) (f : TransferOperationFlag)
    → Total (package_data_portion id c handle f)
unfolding package_data_portion new_package_data_response
package_data_portion-Total id c handle f = record { at = λ bs. ground arith }

coded-Total : {A : Type 0} (f : ℕ → Result PldmError A) → Total (coded f)
unfolding byte
coded-Total f = record { at = λ bs. ground arith }

package_data_reader-Total : Total package_data_reader
unfolding package_data_reader
package_data_reader-Total = search (total_rules, package_data_portion-Total, coded-Total) depth 24

-- Decoding does not panic, whatever the bytes: a portion that is too long for the array is refused.
pub decode_package_data-NoPanic : (buffer : List ℕ) → NoPanic (decode_package_data buffer)
unfolding decode_package_data
decode_package_data-NoPanic buffer =
    let h = decode-NoPanic package_data_reader buffer package_data_reader-Total in ground arith

then_coded :
    {A B : Type 0} (f : ℕ → Result PldmError A) (g : A → Reader B) (b : ℕ) (a : A) (rest : List ℕ)
    → f b ≡ Result.ok a
    → (coded f >>= g) (b ∷ rest) ≡ g a rest
unfolding byte
then_coded f g b a rest h = rw (◌>>=◌, coded, h) refl

fits_array :
    (id : ℕ) (c : GetPackageDataCode) (handle : ℕ) (f : TransferOperationFlag) (portion : List ℕ)
    → length portion ≤ max_portion_data_size
    → package_data_portion id c handle f portion ≡ ok (filled_response id c handle f portion, [])
unfolding package_data_portion new_package_data_response
fits_array id c handle f portion h = ground arith

same_id :
    (id : ℕ) (cmd : ℕ)
    → id < 32
    → cmd < 256
    → instance_id (new_header id PldmMsgType.response fw_update cmd) ≡ id
same_id id cmd h k = (new_header-Reads id PldmMsgType.response fw_update cmd h k).reads_id

abbrev package_data_bytes : GetPackageDataResponse → List ℕ → List ℕ
package_data_bytes r portion =
    header_bytes r.hdr
    ++ (r.completion_code ∷ (to_le 4 r.next_data_transfer_handle ++ (r.transfer_flag ∷ portion)))

package_data_reader-bytes :
    (id : ℕ) (c : GetPackageDataCode) (handle : ℕ) (f : TransferOperationFlag) (portion : List ℕ)
    → id < 32
    → handle < 256 ^ 4
    → length portion ≤ max_portion_data_size
    → package_data_reader (package_data_bytes (filled_response id c handle f portion) portion)
      ≡ ok (filled_response id c handle f portion, [])
unfolding package_data_reader header header_bytes
package_data_reader-bytes id c handle f portion hid hh hp =
    let r = filled_response id c handle f portion in
    let last : ℕ → TransferOperationFlag → Reader GetPackageDataResponse =
      λ handle flag. package_data_portion (instance_id r.hdr) c handle flag in
    let behind : ℕ → Reader GetPackageDataResponse =
      λ handle. coded transfer_operation_try_from >>= last handle in
    then_coded package_data_code_try_from
      (λ code. int little_endian 4 >>= λ handle.
        coded transfer_operation_try_from >>= package_data_portion (instance_id r.hdr) code handle)
      (package_data_code c) c (to_le 4 handle ++ (transfer_operation_code f ∷ portion))
      (package_data_code_try_from-code c)
    ∙ then_int behind handle (transfer_operation_code f ∷ portion) hh
    ∙ then_coded transfer_operation_try_from (last handle) (transfer_operation_code f) f portion
        (flag_try_from-code f)
    ∙ ap (λ i. package_data_portion i c handle f portion) (same_id id _ hid (omega arith))
    ∙ fits_array id c handle f portion hp

write_package_data-Writes :
    (id : ℕ) (c : GetPackageDataCode) (handle : ℕ) (f : TransferOperationFlag) (portion : List ℕ)
    → let r = filled_response id c handle f portion in
      Writes (package_data_bytes r portion) (write_package_data little_endian r)
unfolding write_package_data
write_package_data-Writes id c handle f portion =
    let r = filled_response id c handle f portion in
    let array = r.portion_of_package_data in
    let front = take-append_length portion (replicate (max_portion_data_size - length portion) 0) in
    fields-Writes (header_bytes r.hdr) (r.completion_code ∷ []) (to_le 4 handle)
      (r.transfer_flag ∷ []) portion (put_prefix (length portion) array)
      (subst (λ bs. Writes bs (put_prefix (length portion) array)) front
        (put_prefix-Writes (length portion) array (ap length front)))

length-package_data_bytes :
    (r : GetPackageDataResponse) (portion : List ℕ)
    → length (package_data_bytes r portion) ≡ portion_offset + length portion
unfolding header_bytes
length-package_data_bytes r portion =
    simp (length-append, little_endian-IsByteOrder.length-write) (omega arith)

long : (bs : List ℕ) → portion_offset ≤ length bs → ltb (length bs) portion_offset ≡ false
long bs h = ground arith

-- On a little-endian target a response with an instance id below 32 and a handle of 32 bits
-- that is built from a portion of at most 255 bytes is written to every buffer that has room
-- for it, and decodes to itself from the bytes that were written.
pub decode_package_data-encode_package_data :
    (id : ℕ) (c : GetPackageDataCode) (handle : ℕ) (f : TransferOperationFlag)
    (portion buffer : List ℕ)
    → id < 32
    → handle < 256 ^ 4
    → length portion ≤ max_portion_data_size
    → portion_offset + length portion ≤ length buffer
    → (r : GetPackageDataResponse) × (out : Written) × (new_package_data_response id c handle f
          portion
        ≡ ok r)
      × (encode_package_data little_endian r buffer ≡ ok out)
      × (out.0 ≡ portion_offset + length portion)
      × (decode_package_data (take out.0 out.1) ≡ ok r)
unfolding new_package_data_response encode_package_data decode_package_data decode
decode_package_data-encode_package_data id c handle f portion buffer hid hh hp room =
    let r = filled_response id c handle f portion in
    let bs = package_data_bytes r portion in
    let rest = drop (length bs) buffer in
    let size = length-package_data_bytes r portion in
    (
      r,
      (length bs, bs ++ rest),
      ground arith,
      encoded (write_package_data little_endian r) bs buffer (portion_offset + length portion)
            (write_package_data-Writes id c handle f portion) size
          ∙ write_to_prefix_ok bs buffer (omega (arith, size)),
      size,
      rw (take-append_length bs rest, long bs (omega (arith, size)), decode)
          (ap (λ m. elim m [ ok (a, _) ↦ ok a | err e ↦ err e | panic ↦ panic ])
            (package_data_reader-bytes id c handle f portion hid hh hp)),
    )
