-- ===== src/Message/Device.antt =====
-- The responses that are encoded field by field: `RequestUpdateResponse`, `UpdateComponentResponse`,
-- `QueryDeviceIdentifiersResponse` and `GetFirmwareParametersResponse` of
-- `pldm-common/src/message/firmware_update`. Each first compares the buffer with its own size.
use pldm_lib.Base.{
  ℕ, ◌+◌, ◌-◌, ◌%◌, ◌^◌, List, [], ◌∷◌, Option, none, some, Result, ok, err, ◌>>=◌, ◌==◌, ltb,
  if◌then◌else◌, length, take, replicate, ◌++◌,
}
use pldm_lib.Protocol.Error.{PldmError, buffer_too_short, invalid_descriptor_count}
use pldm_lib.Protocol.Update.{descriptor_data_max_len}
use pldm_lib.Protocol.Results.{
  ComponentCompatibilityResponse, compatibility_response_code, ComponentCompatibilityResponseCode,
  compatibility_response_code_code,
}
use pldm_lib.Protocol.Header.{PldmMsgHeader, header_bytes}
use pldm_lib.Codec.{CodecResult, Cursor, Written, put, finish, prefix}
use pldm_lib.Codec.Order.{ByteOrder}

pub record RequestUpdateResponse : Type 0 where
  pub hdr : PldmMsgHeader
  pub completion_code : ℕ
  pub fd_meta_data_len : ℕ
  pub fd_will_send_pkg_data_cmd : ℕ
  pub get_pkg_data_max_transfer_size : Option ℕ

pub record UpdateComponentResponse : Type 0 where
  pub hdr : PldmMsgHeader
  pub completion_code : ℕ
  pub comp_compatibility_resp : ComponentCompatibilityResponse
  pub comp_compatibility_resp_code : ComponentCompatibilityResponseCode
  pub update_option_flags_enabled : ℕ
  pub time_before_req_fw_data : ℕ
  pub get_comp_opaque_data_max_transfer_size : Option ℕ

pub record Descriptor : Type 0 where
  pub descriptor_type : ℕ
  pub descriptor_length : ℕ
  pub descriptor_data : List ℕ

abbrev pub empty_descriptor : Descriptor
empty_descriptor = record {
  descriptor_type = 0;
  descriptor_length = 0;
  descriptor_data = replicate descriptor_data_max_len 0;
}

unfoldable pub descriptor_size : Descriptor → ℕ
descriptor_size d = 4 + d.descriptor_length

unfoldable pub descriptors_size : List Descriptor → ℕ
descriptors_size [] = 0
descriptors_size (d ∷ ds) = descriptor_size d + descriptors_size ds

abbrev pub additional_descriptors_max_count : ℕ
additional_descriptors_max_count = 4

pub record QueryDeviceIdentifiersResponse : Type 0 where
  pub hdr : PldmMsgHeader
  pub completion_code : ℕ
  pub device_identifiers_len : ℕ
  pub descriptor_count : ℕ
  pub initial_descriptor : Descriptor
  pub additional_descriptors : Option (List Descriptor)

-- `QueryDeviceIdentifiersResponse::new`, given the slice of additional descriptors.
unfoldable pub new_devid_response :
    PldmMsgHeader
    → ℕ
    → Descriptor
    → List Descriptor
    → Result PldmError QueryDeviceIdentifiersResponse
unfolding descriptors_size descriptor_size
new_devid_response hdr completion initial additional =
    let count = 1 + length additional in
    if ltb (additional_descriptors_max_count + 1) count
    then Result.err invalid_descriptor_count
    else Result.ok (record {
      hdr = hdr;
      completion_code = completion;
      device_identifiers_len = (descriptor_size initial + descriptors_size additional) % 2 ^ 32;
      descriptor_count = count % 256;
      initial_descriptor = initial;
      additional_descriptors =
          if ltb 1 count
          then some (
              additional
              ++ replicate (additional_descriptors_max_count - length additional) empty_descriptor)
          else none;
    })

abbrev pub start : List ℕ → Cursor
start buffer = record { done = []; room = buffer }

-- `Ok(offset)` and the buffer, once all is written
abbrev pub done_writing : CodecResult Cursor → CodecResult Written
done_writing m = m >>= λ c. ok (finish c)

-- The prefix of an array that a length field counts.
unfoldable pub put_prefix : ℕ → List ℕ → Cursor → CodecResult Cursor
unfolding prefix put
put_prefix n bs c = prefix n bs >>= λ front. put front c

abbrev pub additional : Option (List Descriptor) → List Descriptor
additional none = []
additional (some ds) = ds

abbrev pub optional_size : Option ℕ → ℕ
optional_size none = 0
optional_size (some _) = 4

module _ (bo : ByteOrder) where
  open bo use {write_int}

  abbrev pub put_optional : Option ℕ → Cursor → CodecResult Cursor
  put_optional none c = ok c
  put_optional (some n) c = put (write_int 4 n) c

  unfoldable pub encode_request_update_response :
      RequestUpdateResponse → List ℕ → CodecResult Written
  unfolding finish
  encode_request_update_response r buffer =
      let size = 7 + (if r.fd_will_send_pkg_data_cmd == 0x02 then 4 else 0) in
      if ltb (length buffer) size
      then err buffer_too_short
      else done_writing (
          put
            (header_bytes r.hdr
              ++ r.completion_code
                ∷ (write_int 2 r.fd_meta_data_len ++ r.fd_will_send_pkg_data_cmd ∷ []))
            (start buffer)
          >>= put_optional r.get_pkg_data_max_transfer_size)

  unfoldable pub encode_update_component_response :
      UpdateComponentResponse → List ℕ → CodecResult Written
  unfolding finish
  encode_update_component_response r buffer =
      let size = 12 + optional_size r.get_comp_opaque_data_max_transfer_size in
      if ltb (length buffer) size
      then err buffer_too_short
      else done_writing (
          put (header_bytes r.hdr) (start buffer)
          >>= put (r.completion_code ∷ [])
          >>= put (compatibility_response_code r.comp_compatibility_resp ∷ [])
          >>= put (compatibility_response_code_code r.comp_compatibility_resp_code ∷ [])
          >>= put (write_int 4 r.update_option_flags_enabled)
          >>= put (write_int 2 r.time_before_req_fw_data)
          >>= put_optional r.get_comp_opaque_data_max_transfer_size)

  -- `Descriptor::encode(&mut buffer[offset..])`
  unfoldable pub encode_descriptor : Descriptor → Cursor → CodecResult Cursor
  unfolding put put_prefix descriptor_size
  encode_descriptor d c =
      if ltb (length c.room) (descriptor_size d)
      then err buffer_too_short
      else (put (write_int 2 d.descriptor_type) c
          >>= put (write_int 2 d.descriptor_length)
          >>= put_prefix d.descriptor_length d.descriptor_data)

  unfoldable pub encode_descriptors : List Descriptor → Cursor → CodecResult Cursor
  unfolding encode_descriptor
  encode_descriptors [] c = ok c
  encode_descriptors (d ∷ ds) c = encode_descriptor d c >>= encode_descriptors ds

  -- The size and the loop both take `descriptor_count - 1` of the additional descriptors.
  unfoldable pub encode_devid_response :
      QueryDeviceIdentifiersResponse → List ℕ → CodecResult Written
  unfolding put finish encode_descriptor encode_descriptors descriptors_size
  encode_devid_response r buffer =
      let more = take (r.descriptor_count - 1) (additional r.additional_descriptors) in
      let size = 9 + descriptor_size r.initial_descriptor + descriptors_size more in
      if ltb (length buffer) size
      then err buffer_too_short
      else done_writing (
          put (header_bytes r.hdr) (start buffer)
          >>= put (r.completion_code ∷ [])
          >>= put (write_int 4 r.device_identifiers_len)
          >>= put (r.descriptor_count ∷ [])
          >>= encode_descriptor r.initial_descriptor
          >>= encode_descriptors more)
