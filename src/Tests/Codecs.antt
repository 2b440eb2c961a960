-- ===== src/Tests/Codecs.antt =====
-- Codecs, versions, bitmaps and downstream devices on concrete values.
use pldm_lib.Base.{
  ℕ, ◌≡◌, ◌↔◌, ◌<◌, ◌≤◌, ◌*◌, refl, List, [], ◌∷◌, some, ok, Result, arith, replicate, length, map,
  take, inr,
}
use pldm_lib.Protocol.Error.{PldmError}
use pldm_lib.Protocol.Base.{fw_update, PldmMsgType}
use pldm_lib.Protocol.Header.{new_header}
use pldm_lib.Protocol.Results.{comp_can_be_updated}
use pldm_lib.Protocol.Version.{
  PldmVersion, bcd_encode_to_ver32, bcd_decode_from_ver32, bcd_decode-bcd_encode,
}
use pldm_lib.Codec.Order.{to_le, little_endian, little_endian-IsByteOrder}
use pldm_lib.Codec.Writes.{RoundTrip}
use pldm_lib.Message.Str.{
  default_component, default_params, ComponentParameterEntry, evaluate_update_eligibility,
}
use pldm_lib.Base.{◌++◌, drop}
use pldm_lib.Base.First.{IsFirst}
use pldm_lib.Message.Str.{
  string_eq, get_active_fw_ver, string_lt, bytes_cmp, default_entry, FirmwareParameters,
  FirmwareComponent,
}
use pldm_lib.Message.Eligible.{IsEntryOf, IsNewer, evaluate-IsNewer}
use pldm_lib.Message.Device.{Descriptor, descriptor_size, encode_descriptor, start, done_writing}
use pldm_lib.Message.Update.{
  RequestUpdateRequest, PassComponentTableRequest, UpdateComponentRequest, request_update_request,
  pass_component_request, update_component_request, into_array,
}
use pldm_lib.Message.Requests.{
  encode_request_update, encode_pass_component, encode_update_component,
}
use pldm_lib.Message.Round.{
  IsVersion, request_update-round, pass_component-round, update_component-round,
}
use pldm_lib.Downstream.Blob.{descriptor_array, read_descriptor}
use pldm_lib.Downstream.Devices.{portion_start, DownstreamDevice, try_at}
use pldm_lib.Downstream.Wire.{IsWire, descriptor-round}
use pldm_lib.Downstream.Walk.{try_at-returns}
use pldm_lib.Downstream.Entries.{Entry, IsEntry, lookup, device_of, portion_wire}
use pldm_lib.Downstream.Lookup.{try_at-lookup}
use pldm_lib.Base.{panic}
use pldm_lib.Protocol.Base.{get_first_part}
use pldm_lib.Codec.{Written}
use pldm_lib.Transfer.Portion.{
  PortionResponse, new_identifiers_response, decode_portion, encode_portion,
}
use pldm_lib.Transfer.Round.{decode_portion-encode_portion, encode_portion-decode_portion}
use pldm_lib.Transfer.PackageData.{
  GetPackageDataResponse, no_package_data, new_package_data_response, encode_package_data,
  decode_package_data,
}
use pldm_lib.Transfer.PackageData.Round.{decode_package_data-encode_package_data}
use pldm_lib.Downstream.Descriptors.{
  descriptors_start, decode_device, next_descriptor, collect_descriptors,
}
use pldm_lib.Downstream.Collect.{collect-descriptors_wire, decode_device-panics}
use pldm_lib.Control.{contains}
use pldm_lib.Control.Bitmap.{construct_bitmap, is_bit_set}
use pldm_lib.Control.Bits.{is_bit_set-construct_bitmap}

abbrev buffer : List ℕ
buffer = replicate 64 0

abbrev name : List ℕ
name = into_array (0x76 ∷ 0x31 ∷ [])

name-IsVersion : IsVersion 2 name
unfolding into_array
name-IsVersion = record { fits = omega arith; padded = refl; same_length = refl }

abbrev request_update : RequestUpdateRequest
request_update = record {
  hdr = new_header 1 PldmMsgType.request fw_update 0x10;
  max_transfer_size = 512;
  num_of_comp = 1;
  max_outstanding_transfer_req = 1;
  pkg_data_len = 0;
  comp_image_set_ver_str_type = 1;
  comp_image_set_ver_str_len = 2;
  comp_image_set_ver_str = name;
}

request_update-round_example :
    RoundTrip
      (request_update_request little_endian)
      request_update
      16
      (encode_request_update little_endian request_update buffer)
request_update-round_example =
    request_update-round little_endian little_endian-IsByteOrder request_update buffer
      (record {
        max_transfer_size = omega arith;
        num_of_comp = omega arith;
        pkg_data_len = omega arith;
        version = name-IsVersion;
      })
      (omega arith)

abbrev pass_component : PassComponentTableRequest
pass_component = record {
  hdr = new_header 2 PldmMsgType.request fw_update 0x13;
  transfer_flag = 5;
  comp_classification = 10;
  comp_identifier = 300;
  comp_classification_index = 0;
  comp_comparison_stamp = 7;
  comp_ver_str_type = 1;
  comp_ver_str_len = 2;
  comp_ver_str = name;
}

pass_component-round_example :
    RoundTrip
      (pass_component_request little_endian)
      pass_component
      17
      (encode_pass_component little_endian pass_component buffer)
pass_component-round_example =
    pass_component-round little_endian little_endian-IsByteOrder pass_component buffer
      (record {
        comp_classification = omega arith;
        comp_identifier = omega arith;
        comp_comparison_stamp = omega arith;
        version = name-IsVersion;
      })
      (omega arith)

abbrev update_component : UpdateComponentRequest
update_component = record {
  hdr = new_header 3 PldmMsgType.request fw_update 0x14;
  comp_classification = 10;
  comp_identifier = 300;
  comp_classification_index = 0;
  comp_comparison_stamp = 7;
  comp_image_size = 1024;
  update_option_flags = 1;
  comp_ver_str_type = 1;
  comp_ver_str_len = 2;
  comp_ver_str = name;
}

update_component-round_example :
    RoundTrip
      (update_component_request little_endian)
      update_component
      24
      (encode_update_component little_endian update_component buffer)
update_component-round_example =
    update_component-round little_endian little_endian-IsByteOrder update_component buffer
      (record {
        comp_classification = omega arith;
        comp_identifier = omega arith;
        comp_comparison_stamp = omega arith;
        comp_image_size = omega arith;
        update_option_flags = omega arith;
        version = name-IsVersion;
      })
      (omega arith)

abbrev descriptor : Descriptor
descriptor = record {
  descriptor_type = 2;
  descriptor_length = 3;
  descriptor_data = descriptor_array (1 ∷ 2 ∷ 3 ∷ []);
}

descriptor-IsWire : IsWire descriptor
unfolding descriptor_array
descriptor-IsWire = record {
  type_fits = omega arith;
  length_fits = omega arith;
  padded = refl;
  same_length = refl;
}

descriptor_room : descriptor_size descriptor ≤ length buffer
unfolding descriptor_size
descriptor_room = omega arith

descriptor-round_example :
    RoundTrip
      (read_descriptor little_endian)
      descriptor
      (descriptor_size descriptor)
      (done_writing (encode_descriptor little_endian descriptor (start buffer)))
descriptor-round_example =
    descriptor-round little_endian little_endian-IsByteOrder descriptor buffer descriptor-IsWire
      descriptor_room

abbrev device : Entry
device = record { index = 1; descriptors = descriptor ∷ [] }

abbrev other_device : Entry
other_device = record { index = 4; descriptors = descriptor ∷ descriptor ∷ [] }

device-IsEntry : IsEntry device
device-IsEntry = record { index_fits = omega arith; descriptors_fit = (descriptor-IsWire, tt) }

other_device-IsEntry : IsEntry other_device
other_device-IsEntry = record {
  index_fits = omega arith;
  descriptors_fit = (descriptor-IsWire, (descriptor-IsWire, tt));
}

-- A portion that announces one device and ends in its header.
try_at-returns_example :
    (r : Result PldmError DownstreamDevice) × (try_at little_endian
        (9 ∷ 0 ∷ 0 ∷ 0 ∷ 1 ∷ 0 ∷ 3 ∷ 0 ∷ [])
        portion_start
        0
      ≡ some (ok r))
try_at-returns_example =
    try_at-returns little_endian (9 ∷ 0 ∷ 0 ∷ 0 ∷ 1 ∷ 0 ∷ 3 ∷ 0 ∷ []) portion_start 0

abbrev devices : List Entry
devices = device ∷ other_device ∷ []

try_at-lookup_example :
    try_at little_endian
      (portion_wire little_endian little_endian-IsByteOrder devices)
      portion_start
      1
    ≡ some (ok (lookup (map (device_of little_endian little_endian-IsByteOrder) devices) 1))
unfolding to_le descriptor_array
try_at-lookup_example =
    try_at-lookup little_endian little_endian-IsByteOrder devices 1
      (device-IsEntry, (other_device-IsEntry, tt)) (omega arith) (omega arith)

is_bit_set-construct_bitmap_example :
    (bitmap : List ℕ) × (construct_bitmap 8 (0 ∷ 5 ∷ []) ≡ ok bitmap)
    × (length bitmap ≡ 8)
    × ((x : ℕ) → x < 8 * 8 → is_bit_set bitmap x ≡ ok (contains x (take (8 * 8) (0 ∷ 5 ∷ []))))
is_bit_set-construct_bitmap_example =
    is_bit_set-construct_bitmap 8 (0 ∷ 5 ∷ []) (omega arith, (omega arith, tt))

abbrev listed : ComponentParameterEntry
listed = record default_entry {
  comp_identifier = 7;
  active_comp_comparison_stamp = 3;
  active_comp_ver_str_type = 1;
  active_comp_ver_str_len = 2;
  active_comp_ver_str = name;
}

abbrev table : FirmwareParameters
table = record default_params { comp_param_table = default_entry ∷ listed ∷ [] }

abbrev offered : FirmwareComponent
offered = record default_component {
  comp_identifier = 7;
  comp_comparison_stamp = 4;
  comp_version = record { str_type = 1; str_len = 2; str_data = into_array (0x76 ∷ 0x32 ∷ []) };
}

offered-updated : evaluate_update_eligibility offered table ≡ ok comp_can_be_updated
unfolding evaluate_update_eligibility into_array string_eq get_active_fw_ver string_lt bytes_cmp
offered-updated = refl

evaluate-IsNewer_example : (evaluate_update_eligibility offered table ≡ ok comp_can_be_updated) ↔ (
    (e : ComponentParameterEntry) × IsFirst (IsEntryOf offered) e table.comp_param_table
    × IsNewer offered e)
unfolding default_params
evaluate-IsNewer_example = evaluate-IsNewer offered table

abbrev version : PldmVersion
version = record { major = 1; minor = 12; update = 0xff; alpha = 0x61 }

bcd_decode-bcd_encode_example : bcd_decode_from_ver32 (bcd_encode_to_ver32 version) ≡ version
bcd_decode-bcd_encode_example =
    bcd_decode-bcd_encode version (omega arith) (omega arith) (omega arith) (inr refl)

abbrev portion : PortionResponse
portion = new_identifiers_response 1 0 7 5 (1 ∷ 2 ∷ 3 ∷ [])

decode_portion-encode_portion_example :
    (out : Written) × (encode_portion portion buffer ≡ ok out)
    × (out.0 ≡ 12)
    × (decode_portion (take out.0 out.1) ≡ ok portion)
unfolding new_identifiers_response
decode_portion-encode_portion_example =
    decode_portion-encode_portion portion buffer (omega arith) (omega arith)

abbrev portion_bytes_read : List ℕ
portion_bytes_read = 1 ∷ 0x05 ∷ 0x04 ∷ 0 ∷ 7 ∷ 1 ∷ 0 ∷ 0 ∷ 5 ∷ 9 ∷ 8 ∷ []

encode_portion-decode_portion_example :
    (r : PortionResponse) × (decode_portion portion_bytes_read ≡ ok r)
    × (encode_portion r buffer ≡ ok (11, portion_bytes_read ++ drop 11 buffer))
encode_portion-decode_portion_example =
    encode_portion-decode_portion portion_bytes_read buffer (ground arith) (omega arith)
      (omega arith)

decode_package_data-encode_package_data_example :
    (r : GetPackageDataResponse) × (out : Written) × (new_package_data_response 3 no_package_data 7
        get_first_part
        (1 ∷ 2 ∷ [])
      ≡ ok r)
    × (encode_package_data little_endian r buffer ≡ ok out)
    × (out.0 ≡ 11)
    × (decode_package_data (take out.0 out.1) ≡ ok r)
decode_package_data-encode_package_data_example =
    decode_package_data-encode_package_data 3 no_package_data 7 get_first_part (1 ∷ 2 ∷ []) buffer
      (omega arith) (omega arith) (omega arith) (omega arith)

collect-descriptors_wire_example :
    collect_descriptors little_endian 3
      (device_of little_endian little_endian-IsByteOrder other_device)
      descriptors_start
    ≡ some (ok (descriptor ∷ descriptor ∷ []))
collect-descriptors_wire_example =
    collect-descriptors_wire little_endian little_endian-IsByteOrder (descriptor ∷ descriptor ∷ [])
      4 (descriptor-IsWire, (descriptor-IsWire, tt))

decode_device-panics_example :
    (d : DownstreamDevice) × (decode_device (4 ∷ 0 ∷ 1 ∷ 2 ∷ 0 ∷ []) ≡ ok d)
    × (next_descriptor little_endian d descriptors_start ≡ panic)
decode_device-panics_example =
    decode_device-panics little_endian little_endian-IsByteOrder 4 0 1 (2 ∷ 0 ∷ []) (omega arith)
      (omega arith)
