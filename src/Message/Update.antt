-- ===== src/Message/Update.antt =====
-- The requests with a version string: `request_update.rs`, `pass_component.rs` and
-- `update_component.rs` of `pldm-common/src/message/firmware_update`, as they are decoded.
use pldm_lib.Base.{ℕ, ◌-◌, List, ◌++◌, ltb, if◌then◌else◌, length, replicate}
use pldm_lib.Protocol.Error.{invalid_data}
use pldm_lib.Protocol.Update.{max_ver_str_len}
use pldm_lib.Protocol.Header.{PldmMsgHeader}
use pldm_lib.Codec.{Reader, ◌>>=◌, pure, fail, slice, byte, header, int}
use pldm_lib.Codec.Order.{ByteOrder}

pub record RequestUpdateRequest : Type 0 where
  pub hdr : PldmMsgHeader
  pub max_transfer_size : ℕ
  pub num_of_comp : ℕ
  pub max_outstanding_transfer_req : ℕ
  pub pkg_data_len : ℕ
  pub comp_image_set_ver_str_type : ℕ
  pub comp_image_set_ver_str_len : ℕ
  pub comp_image_set_ver_str : List ℕ

pub record PassComponentTableRequest : Type 0 where
  pub hdr : PldmMsgHeader
  pub transfer_flag : ℕ
  pub comp_classification : ℕ
  pub comp_identifier : ℕ
  pub comp_classification_index : ℕ
  pub comp_comparison_stamp : ℕ
  pub comp_ver_str_type : ℕ
  pub comp_ver_str_len : ℕ
  pub comp_ver_str : List ℕ

pub record UpdateComponentRequest : Type 0 where
  pub hdr : PldmMsgHeader
  pub comp_classification : ℕ
  pub comp_identifier : ℕ
  pub comp_classification_index : ℕ
  pub comp_comparison_stamp : ℕ
  pub comp_image_size : ℕ
  pub update_option_flags : ℕ
  pub comp_ver_str_type : ℕ
  pub comp_ver_str_len : ℕ
  pub comp_ver_str : List ℕ

-- The bytes at the front of an array of `max_ver_str_len` zeros.
unfoldable pub into_array : List ℕ → List ℕ
into_array bs = bs ++ replicate (max_ver_str_len - length bs) 0

-- A length above the array's is refused before any byte of the string is read.
unfoldable pub version_bytes : ℕ → Reader (List ℕ)
unfolding into_array slice
version_bytes len =
    if ltb max_ver_str_len len
    then fail invalid_data
    else (slice len >>= λ bs. pure (into_array bs))

module _ (bo : ByteOrder) where
  unfoldable pub request_update_request : Reader RequestUpdateRequest
  unfolding version_bytes
  request_update_request = do
    hdr ← header
    size ← int bo 4
    comps ← int bo 2
    outstanding ← byte
    pkg_len ← int bo 2
    str_type ← byte
    str_len ← byte
    str ← version_bytes str_len
    pure (record {
      hdr = hdr;
      max_transfer_size = size;
      num_of_comp = comps;
      max_outstanding_transfer_req = outstanding;
      pkg_data_len = pkg_len;
      comp_image_set_ver_str_type = str_type;
      comp_image_set_ver_str_len = str_len;
      comp_image_set_ver_str = str;
    })

  unfoldable pub pass_component_request : Reader PassComponentTableRequest
  unfolding version_bytes
  pass_component_request = do
    hdr ← header
    flag ← byte
    classification ← int bo 2
    identifier ← int bo 2
    index ← byte
    stamp ← int bo 4
    str_type ← byte
    str_len ← byte
    str ← version_bytes str_len
    pure (record {
      hdr = hdr;
      transfer_flag = flag;
      comp_classification = classification;
      comp_identifier = identifier;
      comp_classification_index = index;
      comp_comparison_stamp = stamp;
      comp_ver_str_type = str_type;
      comp_ver_str_len = str_len;
      comp_ver_str = str;
    })

  unfoldable pub update_component_request : Reader UpdateComponentRequest
  unfolding version_bytes
  update_component_request = do
    hdr ← header
    classification ← int bo 2
    identifier ← int bo 2
    index ← byte
    stamp ← int bo 4
    image_size ← int bo 4
    flags ← int bo 4
    str_type ← byte
    str_len ← byte
    str ← version_bytes str_len
    pure (record {
      hdr = hdr;
      comp_classification = classification;
      comp_identifier = identifier;
      comp_classification_index = index;
      comp_comparison_stamp = stamp;
      comp_image_size = image_size;
      update_option_flags = flags;
      comp_ver_str_type = str_type;
      comp_ver_str_len = str_len;
      comp_ver_str = str;
    })
