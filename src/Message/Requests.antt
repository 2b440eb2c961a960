-- ===== src/Message/Requests.antt =====
-- The encoders of the requests with a version string, which an update agent sends: `request_update.rs`,
-- `pass_component.rs` and `update_component.rs` of `pldm-common/src/message/firmware_update`.
use pldm_lib.Base.{ℕ, ◌+◌, List, [], ◌∷◌, ◌++◌, err, ltb, if◌then◌else◌, length, ◌>>=◌}
use pldm_lib.Protocol.Error.{buffer_too_short}
use pldm_lib.Protocol.Header.{header_bytes}
use pldm_lib.Codec.{CodecResult, Written, put, finish}
use pldm_lib.Codec.Order.{ByteOrder}
use pldm_lib.Message.Device.{start, done_writing, put_prefix}
use pldm_lib.Message.Update.{
  RequestUpdateRequest, PassComponentTableRequest, UpdateComponentRequest,
}

module _ (bo : ByteOrder) where
  open bo use {write_int}

  -- `RequestUpdateRequestFixed`
  unfoldable pub request_update_fixed : RequestUpdateRequest → List ℕ
  request_update_fixed r =
      header_bytes r.hdr
      ++ (write_int 4 r.max_transfer_size
          ++ (write_int 2 r.num_of_comp
              ++ (r.max_outstanding_transfer_req
                  ∷ (write_int 2 r.pkg_data_len
                      ++ (r.comp_image_set_ver_str_type ∷ r.comp_image_set_ver_str_len ∷ [])))))

  unfoldable pub encode_request_update : RequestUpdateRequest → List ℕ → CodecResult Written
  unfolding put put_prefix finish request_update_fixed
  encode_request_update r buffer =
      if ltb (length buffer) (14 + r.comp_image_set_ver_str_len)
      then err buffer_too_short
      else done_writing (
          put (request_update_fixed r) (start buffer)
          >>= put_prefix r.comp_image_set_ver_str_len r.comp_image_set_ver_str)

  -- `PassComponentTableRequestFixed`
  unfoldable pub pass_component_fixed : PassComponentTableRequest → List ℕ
  pass_component_fixed r =
      header_bytes r.hdr
      ++ (r.transfer_flag
          ∷ (write_int 2 r.comp_classification
              ++ (write_int 2 r.comp_identifier
                  ++ (r.comp_classification_index
                      ∷ (write_int 4 r.comp_comparison_stamp
                          ++ (r.comp_ver_str_type ∷ r.comp_ver_str_len ∷ []))))))

  unfoldable pub encode_pass_component : PassComponentTableRequest → List ℕ → CodecResult Written
  unfolding put put_prefix finish pass_component_fixed
  encode_pass_component r buffer =
      if ltb (length buffer) (15 + r.comp_ver_str_len)
      then err buffer_too_short
      else done_writing (
          put (pass_component_fixed r) (start buffer)
          >>= put_prefix r.comp_ver_str_len r.comp_ver_str)

  -- `UpdateComponentRequestFixed`
  unfoldable pub update_component_fixed : UpdateComponentRequest → List ℕ
  update_component_fixed r =
      header_bytes r.hdr
      ++ (write_int 2 r.comp_classification
          ++ (write_int 2 r.comp_identifier
              ++ (r.comp_classification_index
                  ∷ (write_int 4 r.comp_comparison_stamp
                      ++ (write_int 4 r.comp_image_size
                          ++ (write_int 4 r.update_option_flags
                              ++ (r.comp_ver_str_type ∷ r.comp_ver_str_len ∷ [])))))))

  unfoldable pub encode_update_component : UpdateComponentRequest → List ℕ → CodecResult Written
  unfolding put put_prefix finish update_component_fixed
  encode_update_component r buffer =
      if ltb (length buffer) (22 + r.comp_ver_str_len)
      then err buffer_too_short
      else done_writing (
          put (update_component_fixed r) (start buffer)
          >>= put_prefix r.comp_ver_str_len r.comp_ver_str)
