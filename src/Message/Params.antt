-- ===== src/Message/Params.antt =====
-- `GetFirmwareParametersResponse` of `pldm-common/src/message/firmware_update/get_fw_params.rs`, with
-- the encoder of the component entries in `protocol/firmware_update.rs`.
use pldm_lib.Base.{
  ℕ, ◌+◌, List, [], ◌∷◌, Option, none, some, ok, err, panic, ◌>>=◌, ltb, leb, if◌then◌else◌, length,
  take, ◌++◌,
}
use pldm_lib.Protocol.Error.{buffer_too_short}
use pldm_lib.Protocol.Header.{PldmMsgHeader, header_bytes}
use pldm_lib.Codec.{CodecResult, Cursor, Written, put, finish}
use pldm_lib.Codec.Order.{ByteOrder}
use pldm_lib.Message.Str.{ComponentParameterEntry, FirmwareParameters}
use pldm_lib.Message.Device.{put_prefix}

abbrev pub entry_fixed_size : ℕ
entry_fixed_size = 39

abbrev pub params_fixed_size : ℕ
params_fixed_size = 10

abbrev pub pending_size : Option (List ℕ) → ℕ → ℕ
pending_size none len = 0
pending_size (some _) len = len

unfoldable pub entry_size : ComponentParameterEntry → ℕ
entry_size e =
    entry_fixed_size
    + e.active_comp_ver_str_len
    + pending_size e.pending_comp_ver_str e.pending_comp_ver_str_len

unfoldable pub entries_size : List ComponentParameterEntry → ℕ
unfolding entry_size
entries_size [] = 0
entries_size (e ∷ es) = entry_size e + entries_size es

-- `comp_param_table[i]` for i below `comp_count`: an index past the table panics.
unfoldable pub used_entries : FirmwareParameters → CodecResult (List ComponentParameterEntry)
used_entries p =
    if leb p.comp_count (length p.comp_param_table)
    then ok (take p.comp_count p.comp_param_table)
    else panic

unfoldable pub params_size : FirmwareParameters → CodecResult ℕ
unfolding used_entries entries_size
params_size p = used_entries p >>= λ es. ok (
    params_fixed_size
    + pending_size p.pending_comp_image_set_ver_str p.pending_comp_image_set_ver_str_len
    + p.active_comp_image_set_ver_str_len
    + entries_size es)

abbrev pub put_pending : Option (List ℕ) → ℕ → Cursor → CodecResult Cursor
put_pending none len c = ok c
put_pending (some bs) len c = put_prefix len bs c

module _ (bo : ByteOrder) where
  open bo use {write_int}

  unfoldable pub entry_fixed_bytes : ComponentParameterEntry → List ℕ
  entry_fixed_bytes e =
      write_int 2 e.comp_classification
      ++ (write_int 2 e.comp_identifier
          ++ (e.comp_classification_index
              ∷ (write_int 4 e.active_comp_comparison_stamp
                  ++ (e.active_comp_ver_str_type
                      ∷ e.active_comp_ver_str_len
                      ∷ (e.active_comp_release_date
                          ++ (write_int 4 e.pending_comp_comparison_stamp
                              ++ (e.pending_comp_ver_str_type
                                  ∷ e.pending_comp_ver_str_len
                                  ∷ (e.pending_comp_release_date
                                      ++ (write_int 2 e.comp_activation_methods
                                          ++ write_int 4 e.capabilities_during_update)))))))))

  unfoldable pub params_fixed_bytes : FirmwareParameters → List ℕ
  params_fixed_bytes p =
      write_int 4 p.capabilities_during_update
      ++ (write_int 2 p.comp_count
          ++ (p.active_comp_image_set_ver_str_type ∷ p.active_comp_image_set_ver_str_len
              ∷ p.pending_comp_image_set_ver_str_type ∷ p.pending_comp_image_set_ver_str_len ∷ []))

  unfoldable pub encode_entry : ComponentParameterEntry → Cursor → CodecResult Cursor
  unfolding put put_prefix entry_size entry_fixed_bytes
  encode_entry e c =
      if ltb (length c.room) (entry_size e)
      then err buffer_too_short
      else (put (entry_fixed_bytes e) c
          >>= put_prefix e.active_comp_ver_str_len e.active_comp_ver_str
          >>= put_pending e.pending_comp_ver_str e.pending_comp_ver_str_len)

  unfoldable pub encode_entries : List ComponentParameterEntry → Cursor → CodecResult Cursor
  unfolding encode_entry
  encode_entries [] c = ok c
  encode_entries (e ∷ es) c = encode_entry e c >>= encode_entries es

  unfoldable pub encode_params : FirmwareParameters → Cursor → CodecResult Cursor
  unfolding put put_prefix params_size used_entries encode_entries params_fixed_bytes
  encode_params p c = params_size p >>= λ size.
      if ltb (length c.room) size
      then err buffer_too_short
      else (put (params_fixed_bytes p) c
          >>= put_prefix p.active_comp_image_set_ver_str_len p.active_comp_image_set_ver_str
          >>= put_pending p.pending_comp_image_set_ver_str p.pending_comp_image_set_ver_str_len
          >>= λ c'. used_entries p >>= λ es. encode_entries es c')

  unfoldable pub encode_params_response :
      PldmMsgHeader → ℕ → FirmwareParameters → List ℕ → CodecResult Written
  unfolding encode_params put finish params_size
  encode_params_response hdr completion p buffer = params_size p >>= λ size.
      if ltb (length buffer) (4 + size)
      then err buffer_too_short
      else (put (header_bytes hdr) (record { done = []; room = buffer })
          >>= put (completion ∷ [])
          >>= encode_params p
          >>= λ c. ok (finish c))
