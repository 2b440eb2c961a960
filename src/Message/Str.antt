-- ===== src/Message/Str.antt =====
-- `PldmFirmwareString`, `FirmwareComponent` and the component entries of
-- `pldm-common/src/protocol/firmware_update.rs`, `util/fw_component.rs` and `get_fw_params.rs`, with
-- the test `evaluate_update_eligibility`.
use Prim.Native.Nat.{compare, Ordering}
use pldm_lib.Base.{
  ℕ, Bool, true, false, ◌&&◌, List, [], ◌∷◌, Option, none, some, Outcome, ok, panic, ◌>>=◌, ltb,
  leb, ◌==◌, if◌then◌else◌, length, take, replicate,
}
use pldm_lib.Protocol.Error.{PldmError}
use pldm_lib.Protocol.Update.{max_ver_str_len, max_component_count}
use pldm_lib.Protocol.Results.{
  ComponentResponseCode, comp_can_be_updated, comp_comparison_stamp_identical,
  comp_comparison_stamp_lower, comp_not_supported, comp_ver_str_identical, comp_ver_str_lower,
}

pub record PldmFirmwareString : Type 0 where
  pub str_type : ℕ
  pub str_len : ℕ
  pub str_data : List ℕ

abbrev pub default_string : PldmFirmwareString
default_string = record { str_type = 0; str_len = 0; str_data = replicate max_ver_str_len 0 }

-- The derived `==` of byte arrays.
unfoldable pub bytes_eq : List ℕ → List ℕ → Bool
bytes_eq [] [] = true
bytes_eq (a ∷ r) (b ∷ s) = a == b && bytes_eq r s
bytes_eq _ _ = false

-- `<[u8]>::cmp`: the first difference decides, and a prefix is less.
unfoldable pub bytes_cmp : List ℕ → List ℕ → Ordering
bytes_cmp [] [] = Ordering.eq
bytes_cmp [] (b ∷ s) = Ordering.lt
bytes_cmp (a ∷ r) [] = Ordering.gt
bytes_cmp (a ∷ r) (b ∷ s) = elim (compare a b) [
  | Ordering.lt ↦ Ordering.lt
  | Ordering.eq ↦ bytes_cmp r s
  | Ordering.gt ↦ Ordering.gt
]

unfoldable pub string_eq : PldmFirmwareString → PldmFirmwareString → Bool
unfolding bytes_eq
string_eq a b = a.str_type == b.str_type && a.str_len == b.str_len && bytes_eq a.str_data b.str_data

-- `&s.str_data[..s.str_len as usize]`, which panics past the array.
unfoldable pub valid_bytes : PldmFirmwareString → Outcome PldmError (List ℕ)
valid_bytes s = if leb s.str_len (length s.str_data) then ok (take s.str_len s.str_data) else panic

unfoldable pub string_partial_cmp :
    PldmFirmwareString → PldmFirmwareString → Outcome PldmError (Option Ordering)
unfolding valid_bytes
string_partial_cmp a b =
    if a.str_type == b.str_type
    then (do
      self_str ← valid_bytes a
      other_str ← valid_bytes b
      ok (some (bytes_cmp self_str other_str)))
    else ok none

abbrev is_less : Option Ordering → Bool
is_less none = false
is_less (some Ordering.lt) = true
is_less (some _) = false

unfoldable pub string_lt : PldmFirmwareString → PldmFirmwareString → Outcome PldmError Bool
unfolding string_partial_cmp
string_lt a b = do o ← string_partial_cmp a b; ok (is_less o)

pub record FirmwareComponent : Type 0 where
  pub comp_classification : ℕ
  pub comp_identifier : ℕ
  pub comp_classification_index : ℕ
  pub comp_comparison_stamp : ℕ
  pub comp_version : PldmFirmwareString
  pub comp_image_size : Option ℕ
  pub update_option_flags : Option ℕ

abbrev pub default_component : FirmwareComponent
default_component = record {
  comp_classification = 0;
  comp_identifier = 0;
  comp_classification_index = 0;
  comp_comparison_stamp = 0;
  comp_version = default_string;
  comp_image_size = none;
  update_option_flags = none;
}

pub record ComponentParameterEntry : Type 0 where
  pub comp_classification : ℕ
  pub comp_identifier : ℕ
  pub comp_classification_index : ℕ
  pub active_comp_comparison_stamp : ℕ
  pub active_comp_ver_str_type : ℕ
  pub active_comp_ver_str_len : ℕ
  pub active_comp_release_date : List ℕ
  pub pending_comp_comparison_stamp : ℕ
  pub pending_comp_ver_str_type : ℕ
  pub pending_comp_ver_str_len : ℕ
  pub pending_comp_release_date : List ℕ
  pub comp_activation_methods : ℕ
  pub capabilities_during_update : ℕ
  pub active_comp_ver_str : List ℕ
  pub pending_comp_ver_str : Option (List ℕ)

unfoldable pub get_active_fw_ver : ComponentParameterEntry → PldmFirmwareString
get_active_fw_ver e = record {
  str_type = e.active_comp_ver_str_type;
  str_len = e.active_comp_ver_str_len;
  str_data = e.active_comp_ver_str;
}

-- `FirmwareParameters`; the table is an array of `MAX_COMPONENT_COUNT` entries.
pub record FirmwareParameters : Type 0 where
  pub capabilities_during_update : ℕ
  pub comp_count : ℕ
  pub active_comp_image_set_ver_str_type : ℕ
  pub active_comp_image_set_ver_str_len : ℕ
  pub pending_comp_image_set_ver_str_type : ℕ
  pub pending_comp_image_set_ver_str_len : ℕ
  pub active_comp_image_set_ver_str : List ℕ
  pub pending_comp_image_set_ver_str : Option (List ℕ)
  pub comp_param_table : List ComponentParameterEntry

abbrev pub default_entry : ComponentParameterEntry
default_entry = record {
  comp_classification = 0;
  comp_identifier = 0;
  comp_classification_index = 0;
  active_comp_comparison_stamp = 0;
  active_comp_ver_str_type = 0;
  active_comp_ver_str_len = 0;
  active_comp_release_date = replicate 8 0;
  pending_comp_comparison_stamp = 0;
  pending_comp_ver_str_type = 0;
  pending_comp_ver_str_len = 0;
  pending_comp_release_date = replicate 8 0;
  comp_activation_methods = 0;
  capabilities_during_update = 0;
  active_comp_ver_str = replicate max_ver_str_len 0;
  pending_comp_ver_str = none;
}

unfoldable pub default_params : FirmwareParameters
default_params = record {
  capabilities_during_update = 0;
  comp_count = 0;
  active_comp_image_set_ver_str_type = 0;
  active_comp_image_set_ver_str_len = 0;
  pending_comp_image_set_ver_str_type = 0;
  pending_comp_image_set_ver_str_len = 0;
  active_comp_image_set_ver_str = replicate max_ver_str_len 0;
  pending_comp_image_set_ver_str = none;
  comp_param_table = replicate max_component_count default_entry;
}

unfoldable pub same_component : FirmwareComponent → ComponentParameterEntry → Bool
same_component c e =
    e.comp_classification == c.comp_classification
    && e.comp_identifier == c.comp_identifier
    && e.comp_classification_index == c.comp_classification_index

unfoldable pub find_entry :
    FirmwareComponent → List ComponentParameterEntry → Option ComponentParameterEntry
unfolding same_component
find_entry c [] = none
find_entry c (e ∷ es) = if same_component c e then some e else find_entry c es

unfoldable pub compare_with_entry :
    FirmwareComponent → ComponentParameterEntry → Outcome PldmError ComponentResponseCode
compare_with_entry c e =
    if c.comp_comparison_stamp == e.active_comp_comparison_stamp
    then ok comp_comparison_stamp_identical
    else if ltb c.comp_comparison_stamp e.active_comp_comparison_stamp
    then ok comp_comparison_stamp_lower
    else if string_eq c.comp_version (get_active_fw_ver e)
    then ok comp_ver_str_identical
    else do
      lower ← string_lt c.comp_version (get_active_fw_ver e)
      ok (if lower then comp_ver_str_lower else comp_can_be_updated)

unfoldable pub evaluate_update_eligibility :
    FirmwareComponent → FirmwareParameters → Outcome PldmError ComponentResponseCode
unfolding find_entry compare_with_entry
evaluate_update_eligibility c params = elim (find_entry c params.comp_param_table) [
  | some e ↦ compare_with_entry c e
  | none ↦ ok comp_not_supported
]
