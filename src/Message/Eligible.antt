-- ===== src/Message/Eligible.antt =====
-- Which components `evaluate_update_eligibility` of `pldm-common/src/util/fw_component.rs` lets through.
use pldm_lib.Base.{
  true, List, [], ◌∷◌, ◌<◌, ◌≡◌, ◌≢◌, ◌↔◌, refl, false, some, ok, arith, Option-cases, inl, inr,
}
use pldm_lib.Base.First.{IsFirst, find, find-IsFirst}
use pldm_lib.Protocol.Results.{comp_can_be_updated}
use pldm_lib.Message.Str.{
  PldmFirmwareString, FirmwareComponent, FirmwareParameters, ComponentParameterEntry,
  get_active_fw_ver, string_eq, string_lt, same_component, find_entry, compare_with_entry,
  evaluate_update_eligibility,
}
use pldm_lib.Message.Order.{IsNotBelow, string_eq_iff, string_lt-IsNotBelow}

-- An entry for the component.
pub record IsEntryOf (c : FirmwareComponent) (e : ComponentParameterEntry) : Type 0 where
  pub same_classification : e.comp_classification ≡ c.comp_classification
  pub same_identifier : e.comp_identifier ≡ c.comp_identifier
  pub same_index : e.comp_classification_index ≡ c.comp_classification_index

-- The version string of the active image.
abbrev pub active_string : ComponentParameterEntry → PldmFirmwareString
active_string e = record {
  str_type = e.active_comp_ver_str_type;
  str_len = e.active_comp_ver_str_len;
  str_data = e.active_comp_ver_str;
}

-- The component has a greater comparison stamp than the active image, and a version string that
-- is neither the active one nor below it.
pub record IsNewer (c : FirmwareComponent) (e : ComponentParameterEntry) : Type 0 where
  pub stamp_above : e.active_comp_comparison_stamp < c.comp_comparison_stamp
  pub string_differs : c.comp_version ≢ active_string e
  pub string_not_below : IsNotBelow c.comp_version (active_string e)

compare-IsNewer :
    (c : FirmwareComponent) (e : ComponentParameterEntry)
    → compare_with_entry c e ≡ ok comp_can_be_updated
    → IsNewer c e
unfolding compare_with_entry get_active_fw_ver
compare-IsNewer c e h =
    let stamp : e.active_comp_comparison_stamp < c.comp_comparison_stamp = ground arith in
    let other : string_eq c.comp_version (active_string e) ≡ false = ground arith in
    let above : string_lt c.comp_version (active_string e) ≡ ok false = ground arith in
    record {
      stamp_above = stamp;
      string_differs =
          λ q. let same = (string_eq_iff c.comp_version (active_string e)).1 q in ground arith;
      string_not_below = (string_lt-IsNotBelow c.comp_version (active_string e)).0 above;
    }

IsNewer-compare :
    (c : FirmwareComponent) (e : ComponentParameterEntry)
    → IsNewer c e
    → compare_with_entry c e ≡ ok comp_can_be_updated
unfolding compare_with_entry get_active_fw_ver
IsNewer-compare c e h =
    let same = string_eq_iff c.comp_version (active_string e) in
    let above = (string_lt-IsNotBelow c.comp_version (active_string e)).1 h.string_not_below in
    ground (arith, h.stamp_above, h.string_differs, same.0, above)

same_component_iff :
    (c : FirmwareComponent) (e : ComponentParameterEntry)
    → (same_component c e ≡ true) ↔ IsEntryOf c e
unfolding same_component
same_component_iff c e = (λ h. ground arith, λ h. ground arith)

find_entry-find :
    (c : FirmwareComponent) (es : List ComponentParameterEntry)
    → find_entry c es ≡ find (same_component c) es
unfolding find_entry
find_entry-find c [] = refl
find_entry-find c (e ∷ es) = rw (find_entry-find c es) refl

find_entry-IsFirst :
    (c : FirmwareComponent) (e : ComponentParameterEntry) (es : List ComponentParameterEntry)
    → (find_entry c es ≡ some e) ↔ IsFirst (IsEntryOf c) e es
find_entry-IsFirst c e es =
    rw (find_entry-find c es)
      (find-IsFirst (same_component c) (IsEntryOf c) (same_component_iff c) e es)

-- A component can be updated if and only if the table has an entry with its classification, its
-- identifier and its index, and for the first such entry the component has a greater comparison
-- stamp than the active image and another version string than it, which is not below the active
-- one: it has another type, or both lengths fit their arrays and its bytes are not
-- lexicographically less.
pub evaluate-IsNewer :
    (c : FirmwareComponent) (p : FirmwareParameters)
    → (evaluate_update_eligibility c p ≡ ok comp_can_be_updated)
      ↔ ((e : ComponentParameterEntry) × IsFirst (IsEntryOf c) e p.comp_param_table × IsNewer c e)
unfolding evaluate_update_eligibility
evaluate-IsNewer c p = (
  λ h. elim (Option-cases (find_entry c p.comp_param_table)) [
    | inl q ↦ ground arith
    | inr (e, q) ↦ (
      e,
      (find_entry-IsFirst c e p.comp_param_table).0 q,
      compare-IsNewer c e (rw (q, evaluate_update_eligibility) at h),
    )
  ],
  λ (e, first, n).
      rw ((find_entry-IsFirst c e p.comp_param_table).1 first, evaluate_update_eligibility)
        (IsNewer-compare c e n),
)
