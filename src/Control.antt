-- ===== src/Control.antt =====
-- `ControlContext` of `pldm-interface/src/control_context.rs`: the terminus id, and the table of the
-- protocols that the device supports. A version is its u32, and commands are bytes.
pub mod Bitmap
pub mod Bits
pub mod Commands
pub mod Responder
pub mod Laws
pub mod Types
pub mod Safety
use pldm_lib.Base.{
  ℕ, Bool, true, false, ◌&&◌, ◌||◌, List, [], ◌∷◌, ◌++◌, Option, none, some, length, take, ltb,
  ◌==◌, if◌then◌else◌,
}
use pldm_lib.Protocol.Base.{PldmSupportedType, supported_type_code}

pub record ProtocolCapability : Type 0 where
  pub pldm_type : PldmSupportedType
  pub protocol_version : ℕ
  pub supported_commands : List ℕ

pub record ControlContext : Type 0 where
  pub tid : ℕ
  pub capabilities : List ProtocolCapability

abbrev pub unassigned_tid : ℕ
unassigned_tid = 0

unfoldable pub new_control_context : List ProtocolCapability → ControlContext
new_control_context caps = record { tid = unassigned_tid; capabilities = caps }

-- the derived `==` of types, which have different codes
abbrev pub type_eq : PldmSupportedType → PldmSupportedType → Bool
type_eq a b = supported_type_code a == supported_type_code b

-- `slice.contains(&x)`
unfoldable pub contains : ℕ → List ℕ → Bool
contains x [] = false
contains x (y ∷ ys) = (y == x) || contains x ys

unfoldable pub any_cap : (ProtocolCapability → Bool) → List ProtocolCapability → Bool
any_cap p [] = false
any_cap p (c ∷ cs) = p c || any_cap p cs

unfoldable pub find_cap :
    (ProtocolCapability → Bool) → List ProtocolCapability → Option ProtocolCapability
find_cap p [] = none
find_cap p (c ∷ cs) = if p c then some c else find_cap p cs

abbrev of_type : PldmSupportedType → ProtocolCapability → Bool
of_type k cap = type_eq cap.pldm_type k

abbrev of_version : PldmSupportedType → ℕ → ProtocolCapability → Bool
of_version k v cap = type_eq cap.pldm_type k && (cap.protocol_version == v)

abbrev commands_of : Option ProtocolCapability → Option (List ℕ)
commands_of none = none
commands_of (some cap) = some cap.supported_commands

unfoldable pub get_supported_commands : PldmSupportedType → ℕ → ControlContext → Option (List ℕ)
unfolding find_cap
get_supported_commands k v ctx = commands_of (find_cap (of_version k v) ctx.capabilities)

-- The versions that are written to a slice of length `n`.
unfoldable pub get_protocol_versions : PldmSupportedType → ℕ → List ProtocolCapability → List ℕ
get_protocol_versions k n [] = []
get_protocol_versions k n (c ∷ cs) =
    if type_eq c.pldm_type k
    then elim n [ ℕ.zero ↦ [] | ℕ.suc m ↦ c.protocol_version ∷ get_protocol_versions k m cs ]
    else get_protocol_versions k n cs

-- The types that are written to a slice of length `n`, with those written before, `seen`.
unfoldable pub collect_types : ℕ → List ℕ → List ProtocolCapability → List ℕ
unfolding contains
collect_types n seen [] = seen
collect_types n seen (c ∷ cs) =
    let kind = supported_type_code c.pldm_type in
    if contains kind seen
    then collect_types n seen cs
    else if ltb (length seen) n
    then collect_types n (seen ++ kind ∷ []) cs
    else seen

unfoldable pub get_supported_types : ℕ → ControlContext → List ℕ
unfolding collect_types
get_supported_types n ctx = collect_types n [] ctx.capabilities

unfoldable pub is_supported_type : PldmSupportedType → ControlContext → Bool
unfolding any_cap
is_supported_type k ctx = any_cap (of_type k) ctx.capabilities

unfoldable pub is_supported_version : PldmSupportedType → ℕ → ControlContext → Bool
unfolding any_cap
is_supported_version k v ctx = any_cap (of_version k v) ctx.capabilities

abbrev has_command : ℕ → Option ProtocolCapability → Bool
has_command cmd none = false
has_command cmd (some cap) = contains cmd cap.supported_commands

unfoldable pub is_supported_command : PldmSupportedType → ℕ → ControlContext → Bool
unfolding find_cap contains
is_supported_command k cmd ctx = has_command cmd (find_cap (of_type k) ctx.capabilities)
