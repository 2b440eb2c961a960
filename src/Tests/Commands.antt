-- ===== src/Tests/Commands.antt =====
-- GetPLDMCommands on the table of the small platform.
use pldm_lib.Base.{
  ℕ, ◌≡◌, ◌<◌, refl, true, List, [], ◌∷◌, ◌++◌, some, ok, Result, arith, take, drop, replicate,
}
use pldm_lib.Protocol.Base.{fw_update, supported_type_try_from}
use pldm_lib.Protocol.Header.{PldmMsgHeader, instance_id}
use pldm_lib.Codec.{decode, header, byte, int, slice}
use pldm_lib.Codec.Order.{little_endian, from_le}
use pldm_lib.Control.{contains, get_supported_commands, is_supported_type, is_supported_version}
use pldm_lib.Control.Bitmap.{is_bit_set}
use pldm_lib.Control.Responder.{get_pldm_commands_request, get_pldm_commands_rsp}
use pldm_lib.Control.Commands.{commands_bytes, get_pldm_commands_rsp-bits}
use pldm_lib.Tests.{controls}

abbrev commands_request : List ℕ
commands_request = 0x81 ∷ 0 ∷ 5 ∷ 5 ∷ 0 ∷ 0xf0 ∷ 0xf1 ∷ 0xf1 ∷ replicate 28 0

abbrev request_header : PldmMsgHeader
request_header = record { byte_0 = 0x81; byte_1 = 0; byte_2 = 5 }

request-read :
    decode (get_pldm_commands_request little_endian) commands_request
    ≡ ok (request_header, 5, 0xf1f1f000)
unfolding get_pldm_commands_request decode header byte int slice from_le
request-read = refl

type-read : supported_type_try_from 5 ≡ Result.ok fw_update
unfolding supported_type_try_from
type-read = refl

type-supported : is_supported_type fw_update controls ≡ true
unfolding is_supported_type
type-supported = refl

version-supported : is_supported_version fw_update 0xf1f1f000 controls ≡ true
unfolding is_supported_version
version-supported = refl

commands-found :
    get_supported_commands fw_update 0xf1f1f000 controls ≡ some (0x10 ∷ 0x13 ∷ 0x14 ∷ [])
unfolding get_supported_commands
commands-found = refl

get_pldm_commands_rsp-bits_example :
    (bitmap : List ℕ) × (get_pldm_commands_rsp little_endian controls commands_request ≡ (
      ok 36,
      controls,
      commands_bytes (instance_id request_header) bitmap ++ drop 36 commands_request,
    ))
    × ((x : ℕ)
        → x < 256
        → is_bit_set bitmap x ≡ ok (contains x (take 256 (0x10 ∷ 0x13 ∷ 0x14 ∷ []))))
get_pldm_commands_rsp-bits_example =
    get_pldm_commands_rsp-bits little_endian controls commands_request request_header 5 0xf1f1f000
      fw_update (0x10 ∷ 0x13 ∷ 0x14 ∷ []) request-read type-read type-supported version-supported
      commands-found (ground arith) (omega arith)
