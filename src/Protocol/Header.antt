-- ===== src/Protocol/Header.antt =====
-- The PLDM message header of `pldm-common/src/protocol/base.rs`: three bytes, with the bit ranges
-- that its `bitfield!` declares. Byte 0 holds the instance id (4..0), a reserved bit (5), datagram
-- (6) and rq (7); byte 1 the PLDM type (5..0) and the header version (7..6); byte 2 the command.
-- A setter keeps the other bits and stores the value cut to its field.
pub mod Laws
use pldm_lib.Base.{ℕ, ◌+◌, ◌*◌, ◌/◌, ◌%◌, Bool, List, [], ◌∷◌, ◌==◌, IsByte}
use pldm_lib.Protocol.Base.{
  PldmSupportedType, supported_type_code, PldmMsgType, request, response, msg_type_code,
}

pub record PldmMsgHeader : Type 0 where
  pub byte_0 : ℕ
  pub byte_1 : ℕ
  pub byte_2 : ℕ

abbrev pub IsHeader : PldmMsgHeader → Type 0
IsHeader h = IsByte h.byte_0 × IsByte h.byte_1 × IsByte h.byte_2

unfoldable pub instance_id : PldmMsgHeader → ℕ
instance_id h = h.byte_0 % 32

unfoldable pub reserved : PldmMsgHeader → ℕ
reserved h = h.byte_0 / 32 % 2

unfoldable pub datagram : PldmMsgHeader → ℕ
datagram h = h.byte_0 / 64 % 2

unfoldable pub rq : PldmMsgHeader → ℕ
rq h = h.byte_0 / 128 % 2

unfoldable pub pldm_type : PldmMsgHeader → ℕ
pldm_type h = h.byte_1 % 64

unfoldable pub hdr_ver : PldmMsgHeader → ℕ
hdr_ver h = h.byte_1 / 64 % 4

unfoldable pub cmd_code : PldmMsgHeader → ℕ
cmd_code h = h.byte_2

unfoldable pub set_instance_id : ℕ → PldmMsgHeader → PldmMsgHeader
set_instance_id v h = record h { byte_0 = h.byte_0 / 32 * 32 + v % 32 }

unfoldable pub set_datagram : ℕ → PldmMsgHeader → PldmMsgHeader
set_datagram v h = record h { byte_0 = h.byte_0 / 128 * 128 + v % 2 * 64 + h.byte_0 % 64 }

unfoldable pub set_rq : ℕ → PldmMsgHeader → PldmMsgHeader
set_rq v h = record h { byte_0 = v % 2 * 128 + h.byte_0 % 128 }

unfoldable pub set_pldm_type : ℕ → PldmMsgHeader → PldmMsgHeader
set_pldm_type v h = record h { byte_1 = h.byte_1 / 64 * 64 + v % 64 }

unfoldable pub set_hdr_ver : ℕ → PldmMsgHeader → PldmMsgHeader
set_hdr_ver v h = record h { byte_1 = v % 4 * 64 + h.byte_1 % 64 }

unfoldable pub set_command_code : ℕ → PldmMsgHeader → PldmMsgHeader
set_command_code v h = record h { byte_2 = v % 256 }

abbrev pub zero_header : PldmMsgHeader
zero_header = record { byte_0 = 0; byte_1 = 0; byte_2 = 0 }

-- `message_type as u8 & DATAGRAM_MASK`, and `(message_type as u8 & REQUEST_MASK) >> 1`, are the
-- bits 0 and 1 of the message type. `PldmHeaderVersion::Version0` is 0.
unfoldable pub new_header : ℕ → PldmMsgType → PldmSupportedType → ℕ → PldmMsgHeader
unfolding set_instance_id set_datagram set_rq set_pldm_type set_hdr_ver set_command_code
new_header instance message_type kind cmd = set_command_code cmd (
    set_hdr_ver 0 (
      set_pldm_type (supported_type_code kind) (
        set_rq (msg_type_code message_type / 2 % 2)
          (set_datagram (msg_type_code message_type % 2) (set_instance_id instance zero_header)))))

unfoldable pub is_request : PldmMsgHeader → Bool
unfolding rq
is_request h = rq h == msg_type_code request / 2

unfoldable pub is_hdr_ver_valid : PldmMsgHeader → Bool
unfolding hdr_ver
is_hdr_ver_valid h = hdr_ver h == 0

-- switch the message type to response
unfoldable pub into_response : PldmMsgHeader → PldmMsgHeader
unfolding set_rq
into_response h = set_rq (msg_type_code response) h

unfoldable pub header_bytes : PldmMsgHeader → List ℕ
header_bytes h = h.byte_0 ∷ h.byte_1 ∷ h.byte_2 ∷ []
