-- ===== src/Mctp.antt =====
-- `pldm-common/src/util/mctp_transport.rs`: the one byte of MCTP in front of a PLDM message. Bit 7
-- of it is the integrity check, and bits 6..0 are the message type.
pub mod Laws
use pldm_lib.Base.{
  ℕ, ◌+◌, ◌/◌, ◌%◌, Bool, ◌||◌, not, List, [], ◌∷◌, Result, length, ltb, ◌==◌, if◌then◌else◌,
}
use pldm_lib.Protocol.Error.{UtilError, invalid_mctp_payload_length, invalid_mctp_msg_type}
use pldm_lib.Protocol.Base.{pldm_msg_header_len}

abbrev pub mctp_pldm_msg_type : ℕ
mctp_pldm_msg_type = 0x01

abbrev pub pldm_msg_offset : ℕ
pldm_msg_offset = 1

abbrev ic : ℕ → ℕ
ic b = b / 128 % 2

abbrev msg_type : ℕ → ℕ
msg_type b = b % 128

abbrev is_pldm : ℕ → Bool
is_pldm b =
    if not (ic b == 0) || not (msg_type b == mctp_pldm_msg_type) then Bool.false else Bool.true

-- The PLDM message in the buffer. A buffer of at least four bytes is not empty.
unfoldable pub extract_pldm_msg : List ℕ → Result UtilError (List ℕ)
extract_pldm_msg [] = Result.err invalid_mctp_payload_length
extract_pldm_msg (b ∷ bs) =
    if ltb (length (b ∷ bs)) (1 + pldm_msg_header_len)
    then Result.err invalid_mctp_payload_length
    else if is_pldm b
    then Result.ok bs
    else Result.err invalid_mctp_msg_type

-- The MCTP byte that is written, and the rest of the buffer, for the PLDM message.
unfoldable pub construct_mctp_pldm_msg : List ℕ → Result UtilError (ℕ × List ℕ)
construct_mctp_pldm_msg [] = Result.err invalid_mctp_payload_length
construct_mctp_pldm_msg (b ∷ bs) =
    if ltb (length (b ∷ bs)) (1 + pldm_msg_header_len)
    then Result.err invalid_mctp_payload_length
    else Result.ok (mctp_pldm_msg_type, bs)
