-- ===== src/Protocol/Header/Laws.antt =====
-- The fields of a header that `new` builds and of one that `into_response` turns around.
use pldm_lib.Base.{ℕ, ◌<◌, ◌%◌, ◌/◌, ◌≡◌, false, arith}
use pldm_lib.Protocol.Base.{PldmSupportedType, supported_type_code, PldmMsgType, msg_type_code}
use pldm_lib.Protocol.Header.{
  PldmMsgHeader, IsHeader, instance_id, reserved, datagram, rq, pldm_type, hdr_ver, cmd_code,
  new_header, is_request, into_response,
}

-- What a reader of the header finds in it.
pub record Reads (h : PldmMsgHeader) (id kind cmd : ℕ) (t : PldmMsgType) : Type 0 where
  pub is_header : IsHeader h
  pub reads_id : instance_id h ≡ id
  pub reads_reserved : reserved h ≡ 0
  pub reads_datagram : datagram h ≡ msg_type_code t % 2
  pub reads_rq : rq h ≡ msg_type_code t / 2 % 2
  pub reads_type : pldm_type h ≡ kind
  pub reads_version : hdr_ver h ≡ 0
  pub reads_cmd : cmd_code h ≡ cmd

-- Every field of a header that was built for an instance id below 32 and a command below 256
-- reads back as it was given, with no reserved bit and version 0.
pub new_header-Reads :
    (id : ℕ) (t : PldmMsgType) (kind : PldmSupportedType) (cmd : ℕ)
    → id < 32
    → cmd < 256
    → Reads (new_header id t kind cmd) id (supported_type_code kind) cmd t
unfolding new_header instance_id reserved datagram rq pldm_type hdr_ver cmd_code
new_header-Reads id t kind cmd h k = ground arith

-- Turning a header of bytes into a response clears its request bit and keeps every other field
-- and the bytes.
into_response_fields :
    (h : PldmMsgHeader)
    → IsHeader h
    → IsHeader (into_response h)
      × (is_request (into_response h) ≡ false)
      × (instance_id (into_response h) ≡ instance_id h)
      × (datagram (into_response h) ≡ datagram h)
      × (pldm_type (into_response h) ≡ pldm_type h)
      × (hdr_ver (into_response h) ≡ hdr_ver h)
      × (cmd_code (into_response h) ≡ cmd_code h)
unfolding into_response is_request instance_id datagram pldm_type hdr_ver cmd_code
into_response_fields h b = ground arith
