-- ===== src/Transfer/Portion.antt =====
-- The responses that end in a portion, which the buffer lends them: `GetDeviceMetaDataResponse`,
-- `GetMetaDataResponse` and `QueryDownstreamIdentifiersResponse`. The three types have the same fields
-- and the same codec; a handle is little-endian on every target.
use pldm_lib.Base.{
  ℕ, ◌+◌, ◌≡◌, List, [], ◌∷◌, ◌++◌, ok, err, ltb, if◌then◌else◌, length, length-append, arith,
  append_assoc, subst, ◌>>=◌ as then_do,
}
use pldm_lib.Protocol.Base.{fw_update, PldmMsgType}
use pldm_lib.Protocol.Update.{FwUpdateCmd, fw_update_cmd_code}
use pldm_lib.Protocol.Error.{buffer_too_short}
use pldm_lib.Protocol.Header.{PldmMsgHeader, header_bytes, new_header}
use pldm_lib.Codec.{
  Reader, CodecResult, Written, Cursor, ◌>>=◌, pure, header, byte, int, put, finish, decode,
  write_to_prefix,
}
use pldm_lib.Codec.Order.{little_endian, little_endian-IsByteOrder, to_le}
use pldm_lib.Codec.Writes.{Writes, put-Writes, then-Writes, encoded}
use pldm_lib.Message.Device.{start, done_writing}

pub record PortionResponse : Type 0 where
  pub hdr : PldmMsgHeader
  pub completion_code : ℕ
  pub next_data_transfer_handle : ℕ
  pub transfer_flag : ℕ
  pub portion : List ℕ

-- The header, the completion code, the handle and the flag.
abbrev pub portion_offset : ℕ
portion_offset = 9

-- `&buffer[offset..]`
abbrev pub all_left : Reader (List ℕ)
all_left bs = ok (bs, [])

abbrev new_response : FwUpdateCmd → ℕ → ℕ → ℕ → ℕ → List ℕ → PortionResponse
new_response cmd id code handle flag portion = record {
  hdr = new_header id PldmMsgType.response fw_update (fw_update_cmd_code cmd);
  completion_code = code;
  next_data_transfer_handle = handle;
  transfer_flag = flag;
  portion = portion;
}

unfoldable pub new_device_meta_data_response : ℕ → ℕ → ℕ → ℕ → List ℕ → PortionResponse
new_device_meta_data_response = new_response FwUpdateCmd.get_device_meta_data

unfoldable pub new_meta_data_response : ℕ → ℕ → ℕ → ℕ → List ℕ → PortionResponse
new_meta_data_response = new_response FwUpdateCmd.get_meta_data

unfoldable pub new_identifiers_response : ℕ → ℕ → ℕ → ℕ → List ℕ → PortionResponse
new_identifiers_response = new_response FwUpdateCmd.query_downstream_identifiers

unfoldable pub portion_reader : Reader PortionResponse
portion_reader = do
  hdr ← header
  code ← byte
  handle ← int little_endian 4
  flag ← byte
  portion ← all_left
  pure (record {
    hdr = hdr;
    completion_code = code;
    next_data_transfer_handle = handle;
    transfer_flag = flag;
    portion = portion;
  })

unfoldable pub decode_portion : List ℕ → CodecResult PortionResponse
unfolding portion_reader decode
decode_portion buffer =
    if ltb (length buffer) portion_offset
    then err buffer_too_short
    else decode portion_reader buffer

unfoldable pub write_portion : PortionResponse → Cursor → CodecResult Cursor
unfolding put
write_portion r c =
    then_do
      (then_do
        (then_do (then_do (put (header_bytes r.hdr) c) (put (r.completion_code ∷ [])))
          (put (to_le 4 r.next_data_transfer_handle)))
        (put (r.transfer_flag ∷ [])))
      (put r.portion)

unfoldable pub encode_portion : PortionResponse → List ℕ → CodecResult Written
unfolding write_portion finish
encode_portion r buffer =
    if ltb (length buffer) (portion_offset + length r.portion)
    then err buffer_too_short
    else done_writing (write_portion r (start buffer))

unfoldable pub encode_meta_data : PortionResponse → List ℕ → CodecResult Written
unfolding encode_portion
encode_meta_data = encode_portion

unfoldable pub decode_meta_data : List ℕ → CodecResult PortionResponse
unfolding decode_portion
decode_meta_data = decode_portion

-- The bytes of a response.
abbrev pub portion_bytes : PortionResponse → List ℕ
portion_bytes r =
    header_bytes r.hdr
    ++ (r.completion_code ∷ (to_le 4 r.next_data_transfer_handle ++ (r.transfer_flag ∷ r.portion)))

-- Four fields and what `g` writes, one behind the other.
pub fields-Writes :
    (hdr code handle flag bs : List ℕ) (g : Cursor → CodecResult Cursor)
    → Writes bs g
    → Writes (hdr ++ (code ++ (handle ++ (flag ++ bs)))) (λ c.
      then_do (then_do (then_do (then_do (put hdr c) (put code)) (put handle)) (put flag)) g)
fields-Writes hdr code handle flag bs g w =
    let f1 : Cursor → CodecResult Cursor = λ c. then_do (put hdr c) (put code) in
    let f2 : Cursor → CodecResult Cursor = λ c. then_do (f1 c) (put handle) in
    let f3 : Cursor → CodecResult Cursor = λ c. then_do (f2 c) (put flag) in
    let w1 = then-Writes (put hdr) (put code) hdr code (put-Writes hdr) (put-Writes code) in
    let w2 = then-Writes f1 (put handle) (hdr ++ code) handle w1 (put-Writes handle) in
    let w3 = then-Writes f2 (put flag) ((hdr ++ code) ++ handle) flag w2 (put-Writes flag) in
    let w4 = then-Writes f3 g (((hdr ++ code) ++ handle) ++ flag) bs w3 w in
    subst (λ bs. Writes bs (λ c. then_do (f3 c) g)) (simp append_assoc) w4

write_portion-Writes : (r : PortionResponse) → Writes (portion_bytes r) (write_portion r)
unfolding write_portion
write_portion-Writes r =
    fields-Writes (header_bytes r.hdr) (r.completion_code ∷ [])
      (to_le 4 r.next_data_transfer_handle) (r.transfer_flag ∷ []) r.portion (put r.portion)
      (put-Writes r.portion)

pub length-portion_bytes :
    (r : PortionResponse) → length (portion_bytes r) ≡ portion_offset + length r.portion
unfolding header_bytes
length-portion_bytes r = simp (length-append, little_endian-IsByteOrder.length-write) (omega arith)

-- What is encoded is one write of the bytes.
pub encode_portion-write :
    (r : PortionResponse) (buffer : List ℕ)
    → encode_portion r buffer ≡ write_to_prefix (portion_bytes r) buffer
unfolding encode_portion
encode_portion-write r buffer =
    encoded (write_portion r) (portion_bytes r) buffer (portion_offset + length r.portion)
      (write_portion-Writes r) (length-portion_bytes r)
