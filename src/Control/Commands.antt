-- ===== src/Control/Commands.antt =====
-- What GetPLDMCommands answers.
use pldm_lib.Base.{
  ℕ, ◌+◌, ◌≤◌, ◌<◌, ◌≡◌, refl, true, not, List, ◌∷◌, ◌++◌, some, Result, ok, length, take, drop,
  All, IsByte, arith, ◌>>=◌,
}
use pldm_lib.Protocol.Base.{
  PldmSupportedType, supported_type_try_from, PldmControlCmd, PldmBaseCompletionCode,
  base_completion_code,
}
use pldm_lib.Protocol.Header.{PldmMsgHeader, instance_id, header_bytes}
use pldm_lib.Codec.{decode}
use pldm_lib.Codec.Laws.{write_to_prefix_ok}
use pldm_lib.Codec.Order.{ByteOrder}
use pldm_lib.Fd.Invariant.Tables.{All-take}
use pldm_lib.Control.{
  ControlContext, contains, get_supported_commands, is_supported_type, is_supported_version,
}
use pldm_lib.Control.Bitmap.{is_bit_set}
use pldm_lib.Control.Bits.{is_bit_set-construct_bitmap}
use pldm_lib.Control.Responder.{
  control_header, pldm_cmds_bitmap_len, send_or_refuse, answer_commands, answer_version_commands,
  with_supported_type, commands_of_type, with_decoded, get_pldm_commands_request,
  get_pldm_commands_rsp,
}

abbrev success : ℕ
success = base_completion_code PldmBaseCompletionCode.success

-- The response of an instance id and a bitmap.
abbrev pub commands_bytes : ℕ → List ℕ → List ℕ
commands_bytes id bitmap =
    header_bytes (control_header id PldmControlCmd.get_pldm_commands) ++ success ∷ bitmap

length-commands_bytes :
    (id : ℕ) (bitmap : List ℕ) → length (commands_bytes id bitmap) ≡ 4 + length bitmap
unfolding header_bytes
length-commands_bytes id bitmap = omega arith

answer_commands-bits :
    (bo : ByteOrder) (hdr : PldmMsgHeader) (cmds : List ℕ) (ctx : ControlContext) (payload : List ℕ)
    → All IsByte cmds
    → 36 ≤ length payload
    → (bitmap : List ℕ) × (answer_commands bo hdr (some cmds) ctx payload
        ≡ (ok 36, ctx, commands_bytes (instance_id hdr) bitmap ++ drop 36 payload))
      × ((x : ℕ) → x < 256 → is_bit_set bitmap x ≡ ok (contains x (take 256 cmds)))
unfolding answer_commands send_or_refuse
answer_commands-bits bo hdr cmds ctx payload h room =
    let (bitmap, made, len, bits) =
      is_bit_set-construct_bitmap pldm_cmds_bitmap_len cmds (All-take IsByte 256 cmds h) in
    let bs = commands_bytes (instance_id hdr) bitmap in
    let size : length bs ≡ 36 =
      omega (arith, length-commands_bytes (instance_id hdr) bitmap, len) in
    let written = write_to_prefix_ok bs payload (omega (arith, size)) in
    (bitmap, rw (made, ◌>>=◌, written, size) refl, bits)

-- A GetPLDMCommands request for a type and a version that the table supports with commands that
-- are bytes, in a buffer of at least 36 bytes, is answered by 36 bytes: the header of the
-- response, success, and a bitmap in which a bit is set if and only if it is one of the first
-- 256 commands of that type and version.
pub get_pldm_commands_rsp-bits :
    (bo : ByteOrder) (ctx : ControlContext) (payload : List ℕ) (hdr : PldmMsgHeader)
    (code version : ℕ) (kind : PldmSupportedType) (cmds : List ℕ)
    → decode (get_pldm_commands_request bo) payload ≡ ok (hdr, code, version)
    → supported_type_try_from code ≡ Result.ok kind
    → is_supported_type kind ctx ≡ true
    → is_supported_version kind version ctx ≡ true
    → get_supported_commands kind version ctx ≡ some cmds
    → All IsByte cmds
    → 36 ≤ length payload
    → (bitmap : List ℕ) × (get_pldm_commands_rsp bo ctx payload
        ≡ (ok 36, ctx, commands_bytes (instance_id hdr) bitmap ++ drop 36 payload))
      × ((x : ℕ) → x < 256 → is_bit_set bitmap x ≡ ok (contains x (take 256 cmds)))
unfolding get_pldm_commands_rsp answer_version_commands
get_pldm_commands_rsp-bits bo ctx payload hdr code version kind cmds d t s v g h room =
    let (bitmap, answer, bits) = answer_commands-bits bo hdr cmds ctx payload h room in
    (
      bitmap,
      rw (d, with_decoded, commands_of_type, with_supported_type, t, s, not, v, g) answer,
      bits,
    )
