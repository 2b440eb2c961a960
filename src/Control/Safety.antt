-- ===== src/Control/Safety.antt =====
-- No control command panics, and none changes the capability table.
use pldm_lib.Base.{
  ℕ, ◌*◌, ◌<◌, ◌≡◌, refl, List, [], ◌∷◌, ◌++◌, Bool, true, false, ◌&&◌, not, some, ok, err, panic,
  arith, length, take, All, IsByte, Bool-cases, Result-cases, Outcome-cases, Option-cases, inl, inr,
  if◌then◌else◌, ltb, ◌==◌, ◌>>=◌,
}
use pldm_lib.Protocol.Base.{
  PldmSupportedType, supported_type_code, supported_type_try_from, PldmControlCmd,
}
use pldm_lib.Base.{subst}
use pldm_lib.Protocol.Header.{PldmMsgHeader, header_bytes, instance_id}
use pldm_lib.Codec.{Reader, decode, header, byte, write_to_prefix, CodecResult, Written}
use pldm_lib.Codec.Order.{ByteOrder}
use pldm_lib.Fd.Handler.{generate_failure_response}
use pldm_lib.Fd.Invariant.Encoders.{
  NoPanic, Total, total_rules, header-Total, decode-NoPanic, write_to_prefix-NoPanic,
}
use pldm_lib.Fd.Invariant.Tables.{All-take}
use pldm_lib.Control.{
  ControlContext, ProtocolCapability, contains, collect_types, get_supported_types,
  get_supported_commands, is_supported_type, is_supported_version, find_cap, type_eq,
}
use pldm_lib.Control.Bitmap.{construct_bitmap}
use pldm_lib.Control.Bits.{is_bit_set-construct_bitmap}
use pldm_lib.Control.Laws.{supported_version-HasCommands}
use pldm_lib.Control.Responder.{
  ControlAnswer, ControlHandler, control_refuse, send, send_or_refuse, with_decoded,
  with_supported_type, set_tid_request, get_pldm_commands_request, get_pldm_version_request,
  answer_types, answer_version_commands, answer_first_version, commands_of_type, version_of_type,
  control_header, answer_commands, answer_version, get_tid_rsp, set_tid_rsp, get_pldm_types_rsp,
  get_pldm_commands_rsp, get_pldm_version_rsp,
}

-- The supported commands are bytes.
abbrev pub HasByteCommands : List ProtocolCapability → Type 0
HasByteCommands = All λ cap. All IsByte cap.supported_commands

-- The call returned, and left the capability table as it was.
abbrev pub Keeps : List ProtocolCapability → ControlAnswer → Type 0
Keeps caps (panic, ctx, payload) = ⊥
Keeps caps (_, ctx, payload) = ctx.capabilities ≡ caps

pub control_refuse-Keeps :
    (code : ℕ) (ctx : ControlContext) (payload : List ℕ)
    → Keeps ctx.capabilities (control_refuse code ctx payload)
unfolding control_refuse generate_failure_response decode header write_to_prefix
control_refuse-Keeps code ctx payload = ground arith

send-Keeps :
    (caps : List ProtocolCapability) (r : CodecResult Written) (ctx : ControlContext)
    (payload : List ℕ)
    → NoPanic r
    → ctx.capabilities ≡ caps
    → Keeps caps (send r ctx payload)
unfolding send
send-Keeps caps r ctx payload h e = ground arith

send_or_refuse-Keeps :
    (r : CodecResult Written) (ctx : ControlContext) (payload : List ℕ)
    → NoPanic r
    → Keeps ctx.capabilities (send_or_refuse r ctx payload)
unfolding send_or_refuse
send_or_refuse-Keeps (ok a) ctx payload h = refl
send_or_refuse-Keeps (err e) ctx payload h = control_refuse-Keeps _ ctx payload
send_or_refuse-Keeps panic ctx payload h = h

with_decoded-Keeps :
    {A : Type 0} (r : Reader A) (k : A → ControlHandler) (ctx : ControlContext) (payload : List ℕ)
    → Total r
    → ((a : A) → Keeps ctx.capabilities (k a ctx payload))
    → Keeps ctx.capabilities (with_decoded r k ctx payload)
with_decoded-Keeps r k ctx payload total h = elim (Outcome-cases (decode r payload)) [
  | inl (a, e) ↦ rw (e, Keeps, with_decoded) (h a)
  | inr (inl (x, e)) ↦ rw (e, Keeps, with_decoded) (control_refuse-Keeps _ ctx payload)
  | inr (inr e) ↦ absurd (rw e at (decode-NoPanic r payload total))
]

guard-Keeps :
    (b : Bool) (code : ℕ) (m : ControlHandler) (ctx : ControlContext) (payload : List ℕ)
    → (b ≡ false → Keeps ctx.capabilities (m ctx payload))
    → Keeps ctx.capabilities (if b then control_refuse code ctx payload else m ctx payload)
guard-Keeps true code m ctx payload h = control_refuse-Keeps code ctx payload
guard-Keeps false code m ctx payload h = h refl

with_supported_type-Keeps :
    (code : ℕ) (k : PldmSupportedType → ControlHandler) (ctx : ControlContext) (payload : List ℕ)
    → ((kind : PldmSupportedType) → Keeps ctx.capabilities (k kind ctx payload))
    → Keeps ctx.capabilities (with_supported_type code k ctx payload)
with_supported_type-Keeps code k ctx payload h =
    elim (Result-cases (supported_type_try_from code)) [
      | inl (kind, e) ↦
          rw (e, Keeps, with_supported_type)
            (guard-Keeps (not (is_supported_type kind ctx)) _ (k kind) ctx payload λ q. h kind)
      | inr (x, e) ↦ rw (e, Keeps, with_supported_type) (control_refuse-Keeps _ ctx payload)
    ]

set_tid_request-Total : Total set_tid_request
unfolding set_tid_request
set_tid_request-Total = search total_rules depth 12

pldm_commands_request-Total : (bo : ByteOrder) → Total (get_pldm_commands_request bo)
unfolding get_pldm_commands_request
pldm_commands_request-Total bo = search total_rules depth 16

pldm_version_request-Total : (bo : ByteOrder) → Total (get_pldm_version_request bo)
unfolding get_pldm_version_request
pldm_version_request-Total bo = search total_rules depth 20

-- A bitmap of items below `n * 8` is written without a panic.
write_bitmap-NoPanic :
    (n : ℕ) (items : List ℕ) (write : List ℕ → CodecResult Written)
    → 0 < n
    → ((bitmap : List ℕ) → NoPanic (write bitmap))
    → All (λ y. y < n * 8) (take (n * 8) items)
    → NoPanic (construct_bitmap n items >>= write)
write_bitmap-NoPanic n items write pos h fits =
    let (bitmap, e, same, bit) = is_bit_set-construct_bitmap n items fits in
    rw (e, NoPanic) (h bitmap)

abbrev IsTypeCode : ℕ → Type 0
IsTypeCode x = x < 64

supported_type_code-IsTypeCode : (k : PldmSupportedType) → IsTypeCode (supported_type_code k)
supported_type_code-IsTypeCode k = ground arith

All-snoc :
    {A : Type 0} (P : A → Type 0) (xs : List A) (a : A) → All P xs → P a → All P (xs ++ a ∷ [])
All-snoc P [] a h p = (p, tt)
All-snoc P (x ∷ xs) a h p = (h.0, All-snoc P xs a h.1 p)

collect_types-All :
    (n : ℕ) (seen : List ℕ) (cs : List ProtocolCapability)
    → All IsTypeCode seen
    → All IsTypeCode (collect_types n seen cs)
unfolding collect_types
collect_types-All n seen [] h = h
collect_types-All n seen (c ∷ cs) h =
    let kind = supported_type_code c.pldm_type in
    elim (Bool-cases (contains kind seen)) [
      | inl e ↦ rw e (collect_types-All n seen cs h)
      | inr e ↦ elim (Bool-cases (ltb (length seen) n)) [
        | inl l ↦
            rw (e, l)
              (collect_types-All n (seen ++ kind ∷ []) cs
                (All-snoc IsTypeCode seen kind h (supported_type_code-IsTypeCode c.pldm_type)))
        | inr l ↦ rw (e, l) h
      ]
    ]

same_cap :
    (P : ProtocolCapability → Type 0) (d c : ProtocolCapability) → some d ≡ some c → P d → P c
same_cap P d c e h = subst P (ground arith) h

find_cap-All :
    (P : ProtocolCapability → Type 0) (p : ProtocolCapability → Bool) (cs : List ProtocolCapability)
    (c : ProtocolCapability)
    → All P cs
    → find_cap p cs ≡ some c
    → P c
unfolding find_cap
find_cap-All P p [] c h e = ground arith
find_cap-All P p (d ∷ ds) c h e = elim (Bool-cases (p d)) [
  | inl q ↦ same_cap P d c (rw q at e) h.0
  | inr q ↦ find_cap-All P p ds c h.1 (rw q at e)
]

commands-bytes :
    (k : PldmSupportedType) (v : ℕ) (ctx : ControlContext) (cmds : List ℕ)
    → HasByteCommands ctx.capabilities
    → get_supported_commands k v ctx ≡ some cmds
    → All IsByte cmds
unfolding get_supported_commands
commands-bytes k v ctx cmds h e =
    elim (Option-cases
      (find_cap (λ cap. type_eq cap.pldm_type k && (cap.protocol_version == v)) ctx.capabilities)) [
        | inl q ↦ ground arith
        | inr (cap, q) ↦
            let f =
              find_cap-All (λ c. All IsByte c.supported_commands) _ ctx.capabilities cap h q in
            subst (All IsByte) (ground arith) f
      ]

pub get_tid_rsp-Keeps :
    (ctx : ControlContext) (payload : List ℕ) → Keeps ctx.capabilities (get_tid_rsp ctx payload)
unfolding get_tid_rsp send control_refuse generate_failure_response decode header write_to_prefix
get_tid_rsp-Keeps ctx payload = ground arith

pub set_tid_rsp-Keeps :
    (ctx : ControlContext) (payload : List ℕ) → Keeps ctx.capabilities (set_tid_rsp ctx payload)
unfolding set_tid_rsp set_tid_request send control_refuse generate_failure_response decode header
    byte write_to_prefix
set_tid_rsp-Keeps ctx payload = ground arith

answer_types-Keeps :
    (hdr : PldmMsgHeader) (ctx : ControlContext) (payload : List ℕ)
    → Keeps ctx.capabilities (answer_types hdr ctx payload)
unfolding answer_types get_supported_types
answer_types-Keeps hdr ctx payload =
    let types = collect_types 6 [] ctx.capabilities in
    let write = λ (bitmap : List ℕ).
      write_to_prefix
        (header_bytes (control_header (instance_id hdr) PldmControlCmd.get_pldm_types)
          ++ 0 ∷ bitmap)
        payload in
    send-Keeps ctx.capabilities (construct_bitmap 8 types >>= write) ctx payload
      (write_bitmap-NoPanic 8 types write (omega arith)
        (λ bitmap. write_to_prefix-NoPanic _ payload)
        (All-take IsTypeCode 64 types (collect_types-All 6 [] ctx.capabilities tt)))
      refl

pub get_pldm_types_rsp-Keeps :
    (ctx : ControlContext) (payload : List ℕ)
    → Keeps ctx.capabilities (get_pldm_types_rsp ctx payload)
unfolding get_pldm_types_rsp
get_pldm_types_rsp-Keeps ctx payload =
    with_decoded-Keeps header answer_types ctx payload header-Total
      λ hdr. answer_types-Keeps hdr ctx payload

module _ (bo : ByteOrder) where
  answer_commands-Keeps :
      (hdr : PldmMsgHeader) (cmds : List ℕ) (ctx : ControlContext) (payload : List ℕ)
      → All IsByte cmds
      → Keeps ctx.capabilities (answer_commands bo hdr (some cmds) ctx payload)
  unfolding answer_commands
  answer_commands-Keeps hdr cmds ctx payload h =
      let write = λ (bitmap : List ℕ).
        write_to_prefix
          (header_bytes (control_header (instance_id hdr) PldmControlCmd.get_pldm_commands)
            ++ 0 ∷ bitmap)
          payload in
      send_or_refuse-Keeps (construct_bitmap 32 cmds >>= write) ctx payload (
        write_bitmap-NoPanic 32 cmds write (omega arith)
          (λ bitmap. write_to_prefix-NoPanic _ payload) (All-take IsByte 256 cmds h))

  version_commands-Keeps :
      (hdr : PldmMsgHeader) (version : ℕ) (kind : PldmSupportedType) (ctx : ControlContext)
      (payload : List ℕ)
      → HasByteCommands ctx.capabilities
      → Keeps ctx.capabilities (answer_version_commands bo hdr version kind ctx payload)
  unfolding answer_version_commands
  version_commands-Keeps hdr version kind ctx payload h =
      guard-Keeps (not (is_supported_version kind version ctx)) _
        (answer_commands bo hdr (get_supported_commands kind version ctx)) ctx payload
        λ q.
          let (cmds, e) = supported_version-HasCommands kind version ctx (ground arith) in
          rw (e, Keeps)
            (answer_commands-Keeps hdr cmds ctx payload (commands-bytes kind version ctx cmds h e))

  pub get_pldm_commands_rsp-Keeps :
      (ctx : ControlContext) (payload : List ℕ)
      → HasByteCommands ctx.capabilities
      → Keeps ctx.capabilities (get_pldm_commands_rsp bo ctx payload)
  unfolding get_pldm_commands_rsp
  get_pldm_commands_rsp-Keeps ctx payload h =
      with_decoded-Keeps (get_pldm_commands_request bo) (commands_of_type bo) ctx payload
        (pldm_commands_request-Total bo)
        λ req.
          with_supported_type-Keeps req.1 (answer_version_commands bo req.0 req.2) ctx payload
            λ kind. version_commands-Keeps req.0 req.2 kind ctx payload h

  answer_version-Keeps :
      (hdr : PldmMsgHeader) (versions : List ℕ) (ctx : ControlContext) (payload : List ℕ)
      → Keeps ctx.capabilities (answer_version bo hdr versions ctx payload)
  unfolding answer_version
  answer_version-Keeps hdr [] ctx payload = control_refuse-Keeps _ ctx payload
  answer_version-Keeps hdr (v ∷ vs) ctx payload =
      send_or_refuse-Keeps _ ctx payload (write_to_prefix-NoPanic _ payload)

  pub get_pldm_version_rsp-Keeps :
      (ctx : ControlContext) (payload : List ℕ)
      → Keeps ctx.capabilities (get_pldm_version_rsp bo ctx payload)
  unfolding get_pldm_version_rsp answer_first_version
  get_pldm_version_rsp-Keeps ctx payload =
      with_decoded-Keeps (get_pldm_version_request bo) (version_of_type bo) ctx payload
        (pldm_version_request-Total bo)
        λ req.
          with_supported_type-Keeps req.2 (answer_first_version bo req.0 req.1) ctx payload λ kind.
            guard-Keeps (not (req.1 == 1)) _ (answer_version bo req.0 _) ctx payload
              λ q. answer_version-Keeps req.0 _ ctx payload
