-- ===== src/Control/Types.antt =====
-- The types that GetPLDMTypes reports, and the terminus id.
use pldm_lib.Base.{
  ℕ, ◌%◌, ◌≤◌, ◌≡◌, List, [], ◌∷◌, ◌++◌, Bool-cases, inl, inr, ltb, length, length-append, ok,
  arith,
}
use pldm_lib.Protocol.Base.{supported_type_code}
use pldm_lib.Codec.{decode, header, write_to_prefix, byte}
use pldm_lib.Control.{
  ProtocolCapability, ControlContext, contains, collect_types, get_supported_types,
}
use pldm_lib.Control.Responder.{set_tid_rsp, set_tid_request, send, get_tid_rsp}
use pldm_lib.Protocol.Header.{header_bytes, new_header, instance_id}

collect_types-length :
    (n : ℕ) (seen : List ℕ) (cs : List ProtocolCapability)
    → length seen ≤ n
    → length (collect_types n seen cs) ≤ n
unfolding collect_types
collect_types-length n seen [] h = h
collect_types-length n seen (c ∷ cs) h =
    let kind = supported_type_code c.pldm_type in
    elim (Bool-cases (contains kind seen)) [
      | inl e ↦ rw e (collect_types-length n seen cs h)
      | inr e ↦ elim (Bool-cases (ltb (length seen) n)) [
        | inl l ↦
            rw (e, l)
              (collect_types-length n (seen ++ kind ∷ []) cs
                (ground (arith, length-append seen (kind ∷ []))))
        | inr l ↦ rw (e, l) h
      ]
    ]

-- No more types are reported than fit the array they are written to.
get_supported_types-length : (n : ℕ) (ctx : ControlContext) → length (get_supported_types n ctx) ≤ n
unfolding get_supported_types
get_supported_types-length n ctx = collect_types-length n [] ctx.capabilities (omega arith)

abbrev pub get_tid_answer : ℕ → ℕ → List ℕ → List ℕ
get_tid_answer a tid rest = a % 32 ∷ 0x00 ∷ 0x02 ∷ 0x00 ∷ tid ∷ rest

-- A SetTID request of at least four bytes is answered by four, and a GetTID request of at least
-- five bytes after it by five: its instance id, the base type, the command, success and the
-- terminus id that was set.
pub get_tid-set_tid :
    (ctx : ControlContext) (a b d tid a' b' d' x y : ℕ) (rest rest' : List ℕ)
    → let (r, ctx', payload) = set_tid_rsp ctx (a ∷ b ∷ d ∷ tid ∷ rest) in
      (r ≡ ok 4)
      × (get_tid_rsp ctx' (a' ∷ b' ∷ d' ∷ x ∷ y ∷ rest')
          ≡ (ok 5, ctx', get_tid_answer a' tid rest'))
unfolding set_tid_rsp set_tid_request get_tid_rsp send decode header byte write_to_prefix
    header_bytes new_header instance_id
get_tid-set_tid ctx a b d tid a' b' d' x y rest rest' = ground arith
