-- ===== src/Cmd/Answers.antt =====
-- Which messages the device takes as the answer to its own request: `process_initiator_response` of
-- `cmd_interface.rs` and `handle_response` of `fd_context.rs`.
use pldm_lib.Base.{
  ℕ, ◌%◌, ◌/◌, ap, ◌∙◌, ◌≡◌, refl, true, false, List, [], ◌∷◌, some, Result, err, arith, Bool-cases,
  Result-cases, inl, inr,
}
use pldm_lib.Protocol.Error.{UtilError, util, MsgHandlerError, fd_initiator_mode_error}
use pldm_lib.Protocol.Header.{PldmMsgHeader, instance_id, cmd_code}
use pldm_lib.Codec.{decode, header}
use pldm_lib.Mctp.{extract_pldm_msg}
use pldm_lib.Fd.Internal.{FdReq, sent}
use pldm_lib.Fd.Ops.{Target}
use pldm_lib.Fd.Reply.{expects}
use pldm_lib.Fd.Flow.Replies.{handle_response-unexpected}
use pldm_lib.Cmd.{CmdInterface, context, process_initiator_response}

-- The request was sent, the five low bits of the byte `a` are its instance id, and `c` is its command.
abbrev pub IsMatched : FdReq → ℕ → ℕ → Type 0
IsMatched r a c = (r.state ≡ sent) × (r.instance_id ≡ some (a % 32)) × (r.command ≡ some c)

-- The message answers the request: it is a PLDM message without an integrity check, with a header
-- whose first and third byte match the request.
abbrev pub IsAnswerTo : FdReq → List ℕ → Type 0
IsAnswerTo r (m ∷ a ∷ b ∷ c ∷ rest) = (m / 128 % 2 ≡ 0) × (m % 128 ≡ 1) × IsMatched r a c
IsAnswerTo r _ = ⊥

header_of : ℕ → ℕ → ℕ → PldmMsgHeader
header_of a b c = record { byte_0 = a; byte_1 = b; byte_2 = c }

expects-IsMatched : (r : FdReq) (a b c : ℕ) → expects r (header_of a b c) ≡ true → IsMatched r a c
unfolding expects instance_id cmd_code header_of
expects-IsMatched r a b c h = ground arith

extract-message :
    (m a b c : ℕ) (rest payload : List ℕ)
    → extract_pldm_msg (m ∷ a ∷ b ∷ c ∷ rest) ≡ Result.ok payload
    → (payload ≡ a ∷ b ∷ c ∷ rest) × (m / 128 % 2 ≡ 0) × (m % 128 ≡ 1)
unfolding extract_pldm_msg
extract-message m a b c rest payload h = ground arith

module _ {W : Type 0} (t : Target W) where
  Ignored : CmdInterface W → List ℕ → Type 0
  Ignored s msg = (e : MsgHandlerError) × (process_initiator_response t s msg ≡ (err e, s))

  refused-Ignored :
      (s : CmdInterface W) (msg : List ℕ) (e : UtilError)
      → extract_pldm_msg msg ≡ Result.err e
      → Ignored s msg
  unfolding process_initiator_response Ignored
  refused-Ignored s msg e q = (util e, rw (q, process_initiator_response) refl)

  unmatched-Ignored :
      (s : CmdInterface W) (msg : List ℕ) (a b c : ℕ) (rest : List ℕ)
      → extract_pldm_msg msg ≡ Result.ok (a ∷ b ∷ c ∷ rest)
      → ¬ IsMatched s.internal.req a c
      → Ignored s msg
  unfolding process_initiator_response decode header header_of Ignored
  unmatched-Ignored s msg a b c rest q h =
      let ctx = context t s (a ∷ b ∷ c ∷ rest) in
      let stray : expects s.internal.req (header_of a b c) ≡ false =
        elim (Bool-cases (expects s.internal.req (header_of a b c))) [
          | inl f ↦ absurd (h (expects-IsMatched s.internal.req a b c f))
          | inr f ↦ f
        ] in
      (
        fd_initiator_mode_error,
        rw
            (
              q,
              process_initiator_response,
              handle_response-unexpected t (header_of a b c) ctx refl stray,
            )
            refl,
      )

  -- A message that does not answer the request that is out is an error and changes nothing: one
  -- of fewer than four bytes, one that is no PLDM message or has an integrity check, one with
  -- another instance id or another command than the request, and every message while no request
  -- was sent.
  pub process_initiator_response-stray :
      (s : CmdInterface W) (msg : List ℕ)
      → ¬ IsAnswerTo s.internal.req msg
      → (e : MsgHandlerError) × (process_initiator_response t s msg ≡ (err e, s))
  unfolding extract_pldm_msg Ignored
  process_initiator_response-stray s [] h = refused-Ignored s [] _ refl
  process_initiator_response-stray s (m ∷ []) h = refused-Ignored s (m ∷ []) _ refl
  process_initiator_response-stray s (m ∷ a ∷ []) h = refused-Ignored s (m ∷ a ∷ []) _ refl
  process_initiator_response-stray s (m ∷ a ∷ b ∷ []) h = refused-Ignored s (m ∷ a ∷ b ∷ []) _ refl
  process_initiator_response-stray s (m ∷ a ∷ b ∷ c ∷ rest) h =
      let msg = m ∷ a ∷ b ∷ c ∷ rest in
      elim (Result-cases (extract_pldm_msg msg)) [
        | inl (payload, q) ↦
            let (same, check, kind) = extract-message m a b c rest payload q in
            unmatched-Ignored s msg a b c rest (q ∙ ap Result.ok same)
              (λ matched. h (check, kind, matched))
        | inr (e, q) ↦ refused-Ignored s msg e q
      ]
