-- ===== src/Fd/Handler.antt =====
-- What a handler of `fd_context.rs` is: it reads and changes the device's state, the payload buffer
-- and the platform's world, and returns `Ok`, returns `Err` or panics. What was changed before an
-- error stays changed. Also `generate_failure_response` and `decode_failure_code` of
-- `pldm-interface/src/cmd_interface.rs`, which every handler ends its refusals with.
use pldm_lib.Base.{ℕ, List, Result, Outcome, ok, err, panic}
use pldm_lib.Protocol.Error.{
  PldmCodecError, buffer_too_short, unsupported, invalid_data, MsgHandlerError, codec, fd_ops,
}
use pldm_lib.Protocol.Base.{PldmBaseCompletionCode, base_completion_code}
use pldm_lib.Protocol.Header.{into_response}
use pldm_lib.Codec.{CodecResult, Reader, Written, decode, header, write_to_prefix}
use pldm_lib.Message.Short.{failure_bytes}
use pldm_lib.Fd.Internal.{FdInternal}
use pldm_lib.Fd.Ops.{OpsResult}

pub record Ctx (World : Type 0) : Type 0 where
  pub world : World
  pub internal : FdInternal
  pub payload : List ℕ

abbrev pub Answer : Type 0 → Type 0
Answer A = Outcome MsgHandlerError A

abbrev pub Handler : Type 0 → Type 0 → Type 0
Handler W A = Ctx W → Answer A × Ctx W

unfoldable pub decode_failure_code : PldmCodecError → ℕ
decode_failure_code buffer_too_short = base_completion_code PldmBaseCompletionCode.invalid_length
decode_failure_code invalid_data = base_completion_code PldmBaseCompletionCode.invalid_data
decode_failure_code unsupported = base_completion_code PldmBaseCompletionCode.invalid_data

-- The bytes of a refusal: the request's header turned into a response, and the code.
abbrev failure_response : ℕ → List ℕ → CodecResult Written
failure_response code buffer = elim (decode header buffer) [
  | ok hdr ↦
      write_to_prefix (failure_bytes (record { hdr = into_response hdr; completion_code = code }))
        buffer
  | err e ↦ err e
  | panic ↦ panic
]

unfoldable pub generate_failure_response : ℕ → List ℕ → Answer ℕ × List ℕ
generate_failure_response code buffer = elim (failure_response code buffer) [
  | ok (size, buffer') ↦ (ok size, buffer')
  | err e ↦ (err (codec e), buffer)
  | panic ↦ (panic, buffer)
]

module _ {W : Type 0} where
  infixl 5 ◌>>=◌ ◌>>◌
  abbrev pub ◌>>=◌ : {A B : Type 0} → Handler W A → (A → Handler W B) → Handler W B
  ◌>>=◌ m f c =
      let (r, c') = m c in elim r [ ok a ↦ f a c' | err e ↦ (err e, c') | panic ↦ (panic, c') ]

  abbrev pub ◌>>◌ : {A B : Type 0} → Handler W A → Handler W B → Handler W B
  m >> k = m >>= λ _. k

  abbrev pub pure : {A : Type 0} → A → Handler W A
  pure a c = (ok a, c)

  abbrev pub throw : {A : Type 0} → MsgHandlerError → Handler W A
  throw e c = (err e, c)

  abbrev pub lift : {A : Type 0} → Answer A → Handler W A
  lift r c = (r, c)

  abbrev pub get : Handler W FdInternal
  get c = (ok c.internal, c)

  abbrev pub modify : (FdInternal → FdInternal) → Handler W (Unit {0})
  modify f c = (ok tt, record c { internal = f c.internal })

  -- A method of the state that returns a result and the new state.
  abbrev pub update : {A : Type 0} → (FdInternal → Answer A × FdInternal) → Handler W A
  update f c = let (r, i) = f c.internal in (r, record c { internal = i })

  -- A callback, with `.map_err(MsgHandlerError::FdOps)?`.
  abbrev pub call : {A : Type 0} → (W → OpsResult A × W) → Handler W A
  call f c =
      let (r, w) = f c.world in
      elim r [
        | Result.ok a ↦ (ok a, record c { world = w })
        | Result.err e ↦ (err (fd_ops e), record c { world = w })
      ]

  -- The same for a callback with a `&mut` argument, whose new value is returned too.
  abbrev pub call_mut : {A B : Type 0} → (W → OpsResult A × B × W) → Handler W (A × B)
  call_mut f c =
      let (r, b, w) = f c.world in
      elim r [
        | Result.ok a ↦ (ok (a, b), record c { world = w })
        | Result.err e ↦ (err (fd_ops e), record c { world = w })
      ]

  -- A callback that cannot fail.
  abbrev pub ask : {A : Type 0} → (W → A × W) → Handler W A
  ask f c = let (a, w) = f c.world in (ok a, record c { world = w })

  -- `return generate_failure_response(payload, code)`
  unfoldable pub refuse : ℕ → Handler W ℕ
  refuse code c =
      let (r, payload) = generate_failure_response code c.payload in
      (r, record c { payload = payload })

  -- `match T::decode(payload) { Ok(req) => req, Err(e) => return generate_failure_response(..) }`
  abbrev pub with_request : {A : Type 0} → Reader A → (A → Handler W ℕ) → Handler W ℕ
  with_request r k c = elim (decode r c.payload) [
    | ok req ↦ k req c
    | err e ↦ refuse (decode_failure_code e) c
    | panic ↦ (panic, c)
  ]

  -- `match resp.encode(payload) { Ok(bytes) => { .. Ok(bytes) } Err(_) => INVALID_LENGTH }`, where
  -- `change` is what the branch `Ok` does to the state.
  abbrev pub respond : (List ℕ → CodecResult Written) → (FdInternal → FdInternal) → Handler W ℕ
  respond encode change c = elim (encode c.payload) [
    | ok (size, payload) ↦
        (ok size, record { world = c.world; internal = change c.internal; payload = payload })
    | err e ↦ refuse (base_completion_code PldmBaseCompletionCode.invalid_length) c
    | panic ↦ (panic, c)
  ]

  -- `req.encode(payload).map_err(MsgHandlerError::Codec)?`
  abbrev pub write : (List ℕ → CodecResult Written) → Handler W ℕ
  write encode c = elim (encode c.payload) [
    | ok (size, payload) ↦ (ok size, record c { payload = payload })
    | err e ↦ (err (codec e), c)
    | panic ↦ (panic, c)
  ]

  -- `T::decode(payload).map_err(MsgHandlerError::Codec)?`
  abbrev pub read : {A : Type 0} → Reader A → Handler W A
  read r c = elim (decode r c.payload) [
    | ok a ↦ (ok a, c)
    | err e ↦ (err (codec e), c)
    | panic ↦ (panic, c)
  ]
