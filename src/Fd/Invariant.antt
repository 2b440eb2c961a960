-- ===== src/Fd/Invariant.antt =====
-- What holds of the device's state between two messages, and what it means that a handler is safe.
pub mod Replies
pub mod Requests
pub mod Encoders
pub mod Tables
pub mod Entries
pub mod Queries
pub mod Rules
pub mod Answers
pub mod Services
use pldm_lib.Base.{
  ℕ, ◌≤◌, ◌<◌, ◌≡◌, ◌≢◌, Bool, true, false, Option, none, some, Result, Outcome, ok, err, panic,
  arith, Outcome-cases, inl, inr,
}
use pldm_lib.Protocol.Error.{PldmError}
use pldm_lib.Protocol.Update.{FirmwareDeviceState, download, verify, apply}
use pldm_lib.Protocol.Results.{TransferResult, transfer_result_code, transfer_result_try_from}
use pldm_lib.Base.{◌+◌, ◌^◌}
use pldm_lib.Message.Str.{FirmwareComponent}
use pldm_lib.Fd.Internal.{
  size_or_zero, FdReqState, sent, InitiatorModeState, downloading, verifying, applying, FdInternal,
}
use pldm_lib.Fd.Handler.{Ctx, Answer, Handler, ◌>>=◌}

-- The mode is that of the state, and its progress is a percentage or 101.
abbrev pub ModeFits : FirmwareDeviceState → InitiatorModeState → Type 0
ModeFits download (downloading offset length) = Unit
ModeFits download _ = ⊥
ModeFits verify (verifying p) = p ≤ 101
ModeFits verify _ = ⊥
ModeFits apply (applying p) = p ≤ 101
ModeFits apply _ = ⊥
ModeFits _ _ = Unit

abbrev pub IdFits : Option ℕ → Type 0
IdFits none = Unit
IdFits (some id) = id < 32

abbrev pub IsSome : Option ℕ → Type 0
IsSome none = ⊥
IsSome (some n) = Unit

-- A stored transfer result reads back as one.
abbrev pub is_transfer_result : Option ℕ → Bool
is_transfer_result none = true
is_transfer_result (some r) = elim (transfer_result_try_from r) [
  | Result.ok _ ↦ true
  | Result.err _ ↦ false
]

-- The image ends, with its padding, below 2 ^ 32.
abbrev pub ImageFits : FirmwareComponent → Type 0
ImageFits c = size_or_zero c.comp_image_size + 32 < 2 ^ 32

pub record IsValid (i : FdInternal) : Type 0 where
  pub mode_fits : ModeFits i.state i.initiator_mode_state
  pub id_fits : IdFits i.req.instance_id
  pub sent_has_time : i.req.state ≡ sent → IsSome i.req.sent_time
  pub result_fits :
      i.state ≡ download → i.req.complete ≡ true → is_transfer_result i.req.result ≡ true
  pub image_fits : ImageFits i.update_comp

-- The call did not panic, and the state is valid after it.
abbrev pub IsSafe : {A W : Type 0} → Answer A × Ctx W → Type 0
IsSafe (panic, c) = ⊥
IsSafe (_, c) = IsValid c.internal

-- A call followed by the rest of the handler.
pub IsSafe-bind :
    {A B W : Type 0} (m : Handler W A) (f : A → Handler W B) (c : Ctx W)
    → IsSafe (m c)
    → ((a : A) → (m c).0 ≡ ok a → IsSafe (f a (m c).1))
    → IsSafe ((m >>= f) c)
IsSafe-bind m f c h k = elim (Outcome-cases (m c).0) [
  | inl (a, e) ↦ rw (e, IsSafe, ◌>>=◌) (k a e)
  | inr (inl (x, e)) ↦ ground arith
  | inr (inr e) ↦ ground arith
]

-- The state after a safe call that returned.
pub IsSafe-ok :
    {A W : Type 0} {a : A} (r : Answer A × Ctx W) → r.0 ≡ ok a → IsSafe r → IsValid r.1.internal
IsSafe-ok r e h = ground arith
