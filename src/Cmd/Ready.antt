-- ===== src/Cmd/Ready.antt =====
-- No call of `CmdInterface` panics, and each leaves it ready for the next.
use pldm_lib.Base.{
  ℕ, ◌≢◌, refl, ◌∙◌, List, [], ◌∷◌, true, ok, err, panic, Result, arith, Result-cases,
  Outcome-cases, inl, inr,
}
use pldm_lib.Codec.{decode, header, write_to_prefix}
use pldm_lib.Protocol.Error.{PldmCodecError}
use pldm_lib.Mctp.{extract_pldm_msg, construct_mctp_pldm_msg}
use pldm_lib.Fd.Ops.{Target}
use pldm_lib.Fd.Handler.{Ctx, Answer, generate_failure_response}
use pldm_lib.Fd.Initiator.{fd_progress}
use pldm_lib.Fd.Reply.{handle_response}
use pldm_lib.Fd.Invariant.{IsValid, IsSafe}
use pldm_lib.Fd.Invariant.Requests.{fd_progress-IsSafe}
use pldm_lib.Fd.Invariant.Replies.{handle_response-IsSafe}
use pldm_lib.Control.{ControlContext, ProtocolCapability}
use pldm_lib.Fd.Internal.{default_fd_internal, new_fd_internal}
use pldm_lib.Control.{new_control_context}
use pldm_lib.Cmd.{
  new_cmd_interface, CmdInterface, preprocess_request, dispatch, serve, finish_request,
  process_request, Served, generate_initiator_request, process_initiator_response, context, after,
  some_if_positive,
}
use pldm_lib.Cmd.Busy.{preprocess_request-ok}
use pldm_lib.Cmd.Platform.{IsPlatform, IsTable, IsReady, Handles, Readies, RequestFits, MessageFits}
use pldm_lib.Cmd.Safety.{dispatch-Handles, type-IsServed}

-- A new interface is ready.
pub new_cmd_interface-IsReady :
    {W : Type 0} (caps : List ProtocolCapability) (w : W)
    → IsTable caps
    → IsReady (new_cmd_interface caps w)
unfolding new_cmd_interface new_control_context default_fd_internal new_fd_internal
new_cmd_interface-IsReady caps w h = record { device = ground arith; table = h; free = refl }

module _ {W : Type 0} (t : Target W) (p : IsPlatform t) where
  open t use {order, ops}

  finish-Readies : (r : Served t) → Handles r → Readies (finish_request t r)
  finish-Readies (ok n, s, payload) h = record { device = h.0; table = h.1; free = refl }
  finish-Readies (err e, s, payload) h = record { device = h.0; table = h.1; free = refl }
  finish-Readies (panic, s, payload) h = h

  rebuffered :
      {A B C : Type 0} (r : Answer A × CmdInterface W × B) (x : C)
      → Readies r
      → Readies (r.0, r.1, x)
  rebuffered (ok n, s, y) x h = h
  rebuffered (err e, s, y) x h = h
  rebuffered (panic, s, y) x h = h

  after-Readies :
      {A : Type 0} (r : Answer A × Ctx W) (s : CmdInterface W)
      → IsReady s
      → IsSafe r
      → Readies (r.0, after t s r.1, tt {0})
  after-Readies (ok n, c) s h v = record { device = v; table = h.table; free = h.free }
  after-Readies (err e, c) s h v = record { device = v; table = h.table; free = h.free }
  after-Readies (panic, c) s h v = v

  positive-Readies :
      {B : Type 0} (r : Answer ℕ × Ctx W) (s : CmdInterface W) (x : B)
      → IsReady s
      → IsSafe r
      → Readies (some_if_positive t r.0, after t s r.1, x)
  positive-Readies (ok n, c) s x h v = record { device = v; table = h.table; free = h.free }
  positive-Readies (err e, c) s x h v = record { device = v; table = h.table; free = h.free }
  positive-Readies (panic, c) s x h v = v

  preprocess-NoPanic :
      (ctx : ControlContext) (payload : List ℕ)
      → preprocess_request ctx payload ≢ panic
        × ((e : PldmCodecError) → preprocess_request ctx payload ≢ err e)
  unfolding preprocess_request decode header
  preprocess-NoPanic ctx payload = ground arith

  refusal-Handles :
      (code : ℕ) (s : CmdInterface W) (payload : List ℕ)
      → IsValid s.internal
      → IsTable s.ctrl_ctx.capabilities
      → let (r, payload') = generate_failure_response code payload in Handles (r, s, payload')
  unfolding generate_failure_response decode header write_to_prefix
  refusal-Handles code s payload v h = ground arith

  serve-Readies :
      (s : CmdInterface W) (payload : List ℕ)
      → IsValid s.internal
      → IsTable s.ctrl_ctx.capabilities
      → RequestFits order payload
      → Readies (serve t s payload)
  unfolding serve
  serve-Readies s payload v h f = elim (Outcome-cases (preprocess_request s.ctrl_ctx payload)) [
    | inl (Result.ok (kind, code), e) ↦
        let (hdr, read, req, version, known, supported, named, command) =
          preprocess_request-ok s.ctrl_ctx payload kind code e in
        rw (e, Readies, serve)
          (finish-Readies (dispatch t kind code s payload) (
            dispatch-Handles t p kind code s payload (type-IsServed kind s.ctrl_ctx h supported) v h
              λ q. f hdr read (named ∙ q)))
    | inl (Result.err code, e) ↦
        let (r, payload') = generate_failure_response code payload in
        rw (e, Readies, serve)
          (finish-Readies (r, s, payload') (refusal-Handles code s payload v h))
    | inr (inl (x, e)) ↦ absurd ((preprocess-NoPanic s.ctrl_ctx payload).1 x e)
    | inr (inr e) ↦ absurd ((preprocess-NoPanic s.ctrl_ctx payload).0 e)
  ]

  -- A request to an interface that is ready does not panic, whatever its type, its command and
  -- its bytes, and leaves the interface ready: the device's state valid, the capability table
  -- served and no request open. The platform keeps to `IsPlatform`, the buffer is not empty,
  -- and an UpdateComponent announces an image that ends, with its padding, below 2 ^ 32.
  pub process_request-Readies :
      (s : CmdInterface W) (msg : List ℕ)
      → IsReady s
      → MessageFits order msg
      → Readies (process_request t s msg)
  unfolding process_request
  process_request-Readies s [] h f = absurd f
  process_request-Readies s (b ∷ payload) h f =
      let r = serve-Readies (record s { busy = true }) payload h.device h.table f in
      rw (h.free, Readies, process_request)
        (rebuffered (serve t (record s { busy = true }) payload) (b ∷ _) r)

  -- The call for the device's own request, and the call with an answer to one, do not panic when the
  -- interface is ready, and leave it ready.
  pub generate-Readies :
      (s : CmdInterface W) (msg : List ℕ) → IsReady s → Readies (generate_initiator_request t s msg)
  unfolding generate_initiator_request
  generate-Readies s msg h = elim (Result-cases (construct_mctp_pldm_msg msg)) [
    | inl ((b, payload), e) ↦
        let c = context t s payload in
        let safe = fd_progress-IsSafe t c p.typed h.device p.short_chunks in
        rw (e, Readies, generate_initiator_request)
          (positive-Readies (fd_progress t c) s (b ∷ (fd_progress t c).1.payload) h safe)
    | inr (x, e) ↦ rw (e, Readies, generate_initiator_request) h
  ]

  pub response-Readies :
      (s : CmdInterface W) (msg : List ℕ)
      → IsReady s
      → let (r, s') = process_initiator_response t s msg in Readies (r, s', tt)
  unfolding process_initiator_response
  response-Readies s msg h = elim (Result-cases (extract_pldm_msg msg)) [
    | inl (payload, e) ↦
        let c = context t s payload in
        let safe = handle_response-IsSafe t c p.no_vendor h.device in
        rw (e, Readies, process_initiator_response) (after-Readies (handle_response t c) s h safe)
    | inr (x, e) ↦ rw (e, Readies, process_initiator_response) h
  ]
