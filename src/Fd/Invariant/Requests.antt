-- ===== src/Fd/Invariant/Requests.antt =====
-- Safety of `fd_progress` and the progress functions of `fd_context.rs`.
use pldm_lib.Base.{ℕ, ◌<◌, ◌≡◌, true, ok, arith, Result, if◌then◌else◌, Bool-cases, inl, inr}
use pldm_lib.Protocol.Update.{FirmwareDeviceState, download, verify, apply}
use pldm_lib.Protocol.Results.{VerifyResult, ApplyResult}
use pldm_lib.Codec.{write_to_prefix}
use pldm_lib.Fd.Ops.{Target, IsTyped, HasShortChunks, OpsResult}
use pldm_lib.Fd.Handler.{Ctx, Handler, ◌>>=◌, throw, pure}
use pldm_lib.Protocol.Error.{fd_initiator_mode_error}
use pldm_lib.Fd.Service.{progress_percent_not_supported}
use pldm_lib.Fd.Initiator.{
  is_initiator, should_send_fd_request, send_transfer_complete, send_request_fw_data,
  send_download_request, send_verify_complete, verify_step, send_apply_complete, apply_step,
  check_t1, progress_in, refresh_t1, fd_progress,
}
use pldm_lib.Fd.Invariant.{IsValid, IsSafe, IsSafe-bind, IsSafe-ok}

abbrev asked : OpsResult (ℕ × ℕ) → ℕ × ℕ
asked (Result.ok r) = r
asked (Result.err e) = (0, 0)

module _ {W : Type 0} (t : Target W) where
  send_verify_complete-IsSafe :
      (res : VerifyResult) (c : Ctx W)
      → IsValid c.internal
      → c.internal.state ≡ verify
      → IsSafe (send_verify_complete t res c)
  unfolding send_verify_complete write_to_prefix
  send_verify_complete-IsSafe res c v s = ground arith

  send_apply_complete-IsSafe :
      (res : ApplyResult) (c : Ctx W)
      → IsValid c.internal
      → c.internal.state ≡ apply
      → IsSafe (send_apply_complete t res c)
  unfolding send_apply_complete write_to_prefix
  send_apply_complete-IsSafe res c v s = ground arith

  send_transfer_complete-IsSafe :
      (id : ℕ) (c : Ctx W)
      → IsValid c.internal
      → id < 32
      → c.internal.state ≡ download
      → c.internal.req.complete ≡ true
      → IsSafe (send_transfer_complete t id c)
  unfolding send_transfer_complete write_to_prefix
  send_transfer_complete-IsSafe id c v h s k = ground arith

  verify_step-IsSafe :
      (c : Ctx W)
      → IsTyped t.ops
      → IsValid c.internal
      → c.internal.state ≡ verify
      → IsSafe (verify_step t c)
  unfolding verify_step write_to_prefix
  verify_step-IsSafe c y v s =
      ground (arith, y.verify_percent c.internal.update_comp progress_percent_not_supported c.world)

  apply_step-IsSafe :
      (c : Ctx W)
      → IsTyped t.ops
      → IsValid c.internal
      → c.internal.state ≡ apply
      → IsSafe (apply_step t c)
  unfolding apply_step write_to_prefix
  apply_step-IsSafe c y v s =
      ground (arith, y.apply_percent c.internal.update_comp progress_percent_not_supported c.world)

  should_send_fd_request-IsSafe :
      (c : Ctx W)
      → IsValid c.internal
      → IsSafe (should_send_fd_request t c) × ((should_send_fd_request t c).1.internal ≡ c.internal)
  unfolding should_send_fd_request
  should_send_fd_request-IsSafe c v = ground arith

  send_request_fw_data-IsSafe :
      (id : ℕ) (c : Ctx W)
      → IsValid c.internal
      → id < 32
      → c.internal.state ≡ download
      → HasShortChunks t.ops
      → IsSafe (send_request_fw_data t id c)
  unfolding send_request_fw_data write_to_prefix
  send_request_fw_data-IsSafe id c v h s f = ground (
    arith,
    f.chunk_end c.internal.update_comp c.world
        (asked (t.ops.query_download_offset_and_length c.internal.update_comp c.world).0),
  )

  send_download_request-IsSafe :
      (c : Ctx W)
      → IsValid c.internal
      → c.internal.state ≡ download
      → HasShortChunks t.ops
      → IsSafe (send_download_request t c)
  unfolding send_download_request write_to_prefix
  send_download_request-IsSafe c v s f = ground (
    arith,
    f.chunk_end c.internal.update_comp c.world
        (asked (t.ops.query_download_offset_and_length c.internal.update_comp c.world).0),
  )

  -- What `should_send_fd_request` leaves alone.
  due-internal : (c : Ctx W) → (should_send_fd_request t c).1.internal ≡ c.internal
  unfolding should_send_fd_request
  due-internal c = ground arith

  -- A step is taken if a request is due, from the state as it was.
  progress-IsSafe :
      (step : Handler W ℕ) (c : Ctx W)
      → IsValid c.internal
      → ((c' : Ctx W) → c'.internal ≡ c.internal → IsSafe (step c'))
      → IsSafe (
          (should_send_fd_request t >>= λ due. if due then step else throw fd_initiator_mode_error)
            c)
  progress-IsSafe step c v k =
      let same = due-internal c in
      IsSafe-bind (should_send_fd_request t)
        (λ due. if due then step else throw fd_initiator_mode_error) c
        (should_send_fd_request-IsSafe c v).0
        λ due e. elim (Bool-cases due) [
          | inl b ↦ rw b (k (should_send_fd_request t c).1 same)
          | inr b ↦ rw b (rw same v)
        ]

  progress_in-IsSafe :
      (c : Ctx W)
      → IsTyped t.ops
      → IsValid c.internal
      → HasShortChunks t.ops
      → (s : FirmwareDeviceState) → c.internal.state ≡ s
      → IsSafe (progress_in t s c)
  unfolding progress_in
  progress_in-IsSafe c y v f download e =
      progress-IsSafe (send_download_request t) c v
        λ c' q. send_download_request-IsSafe c' (rw q v) (rw q e) f
  progress_in-IsSafe c y v f verify e =
      progress-IsSafe (verify_step t) c v λ c' q. verify_step-IsSafe c' y (rw q v) (rw q e)
  progress_in-IsSafe c y v f apply e =
      progress-IsSafe (apply_step t) c v λ c' q. apply_step-IsSafe c' y (rw q v) (rw q e)
  progress_in-IsSafe c y v f _ e = v

  check_t1-IsSafe : (c : Ctx W) → IsValid c.internal → IsSafe (check_t1 t c)
  unfolding check_t1
  check_t1-IsSafe c v = ground arith

  check_t1-internal :
      (c : Ctx W) → (check_t1 t c).0 ≡ ok tt → (check_t1 t c).1.internal ≡ c.internal
  unfolding check_t1
  check_t1-internal c h = ground arith

  refresh_t1-IsSafe :
      (s : FirmwareDeviceState) (c : Ctx W) → IsValid c.internal → IsSafe (refresh_t1 t s c)
  unfolding refresh_t1
  refresh_t1-IsSafe s c v = ground arith

  after_check :
      (c : Ctx W)
      → IsTyped t.ops
      → IsValid c.internal
      → HasShortChunks t.ops
      → (c' : Ctx W) → c'.internal ≡ c.internal
      → IsSafe (
          (progress_in t c.internal.state >>= λ size.
          refresh_t1 t c.internal.state >>= λ _. pure size)
            c')
  after_check c y v f c' q =
      let s = c.internal.state in
      let p = progress_in t s c' in
      let h = progress_in-IsSafe c' y (rw q v) f s (rw q) in
      IsSafe-bind (progress_in t s) (λ size. refresh_t1 t s >>= λ _. pure size) c' h
        λ size e.
          let r = refresh_t1-IsSafe s p.1 (IsSafe-ok p e h) in
          IsSafe-bind (refresh_t1 t s) (λ _. pure size) p.1 r
            λ _ e'. IsSafe-ok (refresh_t1 t s p.1) e' r

  -- `fd_progress` in a valid state does not panic, and the state after it is valid, when the
  -- callbacks keep to their types, and the chunk that the platform asks for next and the padded
  -- image end below 2 ^ 32.
  pub fd_progress-IsSafe :
      (c : Ctx W)
      → IsTyped t.ops
      → IsValid c.internal
      → HasShortChunks t.ops
      → IsSafe (fd_progress t c)
  unfolding fd_progress
  fd_progress-IsSafe c y v f = elim (Bool-cases (is_initiator c.internal.state)) [
    | inl b ↦ rw b (
        IsSafe-bind (check_t1 t)
          (λ _. progress_in t c.internal.state >>= λ size.
            refresh_t1 t c.internal.state >>= λ _. pure size)
          c (check_t1-IsSafe c v)
          λ _ e. after_check c y v f (check_t1 t c).1 (check_t1-internal c e))
    | inr b ↦ rw b v
  ]
