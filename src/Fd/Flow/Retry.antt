-- ===== src/Fd/Flow/Retry.antt =====
-- What the device sends when no answer to its VerifyComplete or ApplyComplete came within T2.
use pldm_lib.Base.{ℕ, ◌+◌, ◌≤◌, ◌≡◌, true, some, ok, arith}
use pldm_lib.Fd.Internal.{sent}
use pldm_lib.Fd.Ops.{Target}
use pldm_lib.Fd.Handler.{Ctx}
use pldm_lib.Fd.Initiator.{fd_progress_verify, fd_progress_apply}

module _ {W : Type 0} (t : Target W) where
  open t use {ops}

  -- With a complete request out for which T2 has passed, when `pldm_fd_progress_verify` sends
  -- again, the stored result is a generic error (0x0a), whatever it was before.
  pub verify_complete-again :
      (sent_time size : ℕ) (c : Ctx W)
      → c.internal.req.state ≡ sent
      → c.internal.req.complete ≡ true
      → c.internal.req.sent_time ≡ some sent_time
      → sent_time + c.internal.fd_t2_retry_time ≤ (ops.now c.world).0
      → (fd_progress_verify t c).0 ≡ ok size
      → (fd_progress_verify t c).1.internal.req.result ≡ some 0x0a
  unfolding fd_progress_verify
  verify_complete-again s size c q k e l h = ground arith

  -- With a complete request out for which T2 has passed, when `pldm_fd_progress_apply` sends
  -- again, the stored result is a generic error (0x0a), whatever it was before.
  pub apply_complete-again :
      (sent_time size : ℕ) (c : Ctx W)
      → c.internal.req.state ≡ sent
      → c.internal.req.complete ≡ true
      → c.internal.req.sent_time ≡ some sent_time
      → sent_time + c.internal.fd_t2_retry_time ≤ (ops.now c.world).0
      → (fd_progress_apply t c).0 ≡ ok size
      → (fd_progress_apply t c).1.internal.req.result ≡ some 0x0a
  unfolding fd_progress_apply
  apply_complete-again s size c q k e l h = ground arith
