-- ===== src/Fd/Flow/Timers.antt =====
-- The two timers of `fd_context.rs`: T1, after which the device gives the update up, and T2, after
-- which it sends its request again.
use pldm_lib.Base.{ℕ, ◌+◌, ◌-◌, ◌<◌, ◌≡◌, refl, true, some, err, arith, Result}
use pldm_lib.Protocol.Error.{fd_initiator_mode_error, t1_timeout}
use pldm_lib.Protocol.Update.{FirmwareDeviceState, idle, download, verify, apply}
use pldm_lib.Fd.Internal.{FdInternal, sent, new_fd_req}
use pldm_lib.Fd.Ops.{Target}
use pldm_lib.Fd.Handler.{Ctx, ◌>>=◌}
use pldm_lib.Fd.Initiator.{is_initiator, drop_request, check_t1, progress_in, fd_progress}

module _ {W : Type 0} (t : Target W) where
  open t use {ops}

  check_t1-drop :
      (c : Ctx W)
      → c.internal.req.state ≡ sent
      → c.internal.fd_t1_timeout < (ops.now c.world).0 - c.internal.fd_t1_update_ts
      → (ops.cancel_update_component c.internal.update_comp (ops.now c.world).1).0 ≡ Result.ok tt
      → ((check_t1 t c).0 ≡ err t1_timeout)
        × ((check_t1 t c).1.internal ≡ drop_request t c.internal)
  unfolding check_t1
  check_t1-drop c q l k = ground arith

  drop_request-idle :
      (i : FdInternal)
      → is_initiator i.state ≡ true
      → ((drop_request t i).state ≡ idle)
        × ((drop_request t i).prev_state ≡ i.state)
        × ((drop_request t i).req ≡ new_fd_req)
  unfolding drop_request
  drop_request-idle i h = ground arith

  fd_progress-check :
      (c : Ctx W)
      → is_initiator c.internal.state ≡ true
      → (check_t1 t c).0 ≡ err t1_timeout
      → fd_progress t c ≡ (err t1_timeout, (check_t1 t c).1)
  unfolding fd_progress
  fd_progress-check c s e = rw (s, e, ◌>>=◌) refl

  -- In a state with requests of its own and with a request out, when more than T1 has passed
  -- and the platform takes the cancellation, `fd_progress` returns the error T1: the device is
  -- in `Idle`, its previous state is the one it was in, and it has no request.
  pub fd_progress-t1 :
      (c : Ctx W)
      → is_initiator c.internal.state ≡ true
      → c.internal.req.state ≡ sent
      → c.internal.fd_t1_timeout < (ops.now c.world).0 - c.internal.fd_t1_update_ts
      → (ops.cancel_update_component c.internal.update_comp (ops.now c.world).1).0 ≡ Result.ok tt
      → let (r, c') = fd_progress t c in
        (r ≡ err t1_timeout)
        × (c'.internal.state ≡ idle)
        × (c'.internal.prev_state ≡ c.internal.state)
        × (c'.internal.req ≡ new_fd_req)
  fd_progress-t1 c s q l k =
      let (e, i) = check_t1-drop c q l k in
      let (a, b, d) = drop_request-idle c.internal s in
      rw (fd_progress-check c s e, i) (refl, a, b, d)

  -- With a request out that was sent less than T2 ago (or later than now), the progress
  -- function of each of the three states returns an error and changes nothing: it has read the
  -- clock.
  pub progress_in-wait :
      (s : FirmwareDeviceState) (sent_time : ℕ) (c : Ctx W)
      → is_initiator s ≡ true
      → c.internal.req.state ≡ sent
      → c.internal.req.sent_time ≡ some sent_time
      → (ops.now c.world).0 < sent_time + c.internal.fd_t2_retry_time
      → progress_in t s c ≡ (err fd_initiator_mode_error, record c { world = (ops.now c.world).1 })
  unfolding progress_in
  progress_in-wait download s c i q e l = ground arith
  progress_in-wait verify s c i q e l = ground arith
  progress_in-wait apply s c i q e l = ground arith
  progress_in-wait _ s c i q e l = ground arith
