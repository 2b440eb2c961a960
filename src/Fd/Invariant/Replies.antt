-- ===== src/Fd/Invariant/Replies.antt =====
-- Safety of `handle_response` and the four `process_*_rsp` of `fd_context.rs`.
use pldm_lib.Base.{
  ℕ, ◌≤◌, ◌≡◌, ◌≢◌, ◌⊎◌, inl, inr, refl, true, some, List, [], ◌∷◌, ok, err, Result-cases, arith,
  length, take, drop,
}
use pldm_lib.Protocol.Update.{FwUpdateCmd, fw_update_cmd_try_from, download}
use pldm_lib.Protocol.Header.{PldmMsgHeader, cmd_code}
use pldm_lib.Protocol.Results.{TransferResult, transfer_result_code, transfer_result_try_from}
use pldm_lib.Codec.{decode, header, byte}
use pldm_lib.Message.Short.{
  FwDataResponseFixed, fw_data_response_fixed, fw_data_response_fixed_size,
}
use pldm_lib.Fd.Internal.{
  FdInternal, InitiatorModeState, downloading, get_fd_download_state, set_fd_t1_update_ts,
}
use pldm_lib.Protocol.Error.{PldmCodecError, buffer_too_short}
use pldm_lib.Fd.Ops.{Target, HasNoVendorCode}
use pldm_lib.Fd.Handler.{Ctx}
use pldm_lib.Fd.Reply.{
  process_verify_complete_rsp, process_transfer_complete_rsp, process_apply_complete_rsp,
  process_request_fw_data_rsp, store_result, store_at, store_chunk, process, accept_response,
  handle_response,
}
use pldm_lib.Fd.Invariant.{IsValid, IsSafe, is_transfer_result}

-- A message of four bytes was read from at least four bytes.
fw_data_response_fixed-length :
    (bs : List ℕ) {r : FwDataResponseFixed}
    → decode fw_data_response_fixed bs ≡ ok r
    → fw_data_response_fixed_size ≤ length bs
unfolding decode fw_data_response_fixed header byte
fw_data_response_fixed-length bs h = ground arith

abbrev request_of : InitiatorModeState → ℕ × ℕ
request_of (downloading offset n) = (offset, n)
request_of _ = (0, 0)

-- The device downloads in `Download`.
download_mode :
    (i : FdInternal)
    → IsValid i
    → i.state ≡ download
    → (r : ℕ × ℕ) × (get_fd_download_state i ≡ some r)
unfolding get_fd_download_state
download_mode i v d = (request_of i.initiator_mode_state, ground arith)

read_cases :
    (bs : List ℕ)
    → ((r : FwDataResponseFixed) × (decode fw_data_response_fixed bs ≡ ok r)
        × (fw_data_response_fixed_size ≤ length bs))
      ⊎ ((e : PldmCodecError) × (decode fw_data_response_fixed bs ≡ err e))
unfolding decode fw_data_response_fixed header byte
read_cases [] = inr (buffer_too_short, refl)
read_cases (a ∷ []) = inr (buffer_too_short, refl)
read_cases (a ∷ b ∷ []) = inr (buffer_too_short, refl)
read_cases (a ∷ b ∷ d ∷ []) = inr (buffer_too_short, refl)
read_cases (a ∷ b ∷ d ∷ e ∷ r) = inl (
  record { hdr = record { byte_0 = a; byte_1 = b; byte_2 = d }; completion_code = e },
  refl,
  omega arith,
)

pub t1-IsValid : (i : FdInternal) (ts : ℕ) → IsValid i → IsValid (set_fd_t1_update_ts ts i)
unfolding set_fd_t1_update_ts
t1-IsValid i ts v = ground arith

module _ {W : Type 0} (t : Target W) (c : Ctx W) (v : IsValid c.internal) where
  pub process_verify_complete_rsp-IsSafe : IsSafe (process_verify_complete_rsp t c)
  unfolding process_verify_complete_rsp
  process_verify_complete_rsp-IsSafe = ground arith

  pub process_transfer_complete_rsp-IsSafe : IsSafe (process_transfer_complete_rsp t c)
  unfolding process_transfer_complete_rsp
  process_transfer_complete_rsp-IsSafe = ground arith

  pub process_apply_complete_rsp-IsSafe : IsSafe (process_apply_complete_rsp t c)
  unfolding process_apply_complete_rsp
  process_apply_complete_rsp-IsSafe = ground arith

-- Every transfer result but the vendor's reads back from its code.
pub transfer_result_code-fits :
    (r : TransferResult)
    → r ≢ TransferResult.vendor_defined
    → is_transfer_result (some (transfer_result_code r)) ≡ true
unfolding transfer_result_try_from
transfer_result_code-fits TransferResult.vendor_defined h = absurd (h refl)
transfer_result_code-fits TransferResult.transfer_success h = refl
transfer_result_code-fits _ h = refl

module _ {W : Type 0} (t : Target W) where
  store_result-IsSafe :
      (res : TransferResult) (c : Ctx W)
      → IsValid c.internal
      → res ≢ TransferResult.vendor_defined
      → IsSafe (store_result t res c)
  unfolding store_result
  store_result-IsSafe res c v h = ground (
    arith,
    transfer_result_code-fits res h,
    transfer_result_code-fits TransferResult.transfer_success,
  )

  store_at-IsSafe :
      (offset n : ℕ) (c : Ctx W)
      → HasNoVendorCode t.ops
      → IsValid c.internal
      → fw_data_response_fixed_size ≤ length c.payload
      → IsSafe (store_at t offset n c)
  unfolding store_at
  store_at-IsSafe offset n c h v l = grind (
    arith,
    store_result-IsSafe,
    h.download_code offset (take n (drop 4 c.payload)) c.internal.update_comp c.world,
  )

  store_chunk-IsSafe :
      (c : Ctx W)
      → HasNoVendorCode t.ops
      → IsValid c.internal
      → c.internal.state ≡ download
      → fw_data_response_fixed_size ≤ length c.payload
      → IsSafe (store_chunk t c)
  unfolding store_chunk
  store_chunk-IsSafe c h v d l =
      let ((o, n), e) = download_mode c.internal v d in
      rw (e, get_fd_download_state) (store_at-IsSafe o n c h v l)

  pub process_request_fw_data_rsp-IsSafe :
      (c : Ctx W)
      → HasNoVendorCode t.ops
      → IsValid c.internal
      → IsSafe (process_request_fw_data_rsp t c)
  unfolding process_request_fw_data_rsp
  process_request_fw_data_rsp-IsSafe c h v = elim (read_cases c.payload) [
    | inl (r, e, l) ↦ grind (
      arith,
      transfer_result_code-fits TransferResult.fd_aborted_transfer,
      store_chunk-IsSafe c h v,
    )
    | inr e ↦ ground arith
  ]

  process-IsSafe :
      (cmd : FwUpdateCmd) (c : Ctx W)
      → HasNoVendorCode t.ops
      → IsValid c.internal
      → IsSafe (process t cmd c)
  unfolding process
  process-IsSafe FwUpdateCmd.request_firmware_data c h v = process_request_fw_data_rsp-IsSafe c h v
  process-IsSafe FwUpdateCmd.transfer_complete c h v = process_transfer_complete_rsp-IsSafe t c v
  process-IsSafe FwUpdateCmd.verify_complete c h v = process_verify_complete_rsp-IsSafe t c v
  process-IsSafe FwUpdateCmd.apply_complete c h v = process_apply_complete_rsp-IsSafe t c v
  process-IsSafe _ c h v = v

  accept_response-IsSafe :
      (hdr : PldmMsgHeader) (c : Ctx W)
      → HasNoVendorCode t.ops
      → IsValid c.internal
      → IsSafe (accept_response t hdr c)
  unfolding accept_response
  accept_response-IsSafe hdr c h v =
      let (ts, w) = t.ops.now c.world in
      let v' = t1-IsValid c.internal ts v in
      elim (Result-cases (fw_update_cmd_try_from (cmd_code hdr))) [
        | inl (cmd, e) ↦ rw e (
            process-IsSafe cmd
              (record c { world = w; internal = set_fd_t1_update_ts ts c.internal }) h v')
        | inr (x, e) ↦ rw e v'
      ]

  -- `handle_response` in a valid state does not panic, whatever the bytes, and the state after
  -- it is valid, on a platform that answers with no vendor-defined code.
  pub handle_response-IsSafe :
      (c : Ctx W) → HasNoVendorCode t.ops → IsValid c.internal → IsSafe (handle_response t c)
  unfolding handle_response decode header
  handle_response-IsSafe c h v = grind (arith, accept_response-IsSafe)
