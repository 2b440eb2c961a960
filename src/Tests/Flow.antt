-- ===== src/Tests/Flow.antt =====
-- The flow of an update, on the states of a small platform.
use pldm_lib.Base.{ℕ, ◌≡◌, refl, true, some, [], ◌∷◌, ok, err, arith}
use pldm_lib.Protocol.Update.{idle, download, verify, apply}
use pldm_lib.Protocol.Results.{TransferResult}
use pldm_lib.Fd.Internal.{sent}
use pldm_lib.Protocol.Error.{fd_initiator_mode_error, t1_timeout}
use pldm_lib.Protocol.Update.{fw_update_cmd_try_from}
use pldm_lib.Protocol.Header.{instance_id, cmd_code}
use pldm_lib.Codec.{decode, header}
use pldm_lib.Fd.Internal.{new_fd_req}
use pldm_lib.Fd.Initiator.{fd_progress, progress_in}
use pldm_lib.Fd.Reply.{handle_response}
use pldm_lib.Fd.Flow.Replies.{verified-success, transferred-success}
use pldm_lib.Fd.Flow.Timers.{fd_progress-t1, progress_in-wait}
use pldm_lib.Fd.Internal.{get_fd_download_chunk}
use pldm_lib.Protocol.Header.{header_bytes}
use pldm_lib.Message.Short.{request_fw_data_request, verify_complete_request}
use pldm_lib.Codec.{write_to_prefix}
use pldm_lib.Codec.Order.{to_le}
use pldm_lib.Base.{◌+◌, ◌≤◌, panic}
use pldm_lib.Message.Short.{apply_complete_request}
use pldm_lib.Fd.Initiator.{
  send_request_fw_data, send_transfer_complete, fd_progress_verify, fd_progress_apply,
}
use pldm_lib.Fd.Reply.{data_slice, store_result}
use pldm_lib.Fd.Flow.Download.{
  get_fd_download_chunk-bounds, send_request_fw_data-remembers, vendor_result-panics,
}
use pldm_lib.Fd.Flow.Retry.{verify_complete-again, apply_complete-again}
use pldm_lib.Base.{◌++◌, drop}
use pldm_lib.Codec.Order.{little_endian-IsByteOrder}
use pldm_lib.Fd.Internal.{downloading}
use pldm_lib.Tests.{
  target, zeros, at, fd_downloading, fd_transferred, fd_verified, fd_applied, chunk_answer,
  fd_sized,
}

verified_state :
    (handle_response target (at 1 fd_verified (1 ∷ 0x05 ∷ 0x17 ∷ 0 ∷ []))).1.internal.state ≡ apply
unfolding handle_response decode header instance_id cmd_code fw_update_cmd_try_from
verified_state = refl

verified-success_example :
    (fd_verified.req.state ≡ sent)
    × (fd_verified.req.complete ≡ true)
    × (fd_verified.req.result ≡ some 0)
verified-success_example =
    verified-success target (at 1 fd_verified (1 ∷ 0x05 ∷ 0x17 ∷ 0 ∷ [])) refl verified_state

transferred_state :
    (handle_response target (at 1 fd_transferred (1 ∷ 0x05 ∷ 0x16 ∷ 0 ∷ []))).1.internal.state
    ≡ verify
unfolding handle_response decode header instance_id cmd_code fw_update_cmd_try_from
transferred_state = refl

transferred-success_example :
    (fd_transferred.req.state ≡ sent)
    × (fd_transferred.req.complete ≡ true)
    × (fd_transferred.req.result ≡ some 0)
transferred-success_example =
    transferred-success target (at 1 fd_transferred (1 ∷ 0x05 ∷ 0x16 ∷ 0 ∷ [])) refl
      transferred_state

fd_progress-t1_example :
    let (r, c') = fd_progress target (at 200000 fd_downloading zeros) in
    (r ≡ err t1_timeout)
    × (c'.internal.state ≡ idle)
    × (c'.internal.prev_state ≡ download)
    × (c'.internal.req ≡ new_fd_req)
fd_progress-t1_example =
    fd_progress-t1 target (at 200000 fd_downloading zeros) refl refl (omega arith) refl

progress_in-wait_example :
    progress_in target download (at 100 fd_downloading zeros)
    ≡ (err fd_initiator_mode_error, at 100 fd_downloading zeros)
progress_in-wait_example =
    progress_in-wait target download 0 (at 100 fd_downloading zeros) refl refl refl (omega arith)

sized-chunk : get_fd_download_chunk 2 8 fd_sized ≡ ok (some (2, 8))
unfolding get_fd_download_chunk
sized-chunk = refl

get_fd_download_chunk-bounds_example :
    (◌≡◌ {A = ℕ} 2 2) × (2 ≤ 4) × (2 + 8 ≤ 4 + 32) × (8 ≤ 8) × (8 ≤ 512)
get_fd_download_chunk-bounds_example = get_fd_download_chunk-bounds 2 8 2 8 fd_sized sized-chunk

chunk-slice : (data_slice 4 (at 1 fd_downloading chunk_answer)).0 ≡ ok (7 ∷ 7 ∷ 7 ∷ 7 ∷ [])
unfolding data_slice
chunk-slice = refl

chunk-sent : (send_request_fw_data target 1 (at 1 fd_sized zeros)).0 ≡ ok 11
unfolding send_request_fw_data get_fd_download_chunk write_to_prefix request_fw_data_request
    header_bytes to_le
chunk-sent = refl

chunk-mode :
    (send_request_fw_data target 1 (at 1 fd_sized zeros)).1.internal.initiator_mode_state
    ≡ downloading 0 4
unfolding send_request_fw_data get_fd_download_chunk write_to_prefix request_fw_data_request
    header_bytes to_le
chunk-mode = refl

send_request_fw_data-remembers_example :
    let c' = (send_request_fw_data target 1 (at 1 fd_sized zeros)).1 in
    (◌≡◌ {A = ℕ} 11 11)
    × (c'.payload ≡ (128 + 1) ∷ 0x05 ∷ 0x15 ∷ (to_le 4 0 ++ (to_le 4 4 ++ drop 11 zeros)))
    × (c'.internal.req.state ≡ sent)
    × (c'.internal.req.instance_id ≡ some 1)
    × (c'.internal.req.command ≡ some 0x15)
send_request_fw_data-remembers_example =
    send_request_fw_data-remembers target little_endian-IsByteOrder 1 11 0 4 (at 1 fd_sized zeros)
      (omega arith) chunk-sent chunk-mode

vendor-stored :
    (store_result target TransferResult.vendor_defined (at 1 fd_downloading [])).0 ≡ ok tt
unfolding store_result
vendor-stored = refl

vendor_result-panics_example :
    (send_transfer_complete target 1
      (store_result target TransferResult.vendor_defined (at 1 fd_downloading [])).1).0
    ≡ panic
vendor_result-panics_example = vendor_result-panics target 1 (at 1 fd_downloading []) vendor-stored

verify-again : (fd_progress_verify target (at 6000 fd_verified zeros)).0 ≡ ok 4
unfolding fd_progress_verify verify_complete_request write_to_prefix header_bytes
verify-again = refl

verify_complete-again_example :
    (fd_progress_verify target (at 6000 fd_verified zeros)).1.internal.req.result ≡ some 0x0a
verify_complete-again_example =
    verify_complete-again target 0 4 (at 6000 fd_verified zeros) refl refl refl (omega arith)
      verify-again

apply-again : (fd_progress_apply target (at 6000 fd_applied zeros)).0 ≡ ok 6
unfolding fd_progress_apply apply_complete_request write_to_prefix header_bytes to_le
apply-again = refl

apply_complete-again_example :
    (fd_progress_apply target (at 6000 fd_applied zeros)).1.internal.req.result ≡ some 0x0a
apply_complete-again_example =
    apply_complete-again target 0 6 (at 6000 fd_applied zeros) refl refl refl (omega arith)
      apply-again
