-- ===== src/Fd/Flow/Download.antt =====
-- The transfer of an image: which part of it the device asks for, and what it hands to the platform.
use pldm_lib.Base.{
  ℕ, ◌+◌, ◌<◌, ◌≤◌, ◌≡◌, some, ok, panic, arith, List, length, drop, length-take, length-drop,
  length-append, ◌++◌, ◌∷◌, ◌∙◌, ap, append_assoc, ◌%◌,
}
use pldm_lib.Protocol.Update.{download}
use pldm_lib.Protocol.Results.{TransferResult, transfer_result_try_from}
use pldm_lib.Fd.Internal.{
  FdInternal, size_or_zero, sent, downloading, get_fd_download_chunk, alloc_next_instance_id,
}
use pldm_lib.Fd.Ops.{Target}
use pldm_lib.Fd.Handler.{Ctx}
use pldm_lib.Protocol.Header.{header_bytes, new_header}
use pldm_lib.Codec.{write_to_prefix}
use pldm_lib.Codec.Order.{IsByteOrder}
use pldm_lib.Message.Short.{fw_request_header, request_fw_data_request}
use pldm_lib.Fd.Initiator.{send_request_fw_data, send_transfer_complete}
use pldm_lib.Fd.Reply.{data_slice, store_result}

-- A chunk that is given starts at the offset that was wanted, which is not past the image, ends
-- at most 32 bytes behind the image, and is no longer than was wanted, nor than the largest
-- transfer.
pub get_fd_download_chunk-bounds :
    (offset length o n : ℕ) (i : FdInternal)
    → get_fd_download_chunk offset length i ≡ ok (some (o, n))
    → let size = size_or_zero i.update_comp.comp_image_size in
      (o ≡ offset) × (o ≤ size) × (o + n ≤ size + 32) × (n ≤ length) × (n ≤ i.max_xfer_size)
unfolding get_fd_download_chunk
get_fd_download_chunk-bounds offset length o n i h = ground arith

-- Outside `Download` there is no chunk to ask for.
pub get_fd_download_chunk-other :
    (offset length o n : ℕ) (i : FdInternal)
    → get_fd_download_chunk offset length i ≡ ok (some (o, n))
    → i.state ≡ download
unfolding get_fd_download_chunk
get_fd_download_chunk-other offset length o n i h = ground arith

-- The next instance id is one more than the last, and 0 after 31; it never leaves its five bits.
pub alloc_next_instance_id-cycle :
    (id : ℕ) (i : FdInternal)
    → i.req.instance_id ≡ some id
    → id < 32
    → (alloc_next_instance_id i).0 ≡ ok ((id + 1) % 32)
unfolding alloc_next_instance_id
alloc_next_instance_id-cycle id i e h = ground arith

-- The data that is cut out of an answer has exactly the length that was asked for.
data_slice-length :
    {W : Type 0} (n : ℕ) (c : Ctx W) (bytes : List ℕ)
    → (data_slice n c).0 ≡ ok bytes
    → length bytes ≡ n
unfolding data_slice
data_slice-length n c bytes h =
    ground (arith, length-take n (drop 4 c.payload), length-drop 4 c.payload)

write_to_prefix-out :
    (bs buffer : List ℕ) (size : ℕ) (buffer' : List ℕ)
    → write_to_prefix bs buffer ≡ ok (size, buffer')
    → (size ≡ length bs) × (buffer' ≡ bs ++ drop (length bs) buffer)
unfolding write_to_prefix
write_to_prefix-out bs buffer size buffer' h = ground arith

module _ {W : Type 0} (t : Target W) where
  open t use {ops, order}

  abbrev chunk_request : (id o n : ℕ) → List ℕ
  chunk_request id o n = (128 + id) ∷ 0x05 ∷ 0x15 ∷ (order.write_int 4 o ++ order.write_int 4 n)

  request_fw_data_request-bytes :
      (id o n : ℕ) → id < 32 → request_fw_data_request order id o n ≡ chunk_request id o n
  unfolding request_fw_data_request fw_request_header header_bytes new_header
  request_fw_data_request-bytes id o n h = ground arith

  length-chunk_request : IsByteOrder order → (id o n : ℕ) → length (chunk_request id o n) ≡ 11
  length-chunk_request law id o n = omega (
    arith,
    law.length-write 4 o,
    law.length-write 4 n,
    length-append (order.write_int 4 o) (order.write_int 4 n),
  )

  -- The message that was written and the request that is remembered.
  send_request_fw_data-writes :
      (id size o n : ℕ) (c : Ctx W)
      → (send_request_fw_data t id c).0 ≡ ok size
      → (send_request_fw_data t id c).1.internal.initiator_mode_state ≡ downloading o n
      → let c' = (send_request_fw_data t id c).1 in
        (write_to_prefix (request_fw_data_request order id o n) c.payload ≡ ok (size, c'.payload))
        × (c'.internal.req.state ≡ sent)
        × (c'.internal.req.instance_id ≡ some id)
        × (c'.internal.req.command ≡ some 0x15)
  unfolding send_request_fw_data
  send_request_fw_data-writes id size o n c e m = ground arith

  -- A RequestFirmwareData that was sent with an instance id below 32, in a lawful byte order,
  -- is eleven bytes: the header of a request with that instance id, the type 5 and the command
  -- 0x15, then the offset and the length that the download state remembers; the rest of the
  -- buffer is kept. The request that waits for an answer is sent, and has that instance id and
  -- that command.
  pub send_request_fw_data-remembers :
      IsByteOrder order
      → (id size o n : ℕ) (c : Ctx W) → id < 32
      → (send_request_fw_data t id c).0 ≡ ok size
      → (send_request_fw_data t id c).1.internal.initiator_mode_state ≡ downloading o n
      → let c' = (send_request_fw_data t id c).1 in
        (size ≡ 11)
        × (c'.payload
            ≡ (128 + id)
              ∷ 0x05
              ∷ 0x15
              ∷ (order.write_int 4 o ++ (order.write_int 4 n ++ drop 11 c.payload)))
        × (c'.internal.req.state ≡ sent)
        × (c'.internal.req.instance_id ≡ some id)
        × (c'.internal.req.command ≡ some 0x15)
  send_request_fw_data-remembers law id size o n c h e m =
      let c' = (send_request_fw_data t id c).1 in
      let (written, state, instance, command) = send_request_fw_data-writes id size o n c e m in
      let bytes = request_fw_data_request-bytes id o n h in
      let (len, put) =
        write_to_prefix-out (chunk_request id o n) c.payload size c'.payload
          (rw bytes at written) in
      let eleven = length-chunk_request law id o n in
      (
        len ∙ eleven,
        put
            ∙ ap (λ k. chunk_request id o n ++ drop k c.payload) eleven
            ∙ ap (λ bs. (128 + id) ∷ 0x05 ∷ 0x15 ∷ bs)
                (append_assoc (order.write_int 4 o) (order.write_int 4 n) (drop 11 c.payload)),
        state,
        instance,
        command,
      )

  -- Once the vendor-defined transfer result was stored, the TransferComplete made from it
  -- panics.
  pub vendor_result-panics :
      (id : ℕ) (c : Ctx W)
      → (store_result t TransferResult.vendor_defined c).0 ≡ ok tt
      → (send_transfer_complete t id (store_result t TransferResult.vendor_defined c).1).0 ≡ panic
  unfolding store_result send_transfer_complete transfer_result_try_from
  vendor_result-panics id c h = ground arith
