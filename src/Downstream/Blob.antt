-- ===== src/Downstream/Blob.antt =====
-- `Descriptor::decode` and `try_get_descriptor_length_from_blob` of
-- `pldm-common/src/protocol/firmware_update.rs`.
use pldm_lib.Base.{
  ℕ, zero, suc, ◌+◌, ◌-◌, List, ◌++◌, ok, panic, ltb, leb, if◌then◌else◌, length, drop, replicate,
  ◌>>=◌ as bind,
}
use pldm_lib.Protocol.Error.{invalid_data}
use pldm_lib.Protocol.Update.{descriptor_data_max_len}
use pldm_lib.Codec.{CodecResult, Reader, ◌>>=◌, pure, fail, slice, int, decode}
use pldm_lib.Codec.Order.{ByteOrder}
use pldm_lib.Message.Device.{Descriptor, descriptor_size}

-- `&data[n..]`
unfoldable pub suffix : ℕ → List ℕ → CodecResult (List ℕ)
suffix n bs = if leb n (length bs) then ok (drop n bs) else panic

-- The array that a descriptor's bytes stand in.
unfoldable pub descriptor_array : List ℕ → List ℕ
descriptor_array bs = bs ++ replicate (descriptor_data_max_len - length bs) 0

unfoldable pub descriptor_bytes : ℕ → Reader (List ℕ)
unfolding descriptor_array slice
descriptor_bytes len =
    if ltb descriptor_data_max_len len
    then fail invalid_data
    else (slice len >>= λ bs. pure (descriptor_array bs))

module _ (bo : ByteOrder) where
  unfoldable pub read_descriptor : Reader Descriptor
  unfolding descriptor_bytes
  read_descriptor = do
    kind ← int bo 2
    len ← int bo 2
    bytes ← descriptor_bytes len
    pure (record { descriptor_type = kind; descriptor_length = len; descriptor_data = bytes })

  -- The loop over `desc_count`; what is left of the blob stands for the offset into it.
  unfoldable pub try_get_descriptor_length_from_blob : ℕ → List ℕ → CodecResult ℕ
  unfolding read_descriptor suffix descriptor_size
  try_get_descriptor_length_from_blob zero blob = ok 0
  try_get_descriptor_length_from_blob (suc n) blob = bind (decode read_descriptor blob) λ d.
      bind (suffix (descriptor_size d) blob) λ rest.
        bind (try_get_descriptor_length_from_blob n rest) λ len. ok (descriptor_size d + len)
