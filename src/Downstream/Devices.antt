-- ===== src/Downstream/Devices.antt =====
-- `QueryDownstreamIdentifiersResponse` as an iterator over the devices of its portion, and `try_at`.
use pldm_lib.Base.{
  ℕ, zero, suc, ◌+◌, List, Option, none, some, Result, ok, err, panic, ltb, leb, ◌==◌,
  if◌then◌else◌, length, take,
}
use pldm_lib.Protocol.Error.{PldmError}
use pldm_lib.Codec.{CodecResult, Reader, ◌>>=◌, pure, byte, int, decode}
use pldm_lib.Codec.Order.{ByteOrder}
use pldm_lib.Downstream.Blob.{suffix, try_get_descriptor_length_from_blob}

-- `DownstreamDevice`, its iterator state aside
pub record DownstreamDevice : Type 0 where
  pub downstream_device_index : ℕ
  pub downstream_descriptor_count : ℕ
  pub downstream_descriptors : List ℕ

-- `portion_iter_current` and `portion_offset_next`
pub record PortionIter : Type 0 where
  pub current : ℕ
  pub offset_next : ℕ

abbrev pub portion_start : PortionIter
portion_start = record { current = 0; offset_next = 0 }

abbrev pub portion_header_size : ℕ
portion_header_size = 6

abbrev pub device_header_size : ℕ
device_header_size = 3

-- What `next` returns, and the iterator after it.
abbrev pub Next : Type 0
Next = CodecResult (Option DownstreamDevice × PortionIter)

module _ (bo : ByteOrder) where
  -- `PortionHeader`: the length of the devices, which is not used, and their number
  unfoldable pub portion_header : Reader ℕ
  portion_header = do len ← int bo 4; number ← int bo 2; pure number

  -- `DownstreamDevicesHeader`: index and descriptor count
  unfoldable pub devices_header : Reader (ℕ × ℕ)
  devices_header = do index ← int bo 2; count ← byte; pure (index, count)

  -- The device whose descriptors stand at the front of `blob`, `offset` bytes into the portion.
  unfoldable pub take_device : List ℕ → PortionIter → ℕ → ℕ × ℕ → List ℕ → Next
  unfolding try_get_descriptor_length_from_blob
  take_device portion s offset (index, count) blob =
      elim (try_get_descriptor_length_from_blob bo count blob) [
        | ok size ↦
            if ltb (length portion) (offset + device_header_size + size)
            then ok (none, portion_start)
            else ok (
              some (record {
                downstream_device_index = index;
                downstream_descriptor_count = count;
                downstream_descriptors = take size blob;
              }),
              record { current = s.current + 1; offset_next = offset + device_header_size + size },
            )
        | err e ↦ ok (none, s)
        | panic ↦ panic
      ]

  unfoldable pub device_at : List ℕ → PortionIter → ℕ → List ℕ → Next
  unfolding devices_header suffix take_device
  device_at portion s offset rest = elim (decode devices_header rest) [
    | ok hdr ↦ elim (suffix device_header_size rest) [
      | ok blob ↦ take_device portion s offset hdr blob
      | err e ↦ err e
      | panic ↦ panic
    ]
    | err e ↦ ok (none, s)
    | panic ↦ panic
  ]

  -- The device at an offset, if the portion reaches that far.
  unfoldable pub next_at : List ℕ → PortionIter → ℕ → Next
  unfolding suffix device_at
  next_at portion s offset =
      if leb (length portion) offset then ok (none, s) else elim (suffix offset portion) [
        | ok rest ↦ device_at portion s offset rest
        | err e ↦ err e
        | panic ↦ panic
      ]

  -- `Iterator::next`
  unfoldable pub next_device : List ℕ → PortionIter → Next
  unfolding portion_header next_at
  next_device portion s = elim (decode portion_header portion) [
    | ok number ↦
        if leb number s.current
        then ok (none, portion_start)
        else next_at portion s (if s.current == 0 then portion_header_size else s.offset_next)
    | err e ↦ ok (none, s)
    | panic ↦ panic
  ]

  -- The loop of `try_at`, which has seen `i` devices; `none` when the fuel does not last.
  unfoldable pub try_at_from :
      ℕ → List ℕ → ℕ → ℕ → PortionIter → Option (CodecResult (Result PldmError DownstreamDevice))
  unfolding next_device
  try_at_from zero portion index i s = none
  try_at_from (suc fuel) portion index i s = elim (next_device portion s) [
    | ok (some device, s') ↦
        if i == index
        then some (ok (Result.ok device))
        else try_at_from fuel portion index (i + 1) s'
    | ok (none, s') ↦ some (ok (Result.err PldmError.invalid_data))
    | err e ↦ some (err e)
    | panic ↦ some panic
  ]

  -- The number of devices that the header of the portion announces.
  unfoldable pub announced : List ℕ → ℕ
  unfolding portion_header
  announced portion = elim (decode portion_header portion) [ ok number ↦ number | _ ↦ 0 ]

  -- `try_at` of a response with the iterator `s`, on fuel for every device that is announced
  unfoldable pub try_at :
      List ℕ → PortionIter → ℕ → Option (CodecResult (Result PldmError DownstreamDevice))
  unfolding try_at_from announced
  try_at portion s index = try_at_from (suc (announced portion)) portion index 0 s
