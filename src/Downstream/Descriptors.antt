-- ===== src/Downstream/Descriptors.antt =====
-- `DownstreamDevice` as an iterator over the descriptors that it holds the bytes of, and its `decode`.
use pldm_lib.Base.{
  ℕ, zero, suc, ◌+◌, List, [], ◌∷◌, Option, none, some, ok, err, panic, ltb, leb, ◌==◌,
  if◌then◌else◌, length, take, drop, ◌>>=◌,
}
use pldm_lib.Protocol.Error.{buffer_too_short}
use pldm_lib.Codec.{CodecResult, Reader, decode, ◌>>=◌ as bind, pure, int, byte}
use pldm_lib.Codec.Order.{ByteOrder, little_endian}
use pldm_lib.Message.Device.{Descriptor}
use pldm_lib.Transfer.Portion.{all_left}
use pldm_lib.Downstream.Blob.{read_descriptor}
use pldm_lib.Downstream.Devices.{DownstreamDevice, device_header_size}

-- `_iter_dev_count` and `_iter_offset`
pub record DescriptorIter : Type 0 where
  pub dev_count : ℕ
  pub offset : ℕ

abbrev pub descriptors_start : DescriptorIter
descriptors_start = record { dev_count = 0; offset = 0 }

unfoldable pub device_reader : Reader DownstreamDevice
device_reader = bind (int little_endian 2) λ index. bind byte λ count. bind all_left λ descriptors.
    pure (record {
      downstream_device_index = index;
      downstream_descriptor_count = count;
      downstream_descriptors = descriptors;
    })

unfoldable pub decode_device : List ℕ → CodecResult DownstreamDevice
unfolding device_reader decode
decode_device buffer =
    if ltb (length buffer) device_header_size
    then err buffer_too_short
    else decode device_reader buffer

module _ (bo : ByteOrder) where
  open bo use {read_int}

  -- The descriptor of a length at an offset.
  unfoldable pub take_descriptor :
      List ℕ → DescriptorIter → ℕ → CodecResult (Option Descriptor × DescriptorIter)
  unfolding read_descriptor decode
  take_descriptor bytes s len =
      if ltb (length bytes) (s.offset + 4 + len)
      then ok (none, s)
      else elim (decode (read_descriptor bo) (take (4 + len) (drop s.offset bytes))) [
        | ok d ↦ ok (some d, record { dev_count = s.dev_count + 1; offset = s.offset + (4 + len) })
        | err _ ↦ ok (none, s)
        | panic ↦ panic
      ]

  -- `Iterator::next`. The slice of the length field panics where the bytes end before it.
  unfoldable pub next_descriptor :
      DownstreamDevice → DescriptorIter → CodecResult (Option Descriptor × DescriptorIter)
  unfolding take_descriptor
  next_descriptor d s =
      if d.downstream_descriptor_count == 0
      then ok (none, s)
      else if leb d.downstream_descriptor_count s.dev_count
      then ok (none, descriptors_start)
      else if ltb (length d.downstream_descriptors) (s.offset + 4)
      then panic
      else take_descriptor d.downstream_descriptors s
          (read_int (take 2 (drop (s.offset + 2) d.downstream_descriptors)))

  -- What a loop over the iterator collects in at most `fuel` steps; `none` when it goes on longer.
  unfoldable pub collect_descriptors :
      ℕ → DownstreamDevice → DescriptorIter → Option (CodecResult (List Descriptor))
  unfolding next_descriptor
  collect_descriptors zero d s = none
  collect_descriptors (suc fuel) d s = elim (next_descriptor d s) [
    | ok (none, s') ↦ some (ok [])
    | ok (some x, s') ↦ elim (collect_descriptors fuel d s') [
      | some m ↦ some (m >>= λ xs. ok (x ∷ xs))
      | none ↦ none
    ]
    | err e ↦ some (err e)
    | panic ↦ some panic
  ]
