-- ===== src/Downstream/Entries.antt =====
-- The bytes of a list of devices in a portion, and the step of the iterator on them.
use pldm_lib.Base.{
  ℕ, zero, suc, ◌+◌, ◌^◌, ◌≤◌, ◌<◌, ◌≡◌, refl, ap, ◌∙◌, true, false, List, [], ◌∷◌, ◌++◌, none,
  some, Result, ok, arith, length, ltb, leb, le→leb, ◌==◌, if◌then◌else◌, length-append,
  append_assoc, All, take-append_length,
}
use pldm_lib.Protocol.Error.{PldmError}
use pldm_lib.Codec.{decode}
use pldm_lib.Codec.Order.{ByteOrder, IsByteOrder}
use pldm_lib.Codec.Round.{Reads, Reads-int, Reads-byte, Reads-pure, decode-append}
use pldm_lib.Message.Device.{Descriptor}
use pldm_lib.Downstream.Blob.{suffix}
use pldm_lib.Downstream.Devices.{
  DownstreamDevice, PortionIter, portion_start, portion_header, devices_header, take_device,
  device_at, next_at, next_device,
}
use pldm_lib.Downstream.Wire.{IsWire, descriptors_wire, blob_length-wire, suffix-append}

-- A downstream device and its descriptors.
pub record Entry : Type 0 where
  pub index : ℕ
  pub descriptors : List Descriptor

-- The fields of an entry fit their widths.
pub record IsEntry (e : Entry) : Type 0 where
  pub index_fits : e.index < 256 ^ 2
  pub descriptors_fit : All IsWire e.descriptors

-- The entry of an index, or the error of `try_at`.
abbrev pub lookup : List DownstreamDevice → ℕ → Result PldmError DownstreamDevice
lookup [] i = Result.err PldmError.invalid_data
lookup (d ∷ ds) zero = Result.ok d
lookup (d ∷ ds) (suc i) = lookup ds i

fits_portion : (portion : List ℕ) (n : ℕ) → n ≤ length portion → ltb (length portion) n ≡ false
fits_portion portion n h = ground arith

pub here : (a b : ℕ) → a ≡ b → (a == b) ≡ true
here a b h = ground arith

pub elsewhere : (a b : ℕ) → a < b → (a == b) ≡ false
elsewhere a b h = ground arith

more : (a b : ℕ) → a < b → leb b a ≡ false
more a b h = ground arith

module _ (bo : ByteOrder) (law : IsByteOrder bo) where
  open bo use {write_int}

  abbrev pub device_of : Entry → DownstreamDevice
  device_of e = record {
    downstream_device_index = e.index;
    downstream_descriptor_count = length e.descriptors;
    downstream_descriptors = descriptors_wire bo law e.descriptors;
  }

  abbrev pub header_wire : Entry → List ℕ
  header_wire e = write_int 2 e.index ++ (length e.descriptors ∷ [])

  abbrev pub entry_wire : Entry → List ℕ
  entry_wire e = header_wire e ++ descriptors_wire bo law e.descriptors

  abbrev pub entries_wire : List Entry → List ℕ
  entries_wire [] = []
  entries_wire (e ∷ es) = entry_wire e ++ entries_wire es

  abbrev pub front_wire : List Entry → List ℕ
  front_wire es = write_int 4 (length (entries_wire es)) ++ write_int 2 (length es)

  -- The portion that holds the entries.
  abbrev pub portion_wire : List Entry → List ℕ
  portion_wire es = front_wire es ++ entries_wire es

  devices_header-Reads :
      (e : Entry)
      → IsEntry e
      → Reads (devices_header bo) (e.index, length e.descriptors) (header_wire e)
  unfolding devices_header
  devices_header-Reads e h =
      Reads-int bo law _ 2 e.index _ _ h.index_fits
        (Reads-byte _ (length e.descriptors) _ _ (Reads-pure _))

  pub length-header : (e : Entry) → length (header_wire e) ≡ 3
  length-header e = omega (
    arith,
    length-append (write_int 2 e.index) (length e.descriptors ∷ []),
    law.length-write 2 e.index,
  )

  device_at-header :
      (portion : List ℕ) (s : PortionIter) (offset : ℕ) (e : Entry) (blob : List ℕ)
      → IsEntry e
      → device_at bo portion s offset (header_wire e ++ blob)
        ≡ take_device bo portion s offset (e.index, length e.descriptors) blob
  unfolding device_at
  device_at-header portion s offset e blob h =
      rw
        (
          device_at,
          decode-append (devices_header bo) (e.index, length e.descriptors) (header_wire e) blob
              (devices_header-Reads e h),
          suffix-append (header_wire e) blob 3 (length-header e),
        )
        refl

  take_device-entry :
      (portion : List ℕ) (s : PortionIter) (offset : ℕ) (e : Entry) (rest : List ℕ)
      → IsEntry e
      → offset + 3 + length (descriptors_wire bo law e.descriptors) ≤ length portion
      → take_device bo portion s offset
          (e.index, length e.descriptors)
          (descriptors_wire bo law e.descriptors ++ rest)
        ≡ ok (
          some (device_of e),
          record {
            current = s.current + 1;
            offset_next = offset + 3 + length (descriptors_wire bo law e.descriptors);
          },
        )
  unfolding take_device
  take_device-entry portion s offset e rest h room =
      let wire = descriptors_wire bo law e.descriptors in
      rw
        (
          take_device,
          blob_length-wire bo law e.descriptors rest h.descriptors_fit,
          fits_portion portion (offset + 3 + length wire) room,
          take-append_length wire rest,
        )
        refl

  length-portion :
      (portion : List ℕ) (e : Entry) (front rest : List ℕ)
      → portion ≡ front ++ (entry_wire e ++ rest)
      → length portion
        ≡ length front + (3 + length (descriptors_wire bo law e.descriptors) + length rest)
  length-portion portion e front rest split = omega (
    arith,
    ap (λ (xs : List ℕ). length xs) split,
    length-append front (entry_wire e ++ rest),
    length-append (entry_wire e) rest,
    length-append (header_wire e) (descriptors_wire bo law e.descriptors),
    length-header e,
  )

  next_at-split :
      (portion : List ℕ) (s : PortionIter) (front rest : List ℕ)
      → portion ≡ front ++ rest
      → length front < length portion
      → next_at bo portion s (length front) ≡ device_at bo portion s (length front) rest
  unfolding next_at
  next_at-split portion s front rest split inside =
      rw
        (
          more (length front) (length portion) inside,
          next_at,
          ap (suffix (length front)) split,
          suffix-append front rest (length front) refl,
        )
        refl

  -- The offset that `next` reads from.
  abbrev pub offset_of : PortionIter → ℕ
  offset_of s = if s.current == 0 then 6 else s.offset_next

  to_offset :
      (portion : List ℕ) (s : PortionIter) (number : ℕ)
      → decode (portion_header bo) portion ≡ ok number
      → s.current < number
      → next_device bo portion s ≡ next_at bo portion s (offset_of s)
  unfolding next_device
  to_offset portion s number read below = rw (read, next_device, more s.current number below) refl

  pub at_end :
      (portion : List ℕ) (s : PortionIter) (number : ℕ)
      → decode (portion_header bo) portion ≡ ok number
      → number ≤ s.current
      → next_device bo portion s ≡ ok (none, portion_start)
  unfolding next_device
  at_end portion s number read beyond = rw (read, next_device, le→leb number s.current beyond) refl

  -- The iterator that stands in front of an entry returns its device, and stands behind it.
  pub next_device-entry :
      (portion : List ℕ) (s : PortionIter) (number : ℕ) (e : Entry) (front rest : List ℕ)
      → IsEntry e
      → decode (portion_header bo) portion ≡ ok number
      → s.current < number
      → portion ≡ front ++ (entry_wire e ++ rest)
      → offset_of s ≡ length front
      → next_device bo portion s
        ≡ ok (
          some (device_of e),
          record {
            current = s.current + 1;
            offset_next = length front + 3 + length (descriptors_wire bo law e.descriptors);
          },
        )
  unfolding next_device next_at
  next_device-entry portion s number e front rest h read below split at =
      let wire = descriptors_wire bo law e.descriptors in
      let size = length-portion portion e front rest split in
      let offset = length front in
      to_offset portion s number read below
      ∙ ap (next_at bo portion s) at
      ∙ next_at-split portion s front (entry_wire e ++ rest) split (omega (arith, size))
      ∙ ap (device_at bo portion s offset) (append_assoc (header_wire e) wire rest)
      ∙ device_at-header portion s offset e (wire ++ rest) h
      ∙ take_device-entry portion s offset e rest h (omega (arith, size))
