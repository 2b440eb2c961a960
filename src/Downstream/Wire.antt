-- ===== src/Downstream/Wire.antt =====
-- The bytes of descriptors, as `Descriptor` in `pldm-common/src/protocol/firmware_update.rs` writes and
-- reads them.
use pldm_lib.Base.{
  ℕ, ◌^◌, ◌≤◌, ◌<◌, ◌≡◌, refl, sym, subst, false, List, [], ◌∷◌, ◌++◌, ok, arith, length, take, ltb,
  length-append, append_assoc, All, ◌>>=◌, drop-append_length,
}
use pldm_lib.Protocol.Update.{descriptor_data_max_len}
use pldm_lib.Codec.{Reader, Cursor, ◌>>=◌ as bind, pure, put, slice}
use pldm_lib.Codec.Order.{ByteOrder, IsByteOrder}
use pldm_lib.Codec.Round.{Reads, Reads-int, Reads-pure, Reads-last, slice-Reads, decode-append}
use pldm_lib.Codec.Writes.{Writes, put-Writes, then-Writes, RoundTrip, written-round}
use pldm_lib.Message.Device.{
  Descriptor, descriptor_size, put_prefix, encode_descriptor, start, done_writing,
}
use pldm_lib.Message.Round.{put_prefix-Writes}
use pldm_lib.Downstream.Blob.{
  suffix, descriptor_array, descriptor_bytes, read_descriptor, try_get_descriptor_length_from_blob,
}

-- A descriptor whose fields fit their widths, with zeros behind its data.
pub record IsWire (d : Descriptor) : Type 0 where
  pub type_fits : d.descriptor_type < 256 ^ 2
  pub length_fits : d.descriptor_length ≤ descriptor_data_max_len
  pub padded : d.descriptor_data ≡ descriptor_array (take d.descriptor_length d.descriptor_data)
  pub same_length : length (take d.descriptor_length d.descriptor_data) ≡ d.descriptor_length

short : (len : ℕ) → len ≤ descriptor_data_max_len → ltb descriptor_data_max_len len ≡ false
short len h = ground arith

pub suffix-append :
    (front rest : List ℕ) (n : ℕ) → length front ≡ n → suffix n (front ++ rest) ≡ ok rest
unfolding suffix
suffix-append front rest n e =
    subst (λ n. suffix n (front ++ rest) ≡ ok rest) e
      (ground (arith, drop-append_length front rest, length-append front rest))

fits_room : (n : ℕ) (c : Cursor) → n ≤ length c.room → ltb (length c.room) n ≡ false
fits_room n c h = ground arith

Reads-data :
    {B : Type 0} (f : List ℕ → Reader B) (d : Descriptor) (b : B)
    → IsWire d
    → Reads (f d.descriptor_data) b []
    → Reads
        (bind (descriptor_bytes d.descriptor_length) f)
        b
        (take d.descriptor_length d.descriptor_data)
unfolding descriptor_bytes
Reads-data f d b w h =
    let len = d.descriptor_length in
    let bs = take len d.descriptor_data in
    let array =
      subst (λ a. Reads (pure (descriptor_array bs)) a []) (sym w.padded) (Reads-pure _) in
    Reads-last (descriptor_bytes len) f d.descriptor_data b bs
      (rw (short len w.length_fits) (
        Reads-last (slice len) (λ s. pure (descriptor_array s)) bs d.descriptor_data bs
          (subst (λ n. Reads (slice n) bs bs) w.same_length (slice-Reads bs)) array))
      h

module _ (bo : ByteOrder) (law : IsByteOrder bo) where
  open bo use {write_int}

  abbrev pub descriptor_wire : Descriptor → List ℕ
  descriptor_wire d =
      write_int 2 d.descriptor_type
      ++ (write_int 2 d.descriptor_length ++ take d.descriptor_length d.descriptor_data)

  pub descriptor-Reads :
      (d : Descriptor) → IsWire d → Reads (read_descriptor bo) d (descriptor_wire d)
  unfolding read_descriptor
  descriptor-Reads d w = Reads-int bo law _ 2 d.descriptor_type _ _ w.type_fits (
      Reads-int bo law _ 2 d.descriptor_length _ _ (let h = w.length_fits in omega arith)
        (Reads-data _ d _ w (Reads-pure _)))

  pub length-descriptor_wire :
      (d : Descriptor) → IsWire d → length (descriptor_wire d) ≡ descriptor_size d
  unfolding descriptor_size
  length-descriptor_wire d w = omega (
    arith,
    length-append (write_int 2 d.descriptor_type)
        (write_int 2 d.descriptor_length ++ take d.descriptor_length d.descriptor_data),
    length-append (write_int 2 d.descriptor_length) (take d.descriptor_length d.descriptor_data),
    law.length-write 2 d.descriptor_type,
    law.length-write 2 d.descriptor_length,
    w.same_length,
  )

  fields-Writes :
      (d : Descriptor)
      → IsWire d
      → Writes (descriptor_wire d) (λ c.
        put (write_int 2 d.descriptor_type) c
        >>= put (write_int 2 d.descriptor_length)
        >>= put_prefix d.descriptor_length d.descriptor_data)
  fields-Writes d w =
      let kind = write_int 2 d.descriptor_type in
      let len = write_int 2 d.descriptor_length in
      let bs = take d.descriptor_length d.descriptor_data in
      let last = put_prefix d.descriptor_length d.descriptor_data in
      subst (λ x. Writes x (λ c. put kind c >>= put len >>= last)) (append_assoc kind len bs)
        (then-Writes (λ c. put kind c >>= put len) last (kind ++ len) bs
          (then-Writes (put kind) (put len) kind len (put-Writes kind) (put-Writes len))
          (put_prefix-Writes d.descriptor_length d.descriptor_data w.same_length))

  pub encode_descriptor-Writes :
      (d : Descriptor) → IsWire d → Writes (descriptor_wire d) (encode_descriptor bo d)
  unfolding encode_descriptor
  encode_descriptor-Writes d w = record {
    at = λ c room.
        let size = length-descriptor_wire d w in
        rw (fits_room (descriptor_size d) c (omega (arith, size))) ((fields-Writes d w).at c room);
  }

  -- A descriptor whose fields fit their widths, with zeros behind its data in its array, is
  -- written to every buffer that has room for it, and decodes to itself from there, in a lawful
  -- byte order.
  pub descriptor-round :
      (d : Descriptor) (buffer : List ℕ)
      → IsWire d
      → descriptor_size d ≤ length buffer
      → RoundTrip
          (read_descriptor bo)
          d
          (descriptor_size d)
          (done_writing (encode_descriptor bo d (start buffer)))
  unfolding encode_descriptor
  descriptor-round d buffer w room =
      written-round (read_descriptor bo) d (encode_descriptor bo d) (descriptor_wire d) buffer
        (descriptor_size d) (encode_descriptor-Writes d w) (descriptor-Reads d w)
        (length-descriptor_wire d w) room

  abbrev pub descriptors_wire : List Descriptor → List ℕ
  descriptors_wire [] = []
  descriptors_wire (d ∷ ds) = descriptor_wire d ++ descriptors_wire ds

  pub blob_length-wire :
      (ds : List Descriptor) (rest : List ℕ)
      → All IsWire ds
      → try_get_descriptor_length_from_blob bo (length ds) (descriptors_wire ds ++ rest)
        ≡ ok (length (descriptors_wire ds))
  unfolding try_get_descriptor_length_from_blob
  blob_length-wire [] rest h = refl
  blob_length-wire (d ∷ ds) rest h =
      let wire = descriptor_wire d in
      let more = descriptors_wire ds ++ rest in
      let size = length-descriptor_wire d h.0 in
      rw
        (
          append_assoc wire (descriptors_wire ds) rest,
          decode-append (read_descriptor bo) d wire more (descriptor-Reads d h.0),
          ◌>>=◌,
          suffix-append wire more (descriptor_size d) size,
          blob_length-wire ds rest h.1,
        )
        (ground (arith, size, length-append wire (descriptors_wire ds)))
