-- ===== src/Downstream/Collect.antt =====
-- The iterator over the descriptors of a device finds the descriptors that its bytes were made of.
use pldm_lib.Base.{
  ℕ, zero, suc, ◌+◌, ◌≤◌, ◌<◌, ◌≡◌, refl, sym, ap, ◌∙◌, subst, false, true, List, [], ◌∷◌, ◌++◌,
  Bool-cases, inl, inr, some, none, ok, err, panic, arith, length, take, drop, ltb, leb, ◌==◌,
  length-append, append_assoc, append-nil, All, take-append_length, drop-append_length,
}
use pldm_lib.Codec.{decode, int, byte, Reader, pure, ◌>>=◌ as bind}
use pldm_lib.Transfer.Portion.{all_left}
use pldm_lib.Downstream.Descriptors.{device_reader}
use pldm_lib.Codec.Order.{little_endian, ByteOrder, IsByteOrder, from_le}
use pldm_lib.Codec.Round.{decode-append, slice-Reads}
use pldm_lib.Message.Device.{Descriptor, descriptor_size}
use pldm_lib.Downstream.Blob.{read_descriptor}
use pldm_lib.Downstream.Devices.{DownstreamDevice}
use pldm_lib.Downstream.Wire.{
  IsWire, descriptor_wire, descriptors_wire, descriptor-Reads, length-descriptor_wire,
}
use pldm_lib.Downstream.Descriptors.{
  DescriptorIter, descriptors_start, decode_device, take_descriptor, next_descriptor,
  collect_descriptors,
}

-- A field of `n` bytes behind `m` bytes.
field_at :
    (front mid rest : List ℕ) (m n : ℕ)
    → length front ≡ m
    → length mid ≡ n
    → take n (drop m (front ++ (mid ++ rest))) ≡ mid
field_at front mid rest m n e f =
    subst (λ m. take n (drop m (front ++ (mid ++ rest))) ≡ mid) e
      (subst (λ n. take n (drop (length front) (front ++ (mid ++ rest))) ≡ mid) f
        (rw (drop-append_length front (mid ++ rest)) (take-append_length mid rest)))

enough : (bytes : List ℕ) (n : ℕ) → n ≤ length bytes → ltb (length bytes) n ≡ false
enough bytes n h = ground arith

nonzero : (n : ℕ) → 0 < n → (n == 0) ≡ false
nonzero n h = ground arith

above : (a b : ℕ) → a < b → leb b a ≡ false
above a b h = ground arith

then_index :
    {B : Type 0} (f : ℕ → Reader B) (a b : ℕ) (rest : List ℕ)
    → bind (int little_endian 2) f (a ∷ b ∷ rest) ≡ f (from_le (a ∷ b ∷ [])) rest
unfolding int
then_index f a b rest = rw (bind, (slice-Reads (a ∷ b ∷ [])).at rest) refl

-- What follows the index.
abbrev device_behind : ℕ → Reader DownstreamDevice
device_behind index = bind byte λ count. bind all_left λ descriptors. pure (record {
  downstream_device_index = index;
  downstream_descriptor_count = count;
  downstream_descriptors = descriptors;
})

module _ (bo : ByteOrder) (law : IsByteOrder bo) where
  open bo use {write_int, read_int}

  abbrev step_state : DescriptorIter → Descriptor → DescriptorIter
  step_state s d = record {
    dev_count = s.dev_count + 1;
    offset = s.offset + (4 + d.descriptor_length);
  }

  module _ (front : List ℕ) (d : Descriptor) (w : IsWire d) (rest : List ℕ) where
    abbrev bytes : List ℕ
    bytes = front ++ (descriptor_wire bo law d ++ rest)

    wire_length : length (descriptor_wire bo law d) ≡ 4 + d.descriptor_length
    unfolding descriptor_size
    wire_length = length-descriptor_wire bo law d w

    bytes_length : length bytes ≡ length front + (4 + d.descriptor_length + length rest)
    bytes_length = omega (
      arith,
      length-append front (descriptor_wire bo law d ++ rest),
      length-append (descriptor_wire bo law d) rest,
      wire_length,
    )

    take_descriptor-wire :
        (s : DescriptorIter)
        → length front ≡ s.offset
        → take_descriptor bo bytes s d.descriptor_length ≡ ok (some d, step_state s d)
    unfolding take_descriptor
    take_descriptor-wire s e =
        rw
          (
            enough bytes (s.offset + 4 + d.descriptor_length) (omega (arith, bytes_length)),
            field_at front (descriptor_wire bo law d) rest s.offset (4 + d.descriptor_length) e
                wire_length,
            sym (append-nil (descriptor_wire bo law d)),
            decode-append (read_descriptor bo) d (descriptor_wire bo law d) []
                (descriptor-Reads bo law d w),
          )
          refl

    length_field :
        (s : DescriptorIter)
        → length front ≡ s.offset
        → read_int (take 2 (drop (s.offset + 2) bytes)) ≡ d.descriptor_length
    length_field s e =
        let kind = write_int 2 d.descriptor_type in
        let len = write_int 2 d.descriptor_length in
        let more = take d.descriptor_length d.descriptor_data ++ rest in
        let small = w.length_fits in
        let shape : bytes ≡ (front ++ kind) ++ (len ++ more) = simp append_assoc in
        subst (λ bs. read_int (take 2 (drop (s.offset + 2) bs)) ≡ d.descriptor_length) (sym shape)
          (ap read_int (
              field_at (front ++ kind) len more (s.offset + 2) 2
                (omega (arith, length-append front kind, law.length-write 2 d.descriptor_type, e))
                (law.length-write 2 d.descriptor_length))
            ∙ law.read-write 2 d.descriptor_length (omega arith))

    next_descriptor-wire :
        (index count : ℕ) (s : DescriptorIter)
        → length front ≡ s.offset
        → s.dev_count < count
        → next_descriptor bo
            (record {
              downstream_device_index = index;
              downstream_descriptor_count = count;
              downstream_descriptors = bytes;
            })
            s
          ≡ ok (some d, step_state s d)
    unfolding next_descriptor
    next_descriptor-wire index count s e h =
        rw
          (
            nonzero count (omega arith),
            above s.dev_count count h,
            enough bytes (s.offset + 4) (omega (arith, bytes_length)),
          )
          (ap (take_descriptor bo bytes s) (length_field s e) ∙ take_descriptor-wire s e)

  ended :
      (d : DownstreamDevice) (s : DescriptorIter)
      → d.downstream_descriptor_count ≤ s.dev_count
      → (s' : DescriptorIter) × (next_descriptor bo d s ≡ ok (none, s'))
  unfolding next_descriptor
  ended d s h = elim (Bool-cases (d.downstream_descriptor_count == 0)) [
    | inl q ↦ (s, rw q refl)
    | inr q ↦
        let done : leb d.downstream_descriptor_count s.dev_count ≡ true = ground arith in
        (descriptors_start, rw (q, done) refl)
  ]

  collect_next :
      (fuel : ℕ) (device : DownstreamDevice) (s : DescriptorIter) (d : Descriptor)
      (s' : DescriptorIter) (ds : List Descriptor)
      → next_descriptor bo device s ≡ ok (some d, s')
      → collect_descriptors bo fuel device s' ≡ some (ok ds)
      → collect_descriptors bo (suc fuel) device s ≡ some (ok (d ∷ ds))
  unfolding collect_descriptors
  collect_next fuel device s d s' ds h k = rw (h, collect_descriptors, k) refl

  collect-from :
      (ds : List Descriptor) (front : List ℕ) (index count : ℕ) (s : DescriptorIter) (fuel : ℕ)
      → All IsWire ds
      → length front ≡ s.offset
      → s.dev_count + length ds ≡ count
      → length ds < fuel
      → collect_descriptors bo fuel
          (record {
            downstream_device_index = index;
            downstream_descriptor_count = count;
            downstream_descriptors = front ++ descriptors_wire bo law ds;
          })
          s
        ≡ some (ok ds)
  unfolding collect_descriptors
  collect-from ds front index count s zero w e h fits = absurd (omega arith)
  collect-from [] front index count s (suc fuel) w e h fits =
      let (s', q) =
        ended
          (record {
            downstream_device_index = index;
            downstream_descriptor_count = count;
            downstream_descriptors = front ++ [];
          })
          s (omega arith) in
      rw (q, collect_descriptors) refl
  collect-from (d ∷ ds) front index count s (suc fuel) w e h fits =
      let wire = descriptor_wire bo law d in
      let size = wire_length front d w.0 (descriptors_wire bo law ds) in
      let rest =
        collect-from ds (front ++ wire) index count (step_state s d) fuel w.1
          (omega (arith, length-append front wire, size, e)) (omega arith) (omega arith) in
      let device : List ℕ → DownstreamDevice = λ bs. record {
        downstream_device_index = index;
        downstream_descriptor_count = count;
        downstream_descriptors = bs;
      } in
      collect_next fuel (device (front ++ (wire ++ descriptors_wire bo law ds))) s d
        (step_state s d) ds
        (next_descriptor-wire front d w.0 (descriptors_wire bo law ds) index count s e
          (omega arith))
        (subst (λ bs. collect_descriptors bo fuel (device bs) (step_state s d) ≡ some (ok ds))
          (append_assoc front wire (descriptors_wire bo law ds)) rest)

  -- The iterator over a device made of descriptors whose fields fit their widths, with zeros
  -- behind their data in their arrays, returns these descriptors, in their order, and then
  -- ends, without a panic, in a lawful byte order.
  pub collect-descriptors_wire :
      (ds : List Descriptor) (index : ℕ)
      → All IsWire ds
      → collect_descriptors bo
          (suc (length ds))
          (record {
            downstream_device_index = index;
            downstream_descriptor_count = length ds;
            downstream_descriptors = descriptors_wire bo law ds;
          })
          descriptors_start
        ≡ some (ok ds)
  collect-descriptors_wire ds index w =
      collect-from ds [] index (length ds) descriptors_start (suc (length ds)) w refl (omega arith)
        (omega arith)

  next_descriptor-short :
      (d : DownstreamDevice) (s : DescriptorIter)
      → s.dev_count < d.downstream_descriptor_count
      → length d.downstream_descriptors < s.offset + 4
      → next_descriptor bo d s ≡ panic
  unfolding next_descriptor
  next_descriptor-short d s h k =
      let few : ltb (length d.downstream_descriptors) (s.offset + 4) ≡ true = ground arith in
      rw
        (
          nonzero d.downstream_descriptor_count (omega arith),
          above s.dev_count d.downstream_descriptor_count h,
          few,
        )
        refl

  -- Bytes that announce at least one descriptor and hold fewer than four bytes of them decode
  -- to a device, and the first step of the iterator over it panics.
  pub decode_device-panics :
      (i j count : ℕ) (bs : List ℕ)
      → 0 < count
      → length bs < 4
      → (d : DownstreamDevice) × (decode_device (i ∷ j ∷ count ∷ bs) ≡ ok d)
        × (next_descriptor bo d descriptors_start ≡ panic)
  unfolding decode_device decode device_reader byte
  decode_device-panics i j count bs h few =
      let d : DownstreamDevice = record {
        downstream_device_index = from_le (i ∷ j ∷ []);
        downstream_descriptor_count = count;
        downstream_descriptors = bs;
      } in
      (
        d,
        rw (enough (i ∷ j ∷ count ∷ bs) 3 (omega arith)) (
            ap (λ m. elim m [ ok (a, _) ↦ ok a | err e ↦ err e | panic ↦ panic ])
              (then_index device_behind i j (count ∷ bs))),
        next_descriptor-short d descriptors_start h few,
      )
