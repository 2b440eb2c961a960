-- ===== src/Downstream/Walk.antt =====
-- The walk over the devices of a portion ends and does not panic, whatever the bytes.
use pldm_lib.Base.{
  ℕ, zero, suc, ◌+◌, ◌≤◌, ◌<◌, ◌≡◌, refl, List, Option, some, Result, ok, err, panic, arith, length,
  length-drop, drop, ltb, leb, ◌==◌, Bool-cases, Outcome-cases, Option-cases, inl, inr,
  ◌>>=◌ as bind,
}
use pldm_lib.Protocol.Error.{PldmError}
use pldm_lib.Protocol.Update.{descriptor_data_max_len}
use pldm_lib.Codec.{CodecResult, Reader, ◌>>=◌, int, byte, slice, decode}
use pldm_lib.Codec.Order.{ByteOrder}
use pldm_lib.Message.Device.{Descriptor, descriptor_size}
use pldm_lib.Fd.Invariant.Encoders.{NoPanic, Total, total_rules, decode-NoPanic}
use pldm_lib.Downstream.Blob.{
  suffix, descriptor_bytes, read_descriptor, try_get_descriptor_length_from_blob,
}
use pldm_lib.Downstream.Devices.{
  DownstreamDevice, PortionIter, portion_header, devices_header, take_device, device_at, next_at,
  next_device, try_at_from, announced, try_at,
}

abbrev IsOk : {A : Type 0} → CodecResult A → Type 0
IsOk (ok a) = Unit
IsOk _ = ⊥

then-NoPanic : (m : CodecResult ℕ) (k : ℕ) → NoPanic m → NoPanic (bind m λ n. ok (k + n))
then-NoPanic (ok n) k h = tt
then-NoPanic (err e) k h = tt
then-NoPanic panic k h = h

decode-ok :
    {A : Type 0} (r : Reader A) (bs : List ℕ) (a : A)
    → decode r bs ≡ ok a
    → (rest : List ℕ) × (r bs ≡ ok (a, rest))
unfolding decode
decode-ok r bs a h = elim (Outcome-cases (r bs)) [
  | inl ((a', rest), e) ↦ (rest, ground arith)
  | inr (inl (x, e)) ↦ ground arith
  | inr (inr e) ↦ ground arith
]

bind-ok :
    {A B : Type 0} (r : Reader A) (f : A → Reader B) (bs : List ℕ) (b : B) (rest : List ℕ)
    → (r >>= f) bs ≡ ok (b, rest)
    → (a : A) × (mid : List ℕ) × (r bs ≡ ok (a, mid)) × (f a mid ≡ ok (b, rest))
bind-ok r f bs b rest h = elim (Outcome-cases (r bs)) [
  | inl ((a, mid), e) ↦ (a, mid, e, rw (◌>>=◌, e) at h)
  | inr (inl (x, e)) ↦ ground arith
  | inr (inr e) ↦ ground arith
]

slice-length :
    (n : ℕ) (bs front rest : List ℕ) → slice n bs ≡ ok (front, rest) → n + length rest ≡ length bs
unfolding slice
slice-length n bs front rest h = ground (arith, length-drop n bs)

int-length :
    (bo : ByteOrder) (w : ℕ) (bs : List ℕ) (v : ℕ) (rest : List ℕ)
    → int bo w bs ≡ ok (v, rest)
    → w + length rest ≡ length bs
unfolding int
int-length bo w bs v rest h =
    let (front, mid, e, f) = bind-ok (slice w) _ bs v rest h in
    ground (arith, slice-length w bs front mid e)

byte-length :
    (bs : List ℕ) (v : ℕ) (rest : List ℕ) → byte bs ≡ ok (v, rest) → 1 + length rest ≡ length bs
unfolding byte
byte-length bs v rest h = ground arith

descriptor_bytes-length :
    (n : ℕ) (bs bytes rest : List ℕ)
    → descriptor_bytes n bs ≡ ok (bytes, rest)
    → n + length rest ≡ length bs
unfolding descriptor_bytes
descriptor_bytes-length n bs bytes rest h = elim (Bool-cases (ltb descriptor_data_max_len n)) [
  | inl q ↦ ground arith
  | inr q ↦
      let (front, mid, e, f) = bind-ok (slice n) _ bs bytes rest (rw q at h) in
      ground (arith, slice-length n bs front mid e)
]

module _ (bo : ByteOrder) where
  descriptor_bytes-Total : (n : ℕ) → Total (descriptor_bytes n)
  unfolding descriptor_bytes
  descriptor_bytes-Total n = record { at = λ bs. ground arith }

  read_descriptor-Total : Total (read_descriptor bo)
  unfolding read_descriptor
  read_descriptor-Total = search (total_rules, descriptor_bytes-Total) depth 16

  portion_header-Total : Total (portion_header bo)
  unfolding portion_header
  portion_header-Total = search total_rules depth 12

  devices_header-Total : Total (devices_header bo)
  unfolding devices_header
  devices_header-Total = search total_rules depth 12

  -- A descriptor that was decoded stands in the bytes that it was decoded from.
  decoded-size :
      (bs : List ℕ) (d : Descriptor)
      → decode (read_descriptor bo) bs ≡ ok d
      → descriptor_size d ≤ length bs
  unfolding read_descriptor descriptor_size
  decoded-size bs d h =
      let (rest, e) = decode-ok (read_descriptor bo) bs d h in
      let (kind, bs1, e1, f1) = bind-ok (int bo 2) _ bs d rest e in
      let (len, bs2, e2, f2) = bind-ok (int bo 2) _ bs1 d rest f1 in
      let (bytes, bs3, e3, f3) = bind-ok (descriptor_bytes len) _ bs2 d rest f2 in
      ground (
        arith,
        int-length bo 2 bs kind bs1 e1,
        int-length bo 2 bs1 len bs2 e2,
        descriptor_bytes-length len bs2 bytes bs3 e3,
      )

  suffix-drop : (n : ℕ) (bs : List ℕ) → n ≤ length bs → suffix n bs ≡ ok (drop n bs)
  unfolding suffix
  suffix-drop n bs h = ground arith

  blob_length-NoPanic :
      (n : ℕ) (blob : List ℕ) → NoPanic (try_get_descriptor_length_from_blob bo n blob)
  unfolding try_get_descriptor_length_from_blob
  blob_length-NoPanic zero blob = tt
  blob_length-NoPanic (suc n) blob = elim (Outcome-cases (decode (read_descriptor bo) blob)) [
    | inl (d, e) ↦
        let rest = drop (descriptor_size d) blob in
        let later = blob_length-NoPanic n rest in
        rw (e, bind, suffix-drop (descriptor_size d) blob (decoded-size blob d e))
          (then-NoPanic (try_get_descriptor_length_from_blob bo n rest) (descriptor_size d) later)
    | inr (inl (x, e)) ↦ rw (e, NoPanic) tt
    | inr (inr e) ↦
        absurd (rw e at (decode-NoPanic (read_descriptor bo) blob read_descriptor-Total))
  ]

  take_device-IsOk :
      (portion : List ℕ) (s : PortionIter) (offset : ℕ) (hdr : ℕ × ℕ) (blob : List ℕ)
      → IsOk (take_device bo portion s offset hdr blob)
  unfolding take_device
  take_device-IsOk portion s offset (index, count) blob =
      let h = blob_length-NoPanic count blob in ground arith

  header_decoded-size :
      (bs : List ℕ) (hdr : ℕ × ℕ) → decode (devices_header bo) bs ≡ ok hdr → 3 ≤ length bs
  unfolding devices_header
  header_decoded-size bs hdr h =
      let (rest, e) = decode-ok (devices_header bo) bs hdr h in
      let (index, bs1, e1, f1) = bind-ok (int bo 2) _ bs hdr rest e in
      let (count, bs2, e2, f2) = bind-ok byte _ bs1 hdr rest f1 in
      ground (arith, int-length bo 2 bs index bs1 e1, byte-length bs1 count bs2 e2)

  device_at-IsOk :
      (portion : List ℕ) (s : PortionIter) (offset : ℕ) (rest : List ℕ)
      → IsOk (device_at bo portion s offset rest)
  unfolding device_at
  device_at-IsOk portion s offset rest = elim (Outcome-cases (decode (devices_header bo) rest)) [
    | inl (hdr, e) ↦
        rw (e, IsOk, device_at, suffix-drop 3 rest (header_decoded-size rest hdr e))
          (take_device-IsOk portion s offset hdr (drop 3 rest))
    | inr (inl (x, e)) ↦ rw (e, IsOk, device_at) tt
    | inr (inr e) ↦ absurd (rw e at (decode-NoPanic (devices_header bo) rest devices_header-Total))
  ]

  next_at-IsOk :
      (portion : List ℕ) (s : PortionIter) (offset : ℕ) → IsOk (next_at bo portion s offset)
  unfolding next_at
  next_at-IsOk portion s offset = elim (Bool-cases (leb (length portion) offset)) [
    | inl q ↦ rw q tt
    | inr q ↦
        rw (q, suffix-drop offset portion (ground arith))
          (device_at-IsOk portion s offset (drop offset portion))
  ]

  next_device-IsOk : (portion : List ℕ) (s : PortionIter) → IsOk (next_device bo portion s)
  unfolding next_device
  next_device-IsOk portion s = elim (Outcome-cases (decode (portion_header bo) portion)) [
    | inl (number, e) ↦ elim (Bool-cases (leb number s.current)) [
      | inl q ↦ rw (e, next_device, q) tt
      | inr q ↦ rw (e, next_device, q) (next_at-IsOk portion s _)
    ]
    | inr (inl (x, e)) ↦ rw (e, next_device) tt
    | inr (inr e) ↦
        absurd (rw e at (decode-NoPanic (portion_header bo) portion portion_header-Total))
  ]

  -- A device moves the iterator on by one, and only below the announced number.
  take_device-current :
      (portion : List ℕ) (s : PortionIter) (offset : ℕ) (hdr : ℕ × ℕ) (blob : List ℕ)
      (d : DownstreamDevice) (s' : PortionIter)
      → take_device bo portion s offset hdr blob ≡ ok (some d, s')
      → s'.current ≡ s.current + 1
  unfolding take_device
  take_device-current portion s offset hdr blob d s' h = ground arith

  next_device-current :
      (portion : List ℕ) (s : PortionIter) (d : DownstreamDevice) (s' : PortionIter)
      → next_device bo portion s ≡ ok (some d, s')
      → (s.current < announced bo portion) × (s'.current ≡ s.current + 1)
  unfolding next_device announced next_at device_at
  next_device-current portion s d s' h = grind (arith, take_device-current)

  next_device-ok :
      (portion : List ℕ) (s : PortionIter)
      → (o : Option DownstreamDevice) × (s' : PortionIter) × (next_device bo portion s ≡ ok (o, s'))
  next_device-ok portion s = elim (Outcome-cases (next_device bo portion s)) [
    | inl ((o, s'), e) ↦ (o, s', e)
    | inr (inl (x, e)) ↦ absurd (rw e at (next_device-IsOk portion s))
    | inr (inr e) ↦ absurd (rw e at (next_device-IsOk portion s))
  ]

  -- The walk of `try_at` returns when the fuel is more than the devices that are left.
  try_at_from-returns :
      (fuel : ℕ) (portion : List ℕ) (index i : ℕ) (s : PortionIter)
      → announced bo portion + 1 ≤ fuel + s.current
      → 0 < fuel
      → (r : Result PldmError DownstreamDevice) × (try_at_from bo fuel portion index i s
          ≡ some (ok r))
  unfolding try_at_from
  try_at_from-returns zero portion index i s h p = absurd (omega arith)
  try_at_from-returns (suc fuel) portion index i s h p =
      let (o, s', e) = next_device-ok portion s in
      elim (Option-cases o) [
        | inl q ↦ (Result.err PldmError.invalid_data, rw (e, q, try_at_from) refl)
        | inr (d, q) ↦ elim (Bool-cases (i == index)) [
          | inl b ↦ (Result.ok d, rw (e, q, try_at_from, b) refl)
          | inr b ↦
              let (below, moved) = next_device-current portion s d s' (rw q at e) in
              let (r, f) =
                try_at_from-returns fuel portion index (i + 1) s' (omega arith) (omega arith) in
              (r, rw (e, q, try_at_from, b) f)
        ]
      ]

  -- `try_at` returns a device or an error after at most as many steps as the portion's header
  -- announces devices and one, and does not panic, whatever the bytes of the portion and the
  -- position of the iterator.
  pub try_at-returns :
      (portion : List ℕ) (s : PortionIter) (index : ℕ)
      → (r : Result PldmError DownstreamDevice) × (try_at bo portion s index ≡ some (ok r))
  unfolding try_at
  try_at-returns portion s index =
      try_at_from-returns (suc (announced bo portion)) portion index 0 s (omega arith) (omega arith)
