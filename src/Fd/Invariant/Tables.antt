-- ===== src/Fd/Invariant/Tables.antt =====
-- Room in the buffer for the descriptors of `QueryDeviceIdentifiersResponse` and for the entries of
-- `GetFirmwareParametersResponse`, whose length fields count prefixes of their arrays.
use pldm_lib.Base.{
  ℕ, ◌+◌, ◌-◌, ◌≤◌, List, [], ◌∷◌, ok, err, panic, arith, inl, inr, ltb, leb, take, length,
  length-take, Bool-cases, All, ◌>>=◌,
}
use pldm_lib.Codec.{Cursor, CodecResult, prefix}
use pldm_lib.Codec.Order.{ByteOrder, IsByteOrder}
use pldm_lib.Message.Device.{
  Descriptor, descriptor_size, descriptors_size, put_prefix, encode_descriptor, encode_descriptors,
  start, additional, QueryDeviceIdentifiersResponse, encode_devid_response,
}
use pldm_lib.Protocol.Header.{header_bytes}
use pldm_lib.Fd.Invariant.Encoders.{HasRoom, put-HasRoom, next-HasRoom, NoPanic, done-NoPanic}

-- The length field counts bytes of the descriptor's array.
abbrev pub IsDescriptor : Descriptor → Type 0
IsDescriptor d = d.descriptor_length ≤ length d.descriptor_data

pub All-take : {A : Type 0} (P : A → Type 0) (n : ℕ) (xs : List A) → All P xs → All P (take n xs)
All-take P ℕ.zero xs h = tt
All-take P (ℕ.suc n) [] h = tt
All-take P (ℕ.suc n) (x ∷ xs) h = (h.0, All-take P n xs h.1)

pub step-HasRoom :
    (n k : ℕ) (m : CodecResult Cursor) (f : Cursor → CodecResult Cursor)
    → HasRoom k m
    → ((c : Cursor) → k ≤ length c.room → HasRoom n (f c))
    → HasRoom n (m >>= f)
step-HasRoom n k (ok c) f h k' = k' c h
step-HasRoom n k (err e) f h k' = tt
step-HasRoom n k panic f h k' = h

pub put_prefix-HasRoom :
    (n len : ℕ) (bs : List ℕ) (c : Cursor)
    → len ≤ length bs
    → len + n ≤ length c.room
    → HasRoom n (put_prefix len bs c)
unfolding put_prefix prefix
put_prefix-HasRoom n len bs c fits room = elim (Bool-cases (leb len (length bs))) [
  | inl e ↦ rw e (put-HasRoom n (take len bs) c (omega (arith, length-take len bs)))
  | inr e ↦ ground arith
]

module _ (bo : ByteOrder) (law : IsByteOrder bo) where
  open bo use {write_int}

  pub encode_descriptor-HasRoom :
      (n : ℕ) (d : Descriptor) (c : Cursor)
      → IsDescriptor d
      → descriptor_size d + n ≤ length c.room
      → HasRoom n (encode_descriptor bo d c)
  unfolding encode_descriptor descriptor_size
  encode_descriptor-HasRoom n d c fits room =
      let len = d.descriptor_length in
      elim (Bool-cases (ltb (length c.room) (4 + len))) [
        | inl e ↦ rw e tt
        | inr e ↦ rw e (
            step-HasRoom n (len + n) _ (put_prefix len d.descriptor_data)
              (next-HasRoom (len + n) (2 + len + n) _ _ (omega (arith, law.length-write 2 len)) (
                put-HasRoom (2 + len + n) _ c
                  (omega (arith, law.length-write 2 d.descriptor_type))))
              λ c'. put_prefix-HasRoom n len d.descriptor_data c' fits)
      ]

  pub encode_descriptors-HasRoom :
      (n : ℕ) (ds : List Descriptor) (c : Cursor)
      → All IsDescriptor ds
      → descriptors_size ds + n ≤ length c.room
      → HasRoom n (encode_descriptors bo ds c)
  unfolding encode_descriptors descriptors_size
  encode_descriptors-HasRoom n [] c fits room = omega arith
  encode_descriptors-HasRoom n (d ∷ ds) c fits room =
      step-HasRoom n (descriptors_size ds + n) _ (encode_descriptors bo ds)
        (encode_descriptor-HasRoom (descriptors_size ds + n) d c fits.0 (omega arith))
        λ c'. encode_descriptors-HasRoom n ds c' fits.1

  pub encode_devid-NoPanic :
      (r : QueryDeviceIdentifiersResponse) (buffer : List ℕ)
      → IsDescriptor r.initial_descriptor
      → All IsDescriptor (additional r.additional_descriptors)
      → NoPanic (encode_devid_response bo r buffer)
  unfolding encode_devid_response header_bytes
  encode_devid-NoPanic r buffer first others =
      let more = take (r.descriptor_count - 1) (additional r.additional_descriptors) in
      let n = descriptors_size more in
      let k = descriptor_size r.initial_descriptor + n in
      elim (Bool-cases (ltb (length buffer) (9 + descriptor_size r.initial_descriptor + n))) [
        | inl e ↦ rw e tt
        | inr e ↦ rw e (
            done-NoPanic _ (
              step-HasRoom 0 n _ (encode_descriptors bo more)
                (step-HasRoom n k _ (encode_descriptor bo r.initial_descriptor)
                  (next-HasRoom k (1 + k) (r.descriptor_count ∷ []) _ (omega arith) (
                    next-HasRoom (1 + k) (5 + k) (write_int 4 r.device_identifiers_len) _
                      (omega (arith, law.length-write 4 r.device_identifiers_len))
                      (next-HasRoom (5 + k) (6 + k) (r.completion_code ∷ []) _ (omega arith)
                        (put-HasRoom (6 + k) (header_bytes r.hdr) (start buffer) (ground arith)))))
                  λ c. encode_descriptor-HasRoom n r.initial_descriptor c first)
                λ c h.
                  encode_descriptors-HasRoom 0 more c
                    (All-take IsDescriptor (r.descriptor_count - 1) _ others) (omega arith)))
      ]
