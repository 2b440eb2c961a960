-- ===== src/Fd/Invariant/Encoders.antt =====
-- Panics in the decoders of requests and in the encoders of responses that the handlers of
-- `fd_context.rs` use.
use pldm_lib.Base.{
  none, Option, some, ℕ, ◌≡◌, List, ok, err, panic, arith, Outcome-cases, inl, inr, length,
  length-append, length-drop, ◌≤◌, ◌+◌, ltb, Bool-cases, [], ◌∷◌,
}
use pldm_lib.Codec.{
  put, Cursor, pure, CodecResult, Reader, ◌>>=◌, byte, int, header, decode, write_to_prefix,
}
use pldm_lib.Protocol.Header.{header_bytes}
use pldm_lib.Codec.Order.{ByteOrder, IsByteOrder}
use pldm_lib.Message.Short.{header_request, activate_firmware_request, component_key_request}
use pldm_lib.Message.Update.{
  version_bytes, request_update_request, pass_component_request, update_component_request,
}
use pldm_lib.Base.{◌>>=◌ as bind}
use pldm_lib.Message.Device.{
  done_writing, put_optional, optional_size, RequestUpdateResponse, encode_request_update_response,
  UpdateComponentResponse, encode_update_component_response,
}

abbrev pub NoPanic : {A : Type 0} → CodecResult A → Type 0
NoPanic panic = ⊥
NoPanic _ = Unit

-- A reader that never panics.
pub record Total {A : Type 0} (r : Reader A) : Type 0 where
  pub at : (bs : List ℕ) → NoPanic (r bs)

pub Total-bind :
    {A B : Type 0} (r : Reader A) (f : A → Reader B)
    → Total r
    → ((a : A) → Total (f a))
    → Total (r >>= f)
Total-bind r f h k = record {
  at = λ bs. elim (Outcome-cases (r bs)) [
    | inl ((a, rest), e) ↦ rw (e, ◌>>=◌, NoPanic) ((k a).at rest)
    | inr (inl (x, e)) ↦ rw (e, ◌>>=◌, NoPanic) tt
    | inr (inr e) ↦ absurd (rw e at (h.at bs))
  ];
}

pub decode-NoPanic : {A : Type 0} (r : Reader A) (bs : List ℕ) → Total r → NoPanic (decode r bs)
unfolding decode
decode-NoPanic r bs h = let p = h.at bs in ground arith

pub header-Total : Total header
unfolding header
header-Total = record { at = λ bs. ground arith }

pub byte-Total : Total byte
unfolding byte
byte-Total = record { at = λ bs. ground arith }

pub int-Total : (bo : ByteOrder) (w : ℕ) → Total (int bo w)
unfolding int
int-Total bo w = record { at = λ bs. ground arith }

pub version_bytes-Total : (n : ℕ) → Total (version_bytes n)
unfolding version_bytes
version_bytes-Total n = record { at = λ bs. ground arith }

pub pure-Total : {A : Type 0} (a : A) → Total (pure a)
pure-Total a = record { at = λ bs. tt }

pub ruleset total_rules =
    (Total-bind, header-Total, byte-Total, int-Total, version_bytes-Total, pure-Total)

pub header_request-Total : Total header_request
unfolding header_request
header_request-Total = header-Total

pub activate_firmware_request-Total : Total activate_firmware_request
unfolding activate_firmware_request
activate_firmware_request-Total = search total_rules

pub component_key_request-Total : (bo : ByteOrder) → Total (component_key_request bo)
unfolding component_key_request
component_key_request-Total bo = search total_rules depth 12

pub request_update_request-Total : (bo : ByteOrder) → Total (request_update_request bo)
unfolding request_update_request
request_update_request-Total bo = search total_rules depth 20

pub pass_component_request-Total : (bo : ByteOrder) → Total (pass_component_request bo)
unfolding pass_component_request
pass_component_request-Total bo = search total_rules depth 24

pub update_component_request-Total : (bo : ByteOrder) → Total (update_component_request bo)
unfolding update_component_request
update_component_request-Total bo = search total_rules depth 24

pub write_to_prefix-NoPanic : (bs buffer : List ℕ) → NoPanic (write_to_prefix bs buffer)
unfolding write_to_prefix
write_to_prefix-NoPanic bs buffer = ground arith

-- The cursor has room for `n` bytes more.
abbrev pub HasRoom : ℕ → CodecResult Cursor → Type 0
HasRoom n (ok c) = n ≤ length c.room
HasRoom n (err e) = Unit
HasRoom n panic = ⊥

pub put-HasRoom :
    (n : ℕ) (bs : List ℕ) (c : Cursor) → length bs + n ≤ length c.room → HasRoom n (put bs c)
unfolding put
put-HasRoom n bs c h = ground (arith, length-drop (length bs) c.room)

pub next-HasRoom :
    (n k : ℕ) (bs : List ℕ) (m : CodecResult Cursor)
    → length bs + n ≤ k
    → HasRoom k m
    → HasRoom n (bind m (put bs))
next-HasRoom n k bs (ok c) le h = put-HasRoom n bs c (omega arith)
next-HasRoom n k bs (err e) le h = tt
next-HasRoom n k bs panic le h = h

optional-HasRoom :
    (bo : ByteOrder) (o : Option ℕ) (m : CodecResult Cursor)
    → IsByteOrder bo
    → HasRoom (optional_size o) m
    → HasRoom 0 (bind m (put_optional bo o))
optional-HasRoom bo none (ok c) law h = omega arith
optional-HasRoom bo (some n) (ok c) law h =
    put-HasRoom 0 (bo.write_int 4 n) c (omega (arith, law.length-write 4 n))
optional-HasRoom bo o (err e) law h = tt
optional-HasRoom bo o panic law h = h

pub done-NoPanic : (m : CodecResult Cursor) → HasRoom 0 m → NoPanic (done_writing m)
done-NoPanic (ok c) h = tt
done-NoPanic (err e) h = tt
done-NoPanic panic h = h

module _ (bo : ByteOrder) (law : IsByteOrder bo) where
  pub encode_request_update-NoPanic :
      (r : RequestUpdateResponse) (buffer : List ℕ)
      → r.get_pkg_data_max_transfer_size ≡ none
      → NoPanic (encode_request_update_response bo r buffer)
  unfolding encode_request_update_response header_bytes put
  encode_request_update-NoPanic r buffer h = ground (
    arith,
    law.length-write 2 r.fd_meta_data_len,
    length-append (bo.write_int 2 r.fd_meta_data_len) (r.fd_will_send_pkg_data_cmd ∷ []),
  )

  pub encode_update_component-NoPanic :
      (r : UpdateComponentResponse) (buffer : List ℕ)
      → NoPanic (encode_update_component_response bo r buffer)
  unfolding encode_update_component_response header_bytes
  encode_update_component-NoPanic r buffer =
      let o = optional_size r.get_comp_opaque_data_max_transfer_size in
      elim (Bool-cases (ltb (length buffer) (12 + o))) [
        | inl b ↦ rw b tt
        | inr b ↦ rw b (
            done-NoPanic _ (
              optional-HasRoom bo r.get_comp_opaque_data_max_transfer_size _ law (
                next-HasRoom o (2 + o) _ _
                  (omega (arith, law.length-write 2 r.time_before_req_fw_data))
                  (next-HasRoom (2 + o) (6 + o) _ _
                    (omega (arith, law.length-write 4 r.update_option_flags_enabled))
                    (next-HasRoom (6 + o) (7 + o) _ _ (omega arith) (
                      next-HasRoom (7 + o) (8 + o) _ _ (omega arith) (
                        next-HasRoom (8 + o) (9 + o) _ _ (omega arith)
                          (put-HasRoom (9 + o) _ _ (ground arith)))))))))
      ]
