-- ===== src/Transfer/Round.antt =====
-- Round trips of the responses that end in a portion.
use pldm_lib.Base.{
  ℕ, ◌+◌, ◌^◌, ◌≤◌, ◌<◌, ◌≡◌, refl, ap, ◌∙◌, List, [], ◌∷◌, ◌++◌, ok, err, ltb, false, panic,
  length, take, drop, take-append_length, All, IsByte, arith,
}
use pldm_lib.Protocol.Header.{PldmMsgHeader, header_bytes}
use pldm_lib.Codec.{Reader, ◌>>=◌, pure, Written, header, byte, int, decode}
use pldm_lib.Codec.Laws.{write_to_prefix_ok}
use pldm_lib.Codec.Order.{little_endian, little_endian-IsByteOrder, to_le, from_le}
use pldm_lib.Codec.Round.{int-Reads, slice-Reads}
use pldm_lib.Transfer.Portion.{
  PortionResponse, all_left, portion_offset, portion_reader, decode_portion, encode_portion,
  portion_bytes, length-portion_bytes, encode_portion-write,
}

pub then_int :
    {B : Type 0} (f : ℕ → Reader B) (v : ℕ) (rest : List ℕ)
    → v < 256 ^ 4
    → (int little_endian 4 >>= f) (to_le 4 v ++ rest) ≡ f v rest
then_int f v rest h =
    rw (◌>>=◌, (int-Reads little_endian little_endian-IsByteOrder 4 v h).at rest) refl

then_bytes :
    {B : Type 0} (f : ℕ → Reader B) (a b c d : ℕ) (rest : List ℕ)
    → (int little_endian 4 >>= f) (a ∷ b ∷ c ∷ d ∷ rest) ≡ f (from_le (a ∷ b ∷ c ∷ d ∷ [])) rest
unfolding int
then_bytes f a b c d rest = rw (◌>>=◌, (slice-Reads (a ∷ b ∷ c ∷ d ∷ [])).at rest) refl

-- What follows the handle.
abbrev behind_handle : PldmMsgHeader → ℕ → ℕ → Reader PortionResponse
behind_handle hdr code handle = do
  flag ← byte
  portion ← all_left
  pure (record {
    hdr = hdr;
    completion_code = code;
    next_data_transfer_handle = handle;
    transfer_flag = flag;
    portion = portion;
  })

decode_portion-bytes :
    (r : PortionResponse)
    → r.next_data_transfer_handle < 256 ^ 4
    → decode portion_reader (portion_bytes r) ≡ ok r
unfolding portion_reader decode header byte header_bytes
decode_portion-bytes r h =
    ap (λ m. elim m [ ok (a, _) ↦ ok a | err e ↦ err e | panic ↦ panic ])
      (then_int (behind_handle r.hdr r.completion_code) r.next_data_transfer_handle
        (r.transfer_flag ∷ r.portion) h)

long : (bs : List ℕ) → portion_offset ≤ length bs → ltb (length bs) portion_offset ≡ false
long bs h = ground arith

-- A response with a handle of 32 bits is written to every buffer that has room for it, and
-- decodes to itself from the bytes that were written.
pub decode_portion-encode_portion :
    (r : PortionResponse) (buffer : List ℕ)
    → r.next_data_transfer_handle < 256 ^ 4
    → portion_offset + length r.portion ≤ length buffer
    → (out : Written) × (encode_portion r buffer ≡ ok out)
      × (out.0 ≡ portion_offset + length r.portion)
      × (decode_portion (take out.0 out.1) ≡ ok r)
unfolding decode_portion
decode_portion-encode_portion r buffer h room =
    let bs = portion_bytes r in
    let size = length-portion_bytes r in
    let rest = drop (length bs) buffer in
    (
      (length bs, bs ++ rest),
      encode_portion-write r buffer ∙ write_to_prefix_ok bs buffer (omega (arith, size)),
      size,
      rw (take-append_length bs rest, long bs (omega (arith, size))) (decode_portion-bytes r h),
    )

to_le-from_le :
    (a b c d : ℕ)
    → IsByte a
    → IsByte b
    → IsByte c
    → IsByte d
    → to_le 4 (from_le (a ∷ b ∷ c ∷ d ∷ [])) ≡ a ∷ b ∷ c ∷ d ∷ []
unfolding to_le from_le
to_le-from_le a b c d ha hb hc hd = ground arith

-- At least nine bytes decode to a response with a portion, and this response is encoded to the
-- same bytes in every buffer that has room for them; the rest of the buffer is kept.
pub encode_portion-decode_portion :
    (bs buffer : List ℕ)
    → All IsByte bs
    → portion_offset ≤ length bs
    → length bs ≤ length buffer
    → (r : PortionResponse) × (decode_portion bs ≡ ok r)
      × (encode_portion r buffer ≡ ok (length bs, bs ++ drop (length bs) buffer))
unfolding decode_portion portion_reader decode header byte header_bytes
encode_portion-decode_portion (h0 ∷ h1 ∷ h2 ∷ code ∷ a ∷ b ∷ c ∷ d ∷ flag ∷ portion) buffer
      (_, (_, (_, (_, (ha, (hb, (hc, (hd, _)))))))) room fits =
    let r : PortionResponse = record {
      hdr = record { byte_0 = h0; byte_1 = h1; byte_2 = h2 };
      completion_code = code;
      next_data_transfer_handle = from_le (a ∷ b ∷ c ∷ d ∷ []);
      transfer_flag = flag;
      portion = portion;
    } in
    let bs = h0 ∷ h1 ∷ h2 ∷ code ∷ a ∷ b ∷ c ∷ d ∷ flag ∷ portion in
    (
      r,
      rw (long bs room) (
          ap (λ m. elim m [ ok (a, _) ↦ ok a | err e ↦ err e | panic ↦ panic ])
            (then_bytes (behind_handle r.hdr code) a b c d (flag ∷ portion))),
      encode_portion-write r buffer
          ∙ rw (to_le-from_le a b c d ha hb hc hd) (write_to_prefix_ok bs buffer fits),
    )
encode_portion-decode_portion (_ ∷ _ ∷ _ ∷ _ ∷ _ ∷ _ ∷ _ ∷ _ ∷ []) buffer f room fits =
    absurd (omega arith)
encode_portion-decode_portion (_ ∷ _ ∷ _ ∷ _ ∷ _ ∷ _ ∷ _ ∷ []) buffer f room fits =
    absurd (omega arith)
encode_portion-decode_portion (_ ∷ _ ∷ _ ∷ _ ∷ _ ∷ _ ∷ []) buffer f room fits = absurd (omega arith)
encode_portion-decode_portion (_ ∷ _ ∷ _ ∷ _ ∷ _ ∷ []) buffer f room fits = absurd (omega arith)
encode_portion-decode_portion (_ ∷ _ ∷ _ ∷ _ ∷ []) buffer f room fits = absurd (omega arith)
encode_portion-decode_portion (_ ∷ _ ∷ _ ∷ []) buffer f room fits = absurd (omega arith)
encode_portion-decode_portion (_ ∷ _ ∷ []) buffer f room fits = absurd (omega arith)
encode_portion-decode_portion (_ ∷ []) buffer f room fits = absurd (omega arith)
encode_portion-decode_portion [] buffer f room fits = absurd (omega arith)
