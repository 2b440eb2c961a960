-- ===== src/Codec/Defs.antt =====
-- Reading from the front of a buffer, and the two ways of writing: `write_to_prefix`, and a cursor
-- for the encoders that write field by field at a growing offset.
use pldm_lib.Base.{
  ℕ, List, [], ◌∷◌, ◌++◌, Outcome, ok, err, panic, length, take, drop, leb, if◌then◌else◌,
}
use pldm_lib.Protocol.Error.{PldmCodecError, buffer_too_short}
use pldm_lib.Protocol.Header.{PldmMsgHeader}
use pldm_lib.Codec.Order.{ByteOrder}

abbrev pub CodecResult : Type 0 → Type 0
CodecResult A = Outcome PldmCodecError A

-- What is left of the buffer comes back beside the value.
abbrev pub Reader : Type 0 → Type 0
Reader A = List ℕ → CodecResult (A × List ℕ)

infixl 5 ◌>>=◌ ◌>>◌
abbrev pub ◌>>=◌ : {A B : Type 0} → Reader A → (A → Reader B) → Reader B
◌>>=◌ m f bs = elim (m bs) [ ok (a, rest) ↦ f a rest | err e ↦ err e | panic ↦ panic ]

abbrev pub ◌>>◌ : {A B : Type 0} → Reader A → Reader B → Reader B
m >> k = m >>= λ _. k

abbrev pub pure : {A : Type 0} → A → Reader A
pure a bs = ok (a, bs)

abbrev pub fail : {A : Type 0} → PldmCodecError → Reader A
fail e bs = err e

-- `buffer.get(offset..offset + n).ok_or(BufferTooShort)?`
unfoldable pub slice : ℕ → Reader (List ℕ)
slice n bs = if leb n (length bs) then ok (take n bs, drop n bs) else err buffer_too_short

unfoldable pub byte : Reader ℕ
byte [] = err buffer_too_short
byte (b ∷ bs) = ok (b, bs)

unfoldable pub header : Reader PldmMsgHeader
header (a ∷ b ∷ c ∷ bs) = ok (record { byte_0 = a; byte_1 = b; byte_2 = c }, bs)
header _ = err buffer_too_short

unfoldable pub int : ByteOrder → ℕ → Reader ℕ
unfolding slice
int bo w = do bs ← slice w; pure (bo.read_int bs)

-- `T::decode(buffer)`: what stands behind the message is not read.
unfoldable pub decode : {A : Type 0} → Reader A → List ℕ → CodecResult A
decode r bs = elim (r bs) [ ok (a, _) ↦ ok a | err e ↦ err e | panic ↦ panic ]

-- The number of bytes written, and the buffer after the write.
abbrev pub Written : Type 0
Written = ℕ × List ℕ

unfoldable pub write_to_prefix : List ℕ → List ℕ → CodecResult Written
write_to_prefix bs buffer =
    if leb (length bs) (length buffer)
    then ok (length bs, bs ++ drop (length bs) buffer)
    else err buffer_too_short

-- An encoder that has written `done` and has `room` left. A slice past the end panics.
pub record Cursor : Type 0 where
  pub done : List ℕ
  pub room : List ℕ

unfoldable pub put : List ℕ → Cursor → CodecResult Cursor
put bs c =
    if leb (length bs) (length c.room)
    then ok (record { done = c.done ++ bs; room = drop (length bs) c.room })
    else panic

unfoldable pub finish : Cursor → Written
finish c = (length c.done, c.done ++ c.room)

-- `&data[..n]`
unfoldable pub prefix : ℕ → List ℕ → CodecResult (List ℕ)
prefix n bs = if leb n (length bs) then ok (take n bs) else panic
