-- ===== src/Protocol/Version.antt =====
-- The packed versions of `pldm-common/src/protocol/version.rs`. A version field is a byte; the bytes
-- of a `Ver32` do not overlap, so that the `|` of shifted bytes is their sum.
use Prim.Native.Nat.{bit_or}
use pldm_lib.Base.{
  ℕ, ◌+◌, ◌*◌, ◌/◌, ◌%◌, ◌^◌, ◌<◌, ◌≡◌, ◌⊎◌, true, ◌&&◌, ltb, ◌==◌, if◌then◌else◌, arith, refl,
  all_below, all_below-true, inl, inr,
}

pub record PldmVersion : Type 0 where
  pub alpha : ℕ
  pub update : ℕ
  pub minor : ℕ
  pub major : ℕ

-- A field below 10 has 0xF in its high digit. The shift of a byte drops its high bits.
unfoldable pub bcd_field : ℕ → ℕ
bcd_field n = if ltb n 10 then bit_or 0xf0 n else bit_or (n / 10 * 2 ^ 4 % 2 ^ 8) (n % 10)

unfoldable pub bcd_update : ℕ → ℕ
unfolding bcd_field
bcd_update n = if n == 0xff then 0xff else bcd_field n

unfoldable pub bcd_encode_to_ver32 : PldmVersion → ℕ
unfolding bcd_field bcd_update
bcd_encode_to_ver32 v =
    bcd_field v.major * 2 ^ 24 + bcd_field v.minor * 2 ^ 16 + bcd_update v.update * 2 ^ 8 + v.alpha

unfoldable pub from_bcd : ℕ → ℕ
from_bcd b = if b / 2 ^ 4 == 0xf then b % 2 ^ 4 else b / 2 ^ 4 * 10 + b % 2 ^ 4

unfoldable pub from_bcd_update : ℕ → ℕ
unfolding from_bcd
from_bcd_update b = if b == 0xff then b else from_bcd b

unfoldable pub bcd_decode_from_ver32 : ℕ → PldmVersion
unfolding from_bcd from_bcd_update
bcd_decode_from_ver32 v = record {
  major = from_bcd (v / 2 ^ 24 % 2 ^ 8);
  minor = from_bcd (v / 2 ^ 16 % 2 ^ 8);
  update = from_bcd_update (v / 2 ^ 8 % 2 ^ 8);
  alpha = v % 2 ^ 8;
}

bcd_table : all_below 150 (λ n. from_bcd (bcd_field n) == n && ltb (bcd_field n) 255) ≡ true
unfolding all_below from_bcd bcd_field
bcd_table = refl

from_bcd-bcd_field : (n : ℕ) → n < 150 → (from_bcd (bcd_field n) ≡ n) × (bcd_field n < 255)
from_bcd-bcd_field n h =
    let row =
      all_below-true 150 (λ n. from_bcd (bcd_field n) == n && ltb (bcd_field n) 255) n bcd_table
        h in
    (ground arith, ground arith)

-- A field that is packed in a byte: below 150, or absent for the update.
abbrev pub IsUpdate : ℕ → Type 0
IsUpdate n = (n < 150) ⊎ (n ≡ 0xff)

from_bcd-bcd_update :
    (n : ℕ) → IsUpdate n → (from_bcd_update (bcd_update n) ≡ n) × (bcd_update n < 256)
unfolding from_bcd_update bcd_update
from_bcd-bcd_update n (inl h) = let (e, l) = from_bcd-bcd_field n h in (ground arith, ground arith)
from_bcd-bcd_update n (inr e) = (ground arith, ground arith)

abbrev packed : ℕ → ℕ → ℕ → ℕ → ℕ
packed a b c d = a * 2 ^ 24 + b * 2 ^ 16 + c * 2 ^ 8 + d

-- The bytes that a sum of shifted bytes has.
record Unpacks (a b c d : ℕ) : Type 0 where
  major : packed a b c d / 2 ^ 24 % 2 ^ 8 ≡ a
  minor : packed a b c d / 2 ^ 16 % 2 ^ 8 ≡ b
  update : packed a b c d / 2 ^ 8 % 2 ^ 8 ≡ c
  alpha : packed a b c d % 2 ^ 8 ≡ d

unpack : (a b c d : ℕ) → a < 256 → b < 256 → c < 256 → d < 256 → Unpacks a b c d
unpack a b c d ha hb hc hd = record {
  major = omega arith;
  minor = omega arith;
  update = omega arith;
  alpha = omega arith;
}

-- A version whose alpha is a byte, whose major and minor are below 150 and whose update is
-- below 150 or 0xFF, the mark of an absent field, is unpacked from its Ver32 as it was.
pub bcd_decode-bcd_encode :
    (v : PldmVersion)
    → v.alpha < 256
    → v.major < 150
    → v.minor < 150
    → IsUpdate v.update
    → bcd_decode_from_ver32 (bcd_encode_to_ver32 v) ≡ v
unfolding bcd_decode_from_ver32 bcd_encode_to_ver32
bcd_decode-bcd_encode v a ma mi u =
    let (e1, l1) = from_bcd-bcd_field v.major ma in
    let (e2, l2) = from_bcd-bcd_field v.minor mi in
    let (e3, l3) = from_bcd-bcd_update v.update u in
    let p =
      unpack (bcd_field v.major) (bcd_field v.minor) (bcd_update v.update) v.alpha
        (omega (arith, l1)) (omega (arith, l2)) l3 a in
    rw (bcd_decode_from_ver32, bcd_encode_to_ver32, p.major, p.minor, p.update, p.alpha, e1, e2, e3)
      refl
