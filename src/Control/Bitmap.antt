-- ===== src/Control/Bitmap.antt =====
-- `construct_bitmap` and `is_bit_set` of `pldm-common/src/message/control.rs`. An index past the end
-- of the bitmap panics.
use Prim.Native.Nat.{bit_and, bit_or}
use pldm_lib.Base.{
  ℕ, ◌*◌, ◌/◌, ◌%◌, ◌^◌, Bool, not, List, [], ◌∷◌, ok, panic, replicate, ◌==◌, take, ◌>>=◌,
}
use pldm_lib.Codec.{CodecResult}

-- `bitmap[byte_index] |= 1 << bit_index` on one byte
unfoldable pub set_bit : ℕ → ℕ → ℕ
set_bit bit b = bit_or b (2 ^ bit)

-- `bitmap[byte_index] & (1 << bit_index) != 0` on one byte
unfoldable pub has_bit : ℕ → ℕ → Bool
has_bit bit b = not (bit_and b (2 ^ bit) == 0)

unfoldable pub set_bit_at : ℕ → ℕ → List ℕ → CodecResult (List ℕ)
unfolding set_bit
set_bit_at i bit [] = panic
set_bit_at ℕ.zero bit (b ∷ bs) = ok (set_bit bit b ∷ bs)
set_bit_at (ℕ.suc i) bit (b ∷ bs) = set_bit_at i bit bs >>= λ rest. ok (b ∷ rest)

unfoldable pub has_bit_at : ℕ → ℕ → List ℕ → CodecResult Bool
unfolding has_bit
has_bit_at i bit [] = panic
has_bit_at ℕ.zero bit (b ∷ bs) = ok (has_bit bit b)
has_bit_at (ℕ.suc i) bit (b ∷ bs) = has_bit_at i bit bs

unfoldable pub set_items : List ℕ → List ℕ → CodecResult (List ℕ)
unfolding set_bit_at
set_items [] bitmap = ok bitmap
set_items (x ∷ xs) bitmap = set_bit_at (x / 8) (x % 8) bitmap >>= set_items xs

unfoldable pub construct_bitmap : ℕ → List ℕ → CodecResult (List ℕ)
unfolding set_items
construct_bitmap n items = set_items (take (n * 8) items) (replicate n 0)

unfoldable pub is_bit_set : List ℕ → ℕ → CodecResult Bool
unfolding has_bit_at
is_bit_set bitmap item = has_bit_at (item / 8) (item % 8) bitmap
