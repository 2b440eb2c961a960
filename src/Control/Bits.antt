-- ===== src/Control/Bits.antt =====
-- The bits of a bitmap that `construct_bitmap` makes are those of its items.
use pldm_lib.Base.{
  ℕ, zero, suc, ◌*◌, ◌/◌, ◌%◌, ◌<◌, ◌≡◌, refl, Bool, true, false, ◌&&◌, ◌||◌, List, [], ◌∷◌, ok,
  arith, length, replicate, take, All, IsByte, all_below, all_below-true, ◌==◌, ltb, ltb→lt,
}
use pldm_lib.Control.{contains}
use pldm_lib.Control.Bitmap.{
  set_bit, has_bit, set_bit_at, has_bit_at, set_items, construct_bitmap, is_bit_set,
}

-- Two tests with the same value.
abbrev same : Bool → Bool → Bool
same true b = b
same false true = false
same false false = true

same-≡ : (a b : Bool) → same a b ≡ true → a ≡ b
same-≡ true b h = ground arith
same-≡ false true h = ground arith
same-≡ false false h = refl

abbrev sets_bit : ℕ → ℕ → ℕ → Bool
sets_bit b i j = same (has_bit j (set_bit i b)) ((i == j) || has_bit j b)

bit_table :
    all_below 256 (λ b. all_below 8 λ i. ltb (set_bit i b) 256 && all_below 8 (sets_bit b i)) ≡ true
unfolding all_below set_bit has_bit
bit_table = refl

byte_row :
    (b i : ℕ) → IsByte b → i < 8 → (ltb (set_bit i b) 256 && all_below 8 (sets_bit b i)) ≡ true
byte_row b i hb hi =
    all_below-true 8 (λ k. ltb (set_bit k b) 256 && all_below 8 (sets_bit b k)) i
      (all_below-true 256
        (λ c. all_below 8 λ k. ltb (set_bit k c) 256 && all_below 8 (sets_bit c k)) b bit_table hb)
      hi

set_bit-IsByte : (b i : ℕ) → IsByte b → i < 8 → IsByte (set_bit i b)
set_bit-IsByte b i hb hi = ground (arith, byte_row b i hb hi, ltb→lt (set_bit i b) 256)

has_bit-set_bit :
    (b i j : ℕ) → IsByte b → i < 8 → j < 8 → has_bit j (set_bit i b) ≡ ((i == j) || has_bit j b)
has_bit-set_bit b i j hb hi hj =
    same-≡ _ _ (all_below-true 8 (sets_bit b i) j (ground (arith, byte_row b i hb hi)) hj)

-- The bit of a bitmap, `false` past its end.
abbrev bit_of : List ℕ → ℕ → ℕ → Bool
bit_of [] i j = false
bit_of (b ∷ bs) zero j = has_bit j b
bit_of (b ∷ bs) (suc i) j = bit_of bs i j

zero_table : all_below 8 (λ k. same (has_bit k 0) false) ≡ true
unfolding all_below has_bit
zero_table = refl

zero_bits : (j : ℕ) → j < 8 → has_bit j 0 ≡ false
zero_bits j h = same-≡ _ _ (all_below-true 8 (λ k. same (has_bit k 0) false) j zero_table h)

-- What `set_bit_at` returns: a bitmap with the bit set and every other bit as before.
record SetsBit (i bit : ℕ) (bs bs' : List ℕ) : Type 0 where
  same_length : length bs' ≡ length bs
  bytes : All IsByte bs'
  bits : (k j : ℕ) → j < 8 → bit_of bs' k j ≡ (((i == k) && (bit == j)) || bit_of bs k j)

first-bits :
    (b bit : ℕ) (bs : List ℕ) (k j : ℕ)
    → IsByte b
    → bit < 8
    → j < 8
    → bit_of (set_bit bit b ∷ bs) k j ≡ (((0 == k) && (bit == j)) || bit_of (b ∷ bs) k j)
first-bits b bit bs zero j h hb hj = has_bit-set_bit b bit j h hb hj
first-bits b bit bs (suc k) j h hb hj = ground arith

later-bits :
    (i bit b : ℕ) (bs bs' : List ℕ) (k j : ℕ)
    → ((m : ℕ) → bit_of bs' m j ≡ (((i == m) && (bit == j)) || bit_of bs m j))
    → bit_of (b ∷ bs') k j ≡ (((suc i == k) && (bit == j)) || bit_of (b ∷ bs) k j)
later-bits i bit b bs bs' zero j h = ground arith
later-bits i bit b bs bs' (suc k) j h = ground (arith, h k)

set_bit_at-SetsBit :
    (i bit : ℕ) (bs : List ℕ)
    → bit < 8
    → i < length bs
    → All IsByte bs
    → (bs' : List ℕ) × (set_bit_at i bit bs ≡ ok bs') × SetsBit i bit bs bs'
unfolding set_bit_at
set_bit_at-SetsBit i bit [] hb hi h = absurd (omega arith)
set_bit_at-SetsBit zero bit (b ∷ bs) hb hi h = (
  set_bit bit b ∷ bs,
  refl,
  record {
    same_length = refl;
    bytes = (set_bit-IsByte b bit h.0 hb, h.1);
    bits = λ k j. first-bits b bit bs k j h.0 hb;
  },
)
set_bit_at-SetsBit (suc i) bit (b ∷ bs) hb hi h =
    let (bs', e, s) = set_bit_at-SetsBit i bit bs hb (omega arith) h.1 in
    (
      b ∷ bs',
      rw e refl,
      record {
        same_length = omega (arith, s.same_length);
        bytes = (h.0, s.bytes);
        bits = λ k j hj. later-bits i bit b bs bs' k j λ m. s.bits m j hj;
      },
    )

-- Every item of a bitmap's range is set, and the bits that were set stay so.
record AreSet (items bs bs' : List ℕ) : Type 0 where
  same_length : length bs' ≡ length bs
  bits : (x : ℕ) → bit_of bs' (x / 8) (x % 8) ≡ (contains x items || bit_of bs (x / 8) (x % 8))

same_item : (x y : ℕ) → ((y / 8 == x / 8) && (y % 8 == x % 8)) ≡ (y == x)
same_item x y = ground arith

set_items-AreSet :
    (items bs : List ℕ)
    → All (λ y. y < length bs * 8) items
    → All IsByte bs
    → (bs' : List ℕ) × (set_items items bs ≡ ok bs') × AreSet items bs bs'
unfolding set_items contains
set_items-AreSet [] bs fits h = (bs, refl, record { same_length = refl; bits = λ x. refl })
set_items-AreSet (y ∷ ys) bs fits h =
    let (bs1, e1, s1) =
      set_bit_at-SetsBit (y / 8) (y % 8) bs (omega arith) (omega (arith, fits.0)) h in
    let (bs2, e2, s2) = set_items-AreSet ys bs1 (rw s1.same_length fits.1) s1.bytes in
    (
      bs2,
      rw e1 e2,
      record {
        same_length = omega (arith, s1.same_length, s2.same_length);
        bits = λ x. ground (arith, s2.bits x, s1.bits (x / 8) (x % 8) (omega arith), same_item x y);
      },
    )

has_bit_at-bit_of :
    (i bit : ℕ) (bs : List ℕ) → i < length bs → has_bit_at i bit bs ≡ ok (bit_of bs i bit)
unfolding has_bit_at
has_bit_at-bit_of i bit [] h = absurd (omega arith)
has_bit_at-bit_of zero bit (b ∷ bs) h = refl
has_bit_at-bit_of (suc i) bit (b ∷ bs) h = has_bit_at-bit_of i bit bs (omega arith)

zero-bit_of : (n i j : ℕ) → j < 8 → bit_of (replicate n 0) i j ≡ false
zero-bit_of zero i j h = refl
zero-bit_of (suc n) zero j h = zero_bits j h
zero-bit_of (suc n) (suc i) j h = zero-bit_of n i j h

zeros-bytes : (n : ℕ) → All IsByte (replicate n 0)
zeros-bytes zero = tt
zeros-bytes (suc n) = (omega arith, zeros-bytes n)

abbrev zeros : ℕ → List ℕ
zeros n = replicate n 0

length-zeros : (n : ℕ) → length (zeros n) ≡ n
length-zeros zero = refl
length-zeros (suc n) = omega (arith, length-zeros n)

-- A bitmap of `n` bytes is made of items below `n * 8`, without a panic, and a bit below `n *
-- 8` reads as set in it if and only if it is one of the first `n * 8` items.
pub is_bit_set-construct_bitmap :
    (n : ℕ) (items : List ℕ)
    → All (λ y. y < n * 8) (take (n * 8) items)
    → (bitmap : List ℕ) × (construct_bitmap n items ≡ ok bitmap)
      × (length bitmap ≡ n)
      × ((x : ℕ) → x < n * 8 → is_bit_set bitmap x ≡ ok (contains x (take (n * 8) items)))
unfolding construct_bitmap is_bit_set
is_bit_set-construct_bitmap n items fits =
    let (bitmap, e, s) =
      set_items-AreSet (take (n * 8) items) (zeros n) (rw (length-zeros n) fits) (zeros-bytes n) in
    let same = s.same_length in
    (
      bitmap,
      e,
      omega (arith, same, length-zeros n),
      λ x h. ground (
        arith,
        s.bits x,
        zero-bit_of n (x / 8) (x % 8) (omega arith),
        has_bit_at-bit_of (x / 8) (x % 8) bitmap (omega (arith, same, length-zeros n)),
      ),
    )
