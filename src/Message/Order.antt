-- ===== src/Message/Order.antt =====
-- The order and the equality of firmware strings, as facts about their bytes.
use Prim.Native.Nat.{Ordering}
use pldm_lib.Base.{
  ℕ, ◌<◌, ◌≤◌, ◌≡◌, ◌≢◌, ◌⊎◌, ◌↔◌, true, false, List, [], ◌∷◌, ok, length, take, arith,
}
use pldm_lib.Message.Str.{
  PldmFirmwareString, bytes_eq, bytes_cmp, string_eq, valid_bytes, string_partial_cmp, string_lt,
}

-- The lexicographic order of bytes: a proper prefix is below.
abbrev pub IsBelow : List ℕ → List ℕ → Type 0
IsBelow _ [] = ⊥
IsBelow [] (b ∷ s) = Unit
IsBelow (a ∷ r) (b ∷ s) = (a < b) ⊎ ((a ≡ b) × IsBelow r s)

-- The characters of a string that count.
abbrev pub text : PldmFirmwareString → List ℕ
text s = take s.str_len s.str_data

-- The strings have different types, or lengths that their arrays have room for and the text of the
-- first is not below that of the second.
abbrev pub IsNotBelow : PldmFirmwareString → PldmFirmwareString → Type 0
IsNotBelow a b =
    (a.str_type ≢ b.str_type)
    ⊎ ((a.str_type ≡ b.str_type)
        × (a.str_len ≤ length a.str_data)
        × (b.str_len ≤ length b.str_data)
        × ¬ IsBelow (text a) (text b))

bytes_cmp-IsBelow : (a b : List ℕ) → (bytes_cmp a b ≡ Ordering.lt) ↔ IsBelow a b
unfolding bytes_cmp
bytes_cmp-IsBelow [] [] = ground arith
bytes_cmp-IsBelow [] (b ∷ s) = ground arith
bytes_cmp-IsBelow (a ∷ r) [] = ground arith
bytes_cmp-IsBelow (a ∷ r) (b ∷ s) = let rest = bytes_cmp-IsBelow r s in ground arith

bytes_eq_iff : (a b : List ℕ) → (bytes_eq a b ≡ true) ↔ (a ≡ b)
unfolding bytes_eq
bytes_eq_iff [] [] = ground arith
bytes_eq_iff [] (b ∷ s) = ground arith
bytes_eq_iff (a ∷ r) [] = ground arith
bytes_eq_iff (a ∷ r) (b ∷ s) = let rest = bytes_eq_iff r s in ground arith

pub string_eq_iff : (a b : PldmFirmwareString) → (string_eq a b ≡ true) ↔ (a ≡ b)
unfolding string_eq
string_eq_iff a b = let bytes = bytes_eq_iff a.str_data b.str_data in ground arith

pub string_lt-IsNotBelow : (a b : PldmFirmwareString) → (string_lt a b ≡ ok false) ↔ IsNotBelow a b
unfolding string_lt string_partial_cmp valid_bytes
string_lt-IsNotBelow a b = let h = bytes_cmp-IsBelow (text a) (text b) in ground arith
