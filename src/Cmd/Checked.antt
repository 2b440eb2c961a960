-- ===== src/Cmd/Checked.antt =====
-- Which requests pass the checks that `preprocess_request` of `cmd_interface.rs` makes, as a fact about
-- their bytes and the capability table.
use pldm_lib.Base.{
  ℕ, Bool, ◌/◌, ◌%◌, ◌≡◌, ◌↔◌, refl, sym, ap, ◌∙◌, subst, true, ◌==◌, List, [], ◌∷◌, ◌++◌, some,
  Option-cases, Bool-cases, inl, inr, Result, ok, arith,
}
use pldm_lib.Base.First.{IsFirst, Occurs, find, find-IsFirst}
use pldm_lib.Protocol.Base.{PldmSupportedType, supported_type_code, supported_type_try_from}
use pldm_lib.Protocol.Header.{is_request, rq, is_hdr_ver_valid, hdr_ver, pldm_type, cmd_code}
use pldm_lib.Codec.{decode, header}
use pldm_lib.Control.{
  ProtocolCapability, ControlContext, contains, any_cap, find_cap, type_eq, is_supported_type,
  is_supported_command,
}
use pldm_lib.Cmd.{preprocess_request}

-- The first capability of the type lists the command.
abbrev pub Supports : PldmSupportedType → ℕ → List ProtocolCapability → Type 0
Supports kind code caps =
    (cap : ProtocolCapability) × IsFirst (λ c. c.pldm_type ≡ kind) cap caps
    × Occurs code cap.supported_commands

-- The bytes are a request of header version 0 for a type and a command that the table supports: bit
-- 7 of the first byte is set, the version is in the two high bits of the second and the type in its
-- six low ones, and the third is the command.
abbrev pub IsChecked : ControlContext → PldmSupportedType → ℕ → List ℕ → Type 0
IsChecked ctx kind code (a ∷ b ∷ c ∷ rest) =
    (a / 128 % 2 ≡ 1)
    × (b / 64 % 4 ≡ 0)
    × (b % 64 ≡ supported_type_code kind)
    × (c ≡ code)
    × Supports kind code ctx.capabilities
IsChecked ctx kind code _ = ⊥

type_eq_iff : (a b : PldmSupportedType) → (type_eq a b ≡ true) ↔ (a ≡ b)
type_eq_iff a b = ground arith

find_cap-find :
    (p : ProtocolCapability → Bool) (caps : List ProtocolCapability) → find_cap p caps ≡ find p caps
unfolding find_cap
find_cap-find p [] = refl
find_cap-find p (c ∷ cs) = rw (find_cap-find p cs) refl

Occurs-contains : (x : ℕ) (before after : List ℕ) → contains x (before ++ x ∷ after) ≡ true
unfolding contains
Occurs-contains x [] after = ground arith
Occurs-contains x (y ∷ ys) after = ground (arith, Occurs-contains x ys after)

contains-Occurs : (x : ℕ) (xs : List ℕ) → contains x xs ≡ true → Occurs x xs
unfolding contains
contains-Occurs x [] h = ground arith
contains-Occurs x (y ∷ ys) h = elim (Bool-cases (y == x)) [
  | inl q ↦ let same : y ≡ x = ground arith in ([], ys, ap (λ z. z ∷ ys) same)
  | inr q ↦
      let (before, after, e) = contains-Occurs x ys (ground arith) in
      (y ∷ before, after, ap (λ zs. y ∷ zs) e)
]

module _ (kind : PldmSupportedType) where
  find_cap-IsFirst :
      (cap : ProtocolCapability) (caps : List ProtocolCapability)
      → (find_cap (λ c. type_eq c.pldm_type kind) caps ≡ some cap)
        ↔ IsFirst (λ c. c.pldm_type ≡ kind) cap caps
  find_cap-IsFirst cap caps = rw (find_cap-find (λ c. type_eq c.pldm_type kind) caps) (
      find-IsFirst (λ c. type_eq c.pldm_type kind) (λ c. c.pldm_type ≡ kind)
        (λ c. type_eq_iff c.pldm_type kind) cap caps)

  is_supported_command-Supports :
      (code : ℕ) (ctx : ControlContext)
      → is_supported_command kind code ctx ≡ true
      → Supports kind code ctx.capabilities
  unfolding is_supported_command
  is_supported_command-Supports code ctx h =
      elim (Option-cases (find_cap (λ c. type_eq c.pldm_type kind) ctx.capabilities)) [
        | inl q ↦ ground arith
        | inr (cap, q) ↦
            let listed = rw (q, is_supported_command) at h in
            (
              cap,
              (find_cap-IsFirst cap ctx.capabilities).0 q,
              contains-Occurs code cap.supported_commands listed,
            )
      ]

  Supports-is_supported_command :
      (code : ℕ) (ctx : ControlContext)
      → Supports kind code ctx.capabilities
      → is_supported_command kind code ctx ≡ true
  unfolding is_supported_command
  Supports-is_supported_command code ctx (cap, first, (before, after, e)) =
      rw ((find_cap-IsFirst cap ctx.capabilities).1 first, is_supported_command, e)
        (Occurs-contains code before after)

  found-any :
      (p : ProtocolCapability → Bool) (cap : ProtocolCapability) (caps : List ProtocolCapability)
      → find_cap p caps ≡ some cap
      → any_cap p caps ≡ true
  unfolding find_cap any_cap
  found-any p cap [] h = ground arith
  found-any p cap (c ∷ cs) h = elim (Bool-cases (p c)) [
    | inl q ↦ rw (q, any_cap) refl
    | inr q ↦ rw (q, any_cap) (found-any p cap cs (rw (q, find_cap) at h))
  ]

  Supports-is_supported_type :
      (code : ℕ) (ctx : ControlContext)
      → Supports kind code ctx.capabilities
      → is_supported_type kind ctx ≡ true
  unfolding is_supported_type
  Supports-is_supported_type code ctx (cap, first, listed) =
      found-any (λ c. type_eq c.pldm_type kind) cap ctx.capabilities
        ((find_cap-IsFirst cap ctx.capabilities).1 first)

named_type :
    (n : ℕ) (kind : PldmSupportedType)
    → supported_type_try_from n ≡ Result.ok kind
    → n ≡ supported_type_code kind
unfolding supported_type_try_from
named_type n kind h = ground arith

type_named :
    (kind : PldmSupportedType) → supported_type_try_from (supported_type_code kind) ≡ Result.ok kind
unfolding supported_type_try_from
type_named kind = ground arith

module _ (ctx : ControlContext) (kind : PldmSupportedType) (code a b c : ℕ) (rest : List ℕ) where
  checked_bytes :
      preprocess_request ctx (a ∷ b ∷ c ∷ rest) ≡ ok (Result.ok (kind, code))
      → (a / 128 % 2 ≡ 1)
        × (b / 64 % 4 ≡ 0)
        × (supported_type_try_from (b % 64) ≡ Result.ok kind)
        × (c ≡ code)
        × (is_supported_command kind c ctx ≡ true)
  unfolding preprocess_request decode header is_request rq is_hdr_ver_valid hdr_ver pldm_type
      cmd_code
  checked_bytes h = ground arith

  bytes_checked :
      a / 128 % 2 ≡ 1
      → b / 64 % 4 ≡ 0
      → supported_type_try_from (b % 64) ≡ Result.ok kind
      → is_supported_type kind ctx ≡ true
      → c ≡ code
      → is_supported_command kind c ctx ≡ true
      → preprocess_request ctx (a ∷ b ∷ c ∷ rest) ≡ ok (Result.ok (kind, code))
  unfolding preprocess_request decode header is_request rq is_hdr_ver_valid hdr_ver pldm_type
      cmd_code
  bytes_checked ha hb hk ht hc hs = ground arith

-- A request is let through with a type and a command if and only if its first byte has the
-- request bit set, the two high bits of its second byte are the header version 0 and the six
-- low ones are the code of the type, its third byte is the command, and the first capability of
-- that type in the table lists the command.
pub preprocess_request-IsChecked :
    (ctx : ControlContext) (payload : List ℕ) (kind : PldmSupportedType) (code : ℕ)
    → (preprocess_request ctx payload ≡ ok (Result.ok (kind, code)))
      ↔ IsChecked ctx kind code payload
unfolding preprocess_request decode header
preprocess_request-IsChecked ctx [] kind code = ground arith
preprocess_request-IsChecked ctx (_ ∷ []) kind code = ground arith
preprocess_request-IsChecked ctx (_ ∷ _ ∷ []) kind code = ground arith
preprocess_request-IsChecked ctx (a ∷ b ∷ c ∷ rest) kind code = (
  λ h.
      let (request, version, type, same, listed) = checked_bytes ctx kind code a b c rest h in
      (
        request,
        version,
        named_type (b % 64) kind type,
        same,
        is_supported_command-Supports kind code ctx
            (subst (λ n. is_supported_command kind n ctx ≡ true) same listed),
      ),
  λ (request, version, type, same, supports).
      bytes_checked ctx kind code a b c rest request version
        (ap supported_type_try_from type ∙ type_named kind)
        (Supports-is_supported_type kind code ctx supports) same
        (subst (λ n. is_supported_command kind n ctx ≡ true) (sym same)
          (Supports-is_supported_command kind code ctx supports)),
)
