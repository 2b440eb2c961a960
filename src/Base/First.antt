-- ===== src/Base/First.antt =====
-- The first element of a list that has a property, and `iter().find` of a test for it.
use mathlib.Core.Path.{◌≡◌, refl, ap, sym, subst}
use mathlib.Core.Logic.{◌↔◌, inl, inr}
use mathlib.Core.Bool.{Bool, true, false}
use mathlib.Core.Option.{Option, none, some}
use mathlib.Core.List.{List, [], ◌∷◌, ◌++◌}
use native.Mathlib.Omega.{arith}
use pldm_lib.Base.Tests.{if◌then◌else◌, Bool-cases}
use pldm_lib.Base.Lists.{All}

abbrev pub find : {A : Type 0} → (A → Bool) → List A → Option A
find p [] = none
find p (x ∷ xs) = let rest = find p xs in if p x then some x else rest

-- `x` stands in the list, has the property, and no element before it has it.
abbrev pub IsFirst : {A : Type 0} → (A → Type 0) → A → List A → Type 0
IsFirst {A} P x xs =
    (before : List A) × (after : List A) × (xs ≡ before ++ x ∷ after)
    × All (λ y. ¬ P y) before
    × P x

-- `x` stands in the list.
abbrev pub Occurs : {A : Type 0} → A → List A → Type 0
Occurs {A} x xs = (before : List A) × (after : List A) × (xs ≡ before ++ x ∷ after)

module _ {A : Type 0} (p : A → Bool) (P : A → Type 0) (tests : (x : A) → (p x ≡ true) ↔ P x) where
  passes : (x : A) → P x → p x ≡ true
  passes x h = (tests x).1 h

  fails : (x : A) → ¬ P x → p x ≡ false
  fails x h = elim (Bool-cases (p x)) [ inl q ↦ absurd (h ((tests x).0 q)) | inr q ↦ q ]

  find→IsFirst : (x : A) (xs : List A) → find p xs ≡ some x → IsFirst P x xs
  find→IsFirst x [] h = ground arith
  find→IsFirst x (y ∷ ys) h = elim (Bool-cases (p y)) [
    | inl q ↦
        let same : y ≡ x = ground arith in
        ([], ys, ap (λ z. z ∷ ys) same, tt, subst P same ((tests y).0 q))
    | inr q ↦
        let (before, after, e, none_before, here) = find→IsFirst x ys (ground arith) in
        (
          y ∷ before,
          after,
          ap (λ zs. y ∷ zs) e,
          (λ h. ground (arith, q, (tests y).1 h), none_before),
          here,
        )
  ]

  find-first :
      (x : A) (before after : List A)
      → All (λ y. ¬ P y) before
      → P x
      → find p (before ++ x ∷ after) ≡ some x
  find-first x [] after h here = rw (passes x here) refl
  find-first x (y ∷ ys) after h here = rw (fails y h.0) (find-first x ys after h.1 here)

  -- `find` returns an element if and only if it is the first that has the property.
  pub find-IsFirst : (x : A) (xs : List A) → (find p xs ≡ some x) ↔ IsFirst P x xs
  find-IsFirst x xs = (
    find→IsFirst x xs,
    λ (before, after, e, h, here).
        subst (λ xs. find p xs ≡ some x) (sym e) (find-first x before after h here),
  )
