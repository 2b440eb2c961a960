-- ===== src/Base/Fallible.antt =====
-- What Rust code of type `Result<A, E>` does: it returns `Ok`, returns `Err`, or panics. A callback
-- of the platform returns a `Result`, which has no third case.
use mathlib.Core.Path.{◌≡◌, refl}
use mathlib.Core.Logic.{◌⊎◌, inl, inr}
use mathlib.Core.Option.{Option, none, some}

pub data Result {ℓ κ} (E : Type ℓ) (A : Type κ) : Type (ℓ ⊔ κ) where
  ok : A → Result E A
  err : E → Result E A

pub data Outcome {ℓ κ} (E : Type ℓ) (A : Type κ) : Type (ℓ ⊔ κ) where
  ok : A → Outcome E A
  err : E → Outcome E A
  panic : Outcome E A

module _ {E : Type 0} where
  infixl 5 ◌>>=◌ ◌>>◌
  abbrev pub ◌>>=◌ : {A B : Type 0} → Outcome E A → (A → Outcome E B) → Outcome E B
  Outcome.ok a >>= f = f a
  Outcome.err e >>= f = Outcome.err e
  panic >>= f = panic

  abbrev pub ◌>>◌ : {A B : Type 0} → Outcome E A → Outcome E B → Outcome E B
  m >> k = m >>= λ _. k

  -- `r?` on the result of a callback or of a conversion
  abbrev pub from_result : {A : Type 0} → Result E A → Outcome E A
  from_result (Result.ok a) = Outcome.ok a
  from_result (Result.err e) = Outcome.err e

  -- `o.ok_or(e)?`
  abbrev pub ok_or : {A : Type 0} → Option A → E → Outcome E A
  ok_or none e = Outcome.err e
  ok_or (some a) e = Outcome.ok a

  -- `o.unwrap()`
  abbrev pub unwrap_option : {A : Type 0} → Option A → Outcome E A
  unwrap_option none = panic
  unwrap_option (some a) = Outcome.ok a

pub Result-cases :
    {E A : Type 0} (r : Result E A) → ((a : A) × (r ≡ Result.ok a)) ⊎ ((e : E) × (r ≡ Result.err e))
Result-cases (Result.ok a) = inl (a, refl)
Result-cases (Result.err e) = inr (e, refl)

pub Outcome-cases :
    {E A : Type 0} (r : Outcome E A)
    → ((a : A) × (r ≡ Outcome.ok a)) ⊎ ((e : E) × (r ≡ Outcome.err e)) ⊎ (r ≡ panic)
Outcome-cases (Outcome.ok a) = inl (a, refl)
Outcome-cases (Outcome.err e) = inr (inl (e, refl))
Outcome-cases panic = inr (inr refl)
