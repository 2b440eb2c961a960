-- ===== src/Fd/Invariant/Rules.antt =====
-- How a handler of `fd_context.rs` is put together from safe parts: refusals, decoders, replies,
-- guards and callbacks.
use pldm_lib.Base.{
  ok, ℕ, ◌≡◌, refl, List, Result, arith, Outcome-cases, inl, inr, Bool, true, false, if◌then◌else◌,
}
use pldm_lib.Codec.{CodecResult, Reader, Written, decode, header, write_to_prefix}
use pldm_lib.Fd.Internal.{FdInternal, set_fd_t1_update_ts}
use pldm_lib.Fd.Ops.{Target, OpsResult}
use pldm_lib.Fd.Handler.{
  Ctx, Handler, ◌>>=◌, ◌>>◌, call, call_mut, refuse, generate_failure_response, with_request,
  respond,
}
use pldm_lib.Fd.Responder.{set_fd_t1_ts}
use pldm_lib.Fd.Invariant.{IsValid, IsSafe}
use pldm_lib.Fd.Invariant.Encoders.{NoPanic, Total, decode-NoPanic}

module _ {W : Type 0} where
  -- A refusal changes the payload alone.
  pub refuse-internal : (code : ℕ) (c : Ctx W) → (refuse code c).1.internal ≡ c.internal
  unfolding refuse
  refuse-internal code c = refl

  pub refuse-IsSafe : (code : ℕ) (c : Ctx W) → IsValid c.internal → IsSafe (refuse code c)
  unfolding refuse generate_failure_response decode header write_to_prefix
  refuse-IsSafe code c v = ground arith

  pub with_request-IsSafe :
      {A : Type 0} (r : Reader A) (k : A → Handler W ℕ) (c : Ctx W)
      → Total r
      → IsValid c.internal
      → ((a : A) → decode r c.payload ≡ ok a → IsSafe (k a c))
      → IsSafe (with_request r k c)
  with_request-IsSafe r k c total v h = elim (Outcome-cases (decode r c.payload)) [
    | inl (a, e) ↦ rw (e, IsSafe, with_request) (h a e)
    | inr (inl (x, e)) ↦ rw (e, IsSafe, with_request) (refuse-IsSafe _ c v)
    | inr (inr e) ↦ absurd (rw e at (decode-NoPanic r c.payload total))
  ]

  pub respond-IsSafe :
      (encode : List ℕ → CodecResult Written) (change : FdInternal → FdInternal) (c : Ctx W)
      → NoPanic (encode c.payload)
      → IsValid c.internal
      → IsValid (change c.internal)
      → IsSafe (respond encode change c)
  respond-IsSafe encode change c n v v' = elim (Outcome-cases (encode c.payload)) [
    | inl (a, e) ↦ rw (e, IsSafe, respond) v'
    | inr (inl (x, e)) ↦ rw (e, IsSafe, respond) (refuse-IsSafe _ c v)
    | inr (inr e) ↦ absurd (rw e at n)
  ]

  -- A guard at the head of a handler.
  pub guard-IsSafe :
      (b : Bool) (code : ℕ) (m : Handler W ℕ) (c : Ctx W)
      → IsValid c.internal
      → IsSafe (m c)
      → IsSafe ((if b then refuse code else m) c)
  guard-IsSafe true code m c v h = refuse-IsSafe code c v
  guard-IsSafe false code m c v h = h

  call_result-IsSafe :
      {A B : Type 0} (p : OpsResult A × W) (k : A → Handler W B) (c : Ctx W)
      → IsValid c.internal
      → ((a : A) → p.0 ≡ Result.ok a → IsSafe (k a (record c { world = p.1 })))
      → IsSafe ((call (λ _. p) >>= k) c)
  call_result-IsSafe (Result.ok a, w) k c v h = h a refl
  call_result-IsSafe (Result.err e, w) k c v h = v

  pub call-IsSafe :
      {A B : Type 0} (f : W → OpsResult A × W) (k : A → Handler W B) (c : Ctx W)
      → IsValid c.internal
      → ((a : A) → (f c.world).0 ≡ Result.ok a → IsSafe (k a (record c { world = (f c.world).1 })))
      → IsSafe ((call f >>= k) c)
  call-IsSafe f k c v h = call_result-IsSafe (f c.world) k c v h

  call_mut_result-IsSafe :
      {A B D : Type 0} (p : OpsResult A × B × W) (k : A × B → Handler W D) (c : Ctx W)
      → IsValid c.internal
      → ((a : A) → IsSafe (k (a, p.1) (record c { world = p.2 })))
      → IsSafe ((call_mut (λ _. p) >>= k) c)
  call_mut_result-IsSafe (Result.ok a, b, w) k c v h = h a
  call_mut_result-IsSafe (Result.err e, b, w) k c v h = v

  pub call_mut-IsSafe :
      {A B D : Type 0} (f : W → OpsResult A × B × W) (k : A × B → Handler W D) (c : Ctx W)
      → IsValid c.internal
      → ((a : A) → IsSafe (k (a, (f c.world).1) (record c { world = (f c.world).2 })))
      → IsSafe ((call_mut f >>= k) c)
  call_mut-IsSafe f k c v h = call_mut_result-IsSafe (f c.world) k c v h

module _ {W : Type 0} (t : Target W) where
  -- A stamped clock keeps the state valid, and the rest of the handler runs on it.
  pub stamp-IsSafe :
      (m : Handler W ℕ) (c : Ctx W)
      → IsValid c.internal
      → ((c' : Ctx W) → c'.payload ≡ c.payload → IsValid c'.internal → IsSafe (m c'))
      → IsSafe ((set_fd_t1_ts t >> m) c)
  unfolding set_fd_t1_ts set_fd_t1_update_ts
  stamp-IsSafe m c v h = h _ refl (ground arith)
