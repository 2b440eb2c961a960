-- ===== src/Control/Laws.antt =====
-- What the tests of the capability table say of each other.
use pldm_lib.Base.{
  ℕ, ◌==◌, ◌≡◌, refl, ◌∷◌, [], List, Bool, true, ◌&&◌, some, arith, Bool-cases, inl, inr,
}
use pldm_lib.Protocol.Base.{PldmSupportedType}
use pldm_lib.Control.{
  ProtocolCapability, ControlContext, find_cap, any_cap, type_eq, is_supported_version,
  get_supported_commands,
}

any-find :
    (p : ProtocolCapability → Bool) (cs : List ProtocolCapability)
    → any_cap p cs ≡ true
    → (c : ProtocolCapability) × (find_cap p cs ≡ some c)
unfolding any_cap find_cap
any-find p [] h = ground arith
any-find p (c ∷ cs) h = elim (Bool-cases (p c)) [
  | inl e ↦ (c, rw e refl)
  | inr e ↦ let (d, q) = any-find p cs (rw e at h) in (d, rw e q)
]

find-any :
    (p : ProtocolCapability → Bool) (c : ProtocolCapability) (cs : List ProtocolCapability)
    → find_cap p cs ≡ some c
    → any_cap p cs ≡ true
unfolding any_cap find_cap
find-any p c [] h = ground arith
find-any p c (d ∷ ds) h = elim (Bool-cases (p d)) [
  | inl e ↦ rw e refl
  | inr e ↦ rw e (find-any p c ds (rw e at h))
]

-- A type and version that the table supports have a list of commands: the `unwrap` of
-- GetPLDMCommands succeeds.
pub supported_version-HasCommands :
    (k : PldmSupportedType) (v : ℕ) (ctx : ControlContext)
    → is_supported_version k v ctx ≡ true
    → (cmds : List ℕ) × (get_supported_commands k v ctx ≡ some cmds)
unfolding is_supported_version get_supported_commands
supported_version-HasCommands k v ctx h =
    let (c, e) =
      any-find (λ cap. type_eq cap.pldm_type k && (cap.protocol_version == v)) ctx.capabilities h in
    (c.supported_commands, rw e refl)
