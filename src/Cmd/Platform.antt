-- ===== src/Cmd/Platform.antt =====
-- What the safety of `CmdInterface` rests on: the byte order and the callbacks that the platform
-- brings, and the capability table that it is configured with.
use pldm_lib.Base.{ℕ, ◌≡◌, false, List, [], ◌∷◌, All, ok, panic}
use pldm_lib.Protocol.Update.{FwUpdateCmd, fw_update_cmd_code}
use pldm_lib.Protocol.Header.{PldmMsgHeader, cmd_code}
use pldm_lib.Codec.{decode, header}
use pldm_lib.Protocol.Base.{PldmSupportedType, base, fw_update}
use pldm_lib.Codec.Order.{ByteOrder, IsByteOrder}
use pldm_lib.Fd.Ops.{Target, IsTyped, HasNoVendorCode, HasShortChunks}
use pldm_lib.Fd.Handler.{Answer}
use pldm_lib.Fd.Invariant.{IsValid}
use pldm_lib.Fd.Invariant.Answers.{AnnouncesFit}
use pldm_lib.Fd.Invariant.Queries.{HasTables}
use pldm_lib.Control.{ProtocolCapability}
use pldm_lib.Control.Safety.{HasByteCommands}
use pldm_lib.Cmd.{CmdInterface}

pub record IsPlatform {W : Type 0} (t : Target W) : Type 0 where
  pub law : IsByteOrder t.order
  pub typed : IsTyped t.ops
  pub tables : HasTables t.ops
  pub no_vendor : HasNoVendorCode t.ops
  pub short_chunks : HasShortChunks t.ops

-- The types that `process_request` has a handler for.
abbrev pub IsServed : PldmSupportedType → Type 0
IsServed base = Unit
IsServed fw_update = Unit
IsServed _ = ⊥

pub record IsTable (caps : List ProtocolCapability) : Type 0 where
  pub served : All (λ cap. IsServed cap.pldm_type) caps
  pub commands : HasByteCommands caps

-- Between two calls: the device's state is valid, the table is served, and no request is open.
pub record IsReady {W : Type 0} (s : CmdInterface W) : Type 0 where
  pub device : IsValid s.internal
  pub table : IsTable s.ctrl_ctx.capabilities
  pub free : s.busy ≡ false

-- The bytes of an UpdateComponent request announce an image that ends, with its padding, below
-- 2 ^ 32.
abbrev pub RequestFits : ByteOrder → List ℕ → Type 0
RequestFits bo payload =
    (hdr : PldmMsgHeader)
    → decode header payload ≡ ok hdr
    → cmd_code hdr ≡ fw_update_cmd_code FwUpdateCmd.update_component
    → AnnouncesFit bo payload

-- What a request's buffer has to be: not empty, and an UpdateComponent in it announces an image
-- that ends, with its padding, below 2 ^ 32.
abbrev pub MessageFits : ByteOrder → List ℕ → Type 0
MessageFits bo [] = ⊥
MessageFits bo (b ∷ payload) = RequestFits bo payload

module _ {W : Type 0} where
  -- A call that did not panic, and the interface after it, its flag aside.
  abbrev pub Handles : {A B : Type 0} → Answer A × CmdInterface W × B → Type 0
  Handles (panic, s, x) = ⊥
  Handles (_, s, x) = IsValid s.internal × IsTable s.ctrl_ctx.capabilities

  -- A call that did not panic, and left the interface ready.
  abbrev pub Readies : {A B : Type 0} → Answer A × CmdInterface W × B → Type 0
  Readies (panic, s, x) = ⊥
  Readies (_, s, x) = IsReady s
