-- ===== src/Cmd/Busy.antt =====
-- The flag `busy` of `CmdInterface`, and what comes before a handler runs.
use pldm_lib.Base.{ℕ, ◌≡◌, ◌≢◌, true, false, List, [], ◌∷◌, ok, err, panic, arith, Result}
use pldm_lib.Protocol.Error.{not_ready}
use pldm_lib.Protocol.Base.{PldmSupportedType, supported_type_try_from}
use pldm_lib.Protocol.Header.{PldmMsgHeader, is_request, is_hdr_ver_valid, pldm_type, cmd_code}
use pldm_lib.Codec.{decode, header}
use pldm_lib.Control.{ControlContext, is_supported_type, is_supported_command}
use pldm_lib.Fd.Ops.{Target}
use pldm_lib.Cmd.{CmdInterface, preprocess_request, serve, process_request}

-- A request is let through with a type and a command only if its header decodes to that command
-- and type, is a request of header version 0, and the capability table supports the type and
-- the command.
pub preprocess_request-ok :
    (ctx : ControlContext) (payload : List ℕ) (kind : PldmSupportedType) (code : ℕ)
    → preprocess_request ctx payload ≡ ok (Result.ok (kind, code))
    → (hdr : PldmMsgHeader) × (decode header payload ≡ ok hdr)
      × (is_request hdr ≡ true)
      × (is_hdr_ver_valid hdr ≡ true)
      × (supported_type_try_from (pldm_type hdr) ≡ Result.ok kind)
      × (is_supported_type kind ctx ≡ true)
      × (cmd_code hdr ≡ code)
      × (is_supported_command kind code ctx ≡ true)
unfolding preprocess_request
preprocess_request-ok ctx payload kind code h = grind arith

module _ {W : Type 0} (t : Target W) where
  -- A request that arrives while another is served is answered by the error NotReady, and nothing
  -- changes.
  pub process_request-busy :
      (s : CmdInterface W) (msg : List ℕ)
      → s.busy ≡ true
      → process_request t s msg ≡ (err not_ready, s, msg)
  unfolding process_request
  process_request-busy s [] h = ground arith
  process_request-busy s (b ∷ payload) h = ground arith

  serve-free :
      (s : CmdInterface W) (payload : List ℕ)
      → (serve t s payload).0 ≢ panic
      → (serve t s payload).1.busy ≡ false
  unfolding serve
  serve-free s payload h = ground arith

  -- A request to an interface that is not busy leaves it not busy, unless it panics.
  pub process_request-free :
      (s : CmdInterface W) (msg : List ℕ)
      → s.busy ≡ false
      → (process_request t s msg).0 ≢ panic
      → (process_request t s msg).1.busy ≡ false
  unfolding process_request
  process_request-free s [] f h = ground arith
  process_request-free s (b ∷ payload) f h =
      let e = serve-free (record s { busy = true }) payload in ground arith
