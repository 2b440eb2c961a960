-- ===== src/Fd/Flow/Replies.antt =====
-- `handle_response` of `fd_context.rs`: which answers of the update agent fit, and which move the
-- device on.
use pldm_lib.Base.{◌≡◌, true, false, some, ok, err, arith}
use pldm_lib.Protocol.Error.{fd_initiator_mode_error}
use pldm_lib.Protocol.Update.{download, verify, apply}
use pldm_lib.Protocol.Header.{PldmMsgHeader}
use pldm_lib.Codec.{decode, header}
use pldm_lib.Fd.Internal.{sent}
use pldm_lib.Fd.Ops.{Target}
use pldm_lib.Fd.Handler.{Ctx}
use pldm_lib.Fd.Reply.{expects, handle_response}

module _ {W : Type 0} (t : Target W) where
  -- An answer with a readable header that does not fit the request that is out (by its instance
  -- id, by its command, or as no request is out) is an error that changes nothing.
  pub handle_response-unexpected :
      (hdr : PldmMsgHeader) (c : Ctx W)
      → decode header c.payload ≡ ok hdr
      → expects c.internal.req hdr ≡ false
      → handle_response t c ≡ (err fd_initiator_mode_error, c)
  unfolding handle_response
  handle_response-unexpected hdr c d h = ground arith

  -- When `handle_response` takes the device from `Verify` to `Apply`, the request that was out
  -- was sent, complete and had the result success.
  pub verified-success :
      (c : Ctx W)
      → c.internal.state ≡ verify
      → (handle_response t c).1.internal.state ≡ apply
      → (c.internal.req.state ≡ sent)
        × (c.internal.req.complete ≡ true)
        × (c.internal.req.result ≡ some 0)
  unfolding handle_response
  verified-success c s h = ground arith

  -- When `handle_response` takes the device from `Download` to `Verify`, the request that was
  -- out was sent, complete and had the result success.
  pub transferred-success :
      (c : Ctx W)
      → c.internal.state ≡ download
      → (handle_response t c).1.internal.state ≡ verify
      → (c.internal.req.state ≡ sent)
        × (c.internal.req.complete ≡ true)
        × (c.internal.req.result ≡ some 0)
  unfolding handle_response
  transferred-success c s h = ground arith
