-- ===== src/Tests/Safety.antt =====
-- The safety of the device's own requests and of their answers.
use pldm_lib.Base.{arith}
use pldm_lib.Codec.{decode, header, byte, int, slice}
use pldm_lib.Codec.Order.{little_endian, from_le}
use pldm_lib.Message.Update.{update_component_request, version_bytes}
use pldm_lib.Fd.Invariant.{IsSafe}
use pldm_lib.Fd.Initiator.{fd_progress}
use pldm_lib.Fd.Reply.{handle_response}
use pldm_lib.Fd.Invariant.Requests.{fd_progress-IsSafe}
use pldm_lib.Fd.Invariant.Replies.{handle_response-IsSafe}
use pldm_lib.Fd.Invariant.Answers.{AnnouncesFit}
use pldm_lib.Tests.{
  target, ops-IsTyped, ops-HasNoVendorCode, zeros, update_component_bytes, at, fd_downloading,
  fd_verifying, downloading-IsValid, verifying-IsValid, ops-HasShortChunks, chunk_answer,
}

fd_progress-IsSafe_example : IsSafe (fd_progress target (at 1 fd_verifying zeros))
fd_progress-IsSafe_example =
    fd_progress-IsSafe target (at 1 fd_verifying zeros) ops-IsTyped verifying-IsValid
      ops-HasShortChunks

handle_response-IsSafe_example : IsSafe (handle_response target (at 1 fd_downloading chunk_answer))
handle_response-IsSafe_example =
    handle_response-IsSafe target (at 1 fd_downloading chunk_answer) ops-HasNoVendorCode
      downloading-IsValid

pub ready_update-AnnouncesFit : AnnouncesFit little_endian update_component_bytes
unfolding update_component_request decode header byte int slice version_bytes from_le
ready_update-AnnouncesFit req h = ground arith
