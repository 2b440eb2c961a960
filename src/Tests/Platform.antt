-- ===== src/Tests/Platform.antt =====
-- The small platform keeps to what the safety theorems ask, and an update that runs through it.
use pldm_lib.Base.{ℕ, ◌≡◌, ◌∷◌, [], List, false, arith, All}
use pldm_lib.Protocol.Update.{FwUpdateCmd}
use pldm_lib.Protocol.Header.{cmd_code}
use pldm_lib.Codec.{decode, header}
use pldm_lib.Codec.Order.{little_endian, little_endian-IsByteOrder}
use pldm_lib.Message.Str.{default_params}
use pldm_lib.Fd.Invariant.Entries.{IsParameters}
use pldm_lib.Fd.Invariant.Queries.{HasTables}
use pldm_lib.Cmd.Platform.{IsPlatform, IsTable, IsReady, Readies, MessageFits}
use pldm_lib.Fd.Invariant.{IsSafe}
use pldm_lib.Cmd.{process_request, fw_update_handler}
use pldm_lib.Cmd.Ready.{new_cmd_interface-IsReady, process_request-Readies}
use pldm_lib.Cmd.Safety.{fw_update_handler-IsSafe}
use pldm_lib.Cmd.Runs.{EventFits, run_panics, run-new}
use pldm_lib.Cmd.{CmdInterface, new_cmd_interface}
use pldm_lib.Cmd.Run.{run}
use pldm_lib.Tests.{
  target, ops, ops-IsTyped, ops-HasNoVendorCode, ops-HasShortChunks, controls, update_events, at,
  fd_ready, update_component_bytes, ready-IsValid,
}
use pldm_lib.Tests.Safety.{ready_update-AnnouncesFit}

default-IsParameters : IsParameters default_params
unfolding default_params
default-IsParameters = record {
  active_fits = ground arith;
  pending_fits = ground arith;
  count_fits = ground arith;
  entries = ground arith;
}

ops-HasTables : HasTables ops
ops-HasTables = record { identifiers = λ w. ground arith; parameters = λ w. default-IsParameters }

pub target-IsPlatform : IsPlatform target
target-IsPlatform = record {
  law = little_endian-IsByteOrder;
  typed = ops-IsTyped;
  tables = ops-HasTables;
  no_vendor = ops-HasNoVendorCode;
  short_chunks = ops-HasShortChunks;
}

controls-IsTable : IsTable controls.capabilities
controls-IsTable = ground arith

events-fit : All (EventFits target) update_events
unfolding header decode cmd_code
events-fit = (
  λ hdr e q. ground arith,
  (
    λ hdr e q. ground arith,
    (λ hdr e q. ready_update-AnnouncesFit, (tt, (tt, (tt, (tt, (tt, (tt, tt))))))),
  ),
)

abbrev started : CmdInterface ℕ
started = new_cmd_interface controls.capabilities 0

run-new_example :
    (run_panics target update_events started ≡ false) × IsReady (run target update_events started)
run-new_example =
    run-new target target-IsPlatform controls.capabilities 0 update_events controls-IsTable
      events-fit

started-IsReady : IsReady started
started-IsReady = new_cmd_interface-IsReady controls.capabilities 0 controls-IsTable

abbrev get_tid_message : List ℕ
get_tid_message = 0x01 ∷ 0x80 ∷ 0 ∷ 2 ∷ 0 ∷ 0 ∷ []

get_tid-MessageFits : MessageFits little_endian get_tid_message
unfolding header decode cmd_code
get_tid-MessageFits = λ hdr e q. ground arith

process_request-Readies_example : Readies (process_request target started get_tid_message)
process_request-Readies_example =
    process_request-Readies target target-IsPlatform started get_tid_message started-IsReady
      get_tid-MessageFits

fw_update_handler-IsSafe_example :
    IsSafe
      (fw_update_handler target FwUpdateCmd.update_component (at 1 fd_ready update_component_bytes))
fw_update_handler-IsSafe_example =
    fw_update_handler-IsSafe target target-IsPlatform FwUpdateCmd.update_component
      (at 1 fd_ready update_component_bytes) (λ q. ready_update-AnnouncesFit) ready-IsValid
