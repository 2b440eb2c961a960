-- ===== src/Lib.antt =====
-- Verification of the PLDM library: firmware update (DSP0267) and the base protocol (DSP0240) on the
-- side of a firmware device. `pldm-common` has the protocol's types and messages, `pldm-interface`
-- the device: `CmdInterface` takes a message, checks its header against the capability table of
-- `ControlContext`, and calls a control command or a handler of `FirmwareDeviceContext`, which keeps
-- the state of an update in `FdInternal` and calls the platform through the trait `FdOps`.
--
-- Base       shared names, Boolean tests, lists over the native numbers, the outcomes of Rust code (`ok`,
--            `err`, `panic`), and the first element of a list with a property (First).
-- Protocol   the enums of pldm-common/src/protocol with their discriminants and `TryFrom`, the errors,
--            the message header with its bit fields (Protocol/Header), and versions packed in BCD
--            (Protocol/Version).
-- Codec      readers of a buffer, `write_to_prefix`, the cursor of the encoders that write field by
--            field, the byte order of the target (Codec/Order), and what a round trip is (Codec/Round,
--            Codec/Writes).
-- Message    the messages of pldm-common/src/message/firmware_update in the direction that a device
--            uses, firmware strings and components with `evaluate_update_eligibility` (Eligible,
--            over Order, the order of firmware strings), and the encoders of the three requests with a
--            version string (Requests, Round).
-- Downstream the devices of a QueryDownstreamIdentifiers response (query_downstream.rs): descriptors
--            (Blob, Wire), the iterator and `try_at` (Devices), its termination (Walk) and its meaning
--            (Entries, Lookup), and the iterator over the descriptors of one device (Descriptors, Collect).
-- Transfer   the messages of multipart transfers of get_package_data.rs and query_downstream.rs: the
--            requests, the responses with a portion, and GetPackageDataResponse.
-- Mctp       pldm-common/src/util/mctp_transport.rs.
-- Control    pldm-interface/src/control_context.rs: the table, and the five commands (Responder);
--            the bitmaps of pldm-common/src/message/control.rs (Bitmap, Bits); Commands is what
--            GetPLDMCommands answers.
-- Fd         pldm-interface/src/firmware_device. Internal is fd_internal.rs; Ops is the trait FdOps as a
--            record of functions on the platform's world; Handler is what a handler is: it takes the
--            world, the state and the payload buffer, and gives them back with its result. Responder,
--            Service, Initiator and Reply are fd_context.rs: requests on the way into an update, the
--            other requests, the device's own requests, and the answers to them. Invariant says when a
--            state is valid and what a safe handler is; Flow has the step relation of the update flow.
-- Cmd        pldm-interface/src/cmd_interface.rs: dispatch and the busy flag; Checked says which
--            requests pass `preprocess_request`, Answers which messages are answers, Run has runs of the
--            whole interface, Refusals the commands that a state forbids, Safety, Ready and Runs the
--            freedom from panics of one call and of a run, and Platform what they ask of the platform.
-- Tests      a small platform, an update that runs through it, and each theorem at a concrete input.
--
-- Numbers are natural numbers: bytes and integers of a message come out of a buffer, and a cast or a
-- wrap-around is written out (`% 2 ^ 32`). Arithmetic that overflows is a panic, as with overflow
-- checks; so are a slice out of range, `unwrap` of nothing and `unreachable!`. What a call changed
-- before it returned an error stays changed. Loops run over a list, but for `try_at`, whose fuel is one
-- more than the devices that the portion announces: each step but the last finds one of them; and for
-- the loop over the descriptors of a device, for which one more than their number is enough.
--
-- Parameters, as they are not code of this repository: the platform (`FdOps`), and the byte order of
-- packed structs, which `zerocopy` takes from the target. `IsTyped` says what the types of the trait
-- promise, `HasNoVendorCode` that the platform does not use the vendor-defined codes, `HasShortChunks`
-- that a chunk it asks for next ends below 2 ^ 32, `HasTables` that its tables fit their types,
-- and `IsByteOrder` that reading undoes writing and keeps lengths;
-- `IsPlatform` is all of these. The bit layout of the header is the one that its `bitfield!`
-- declares.
--
-- Not modelled: version strings (protocol/version.rs), the messages of downstream devices that
-- carry parameters or start an update, which the device does not serve, the other constructors and
-- decoders that only a client of the library needs, and the address of the update agent, which
-- nothing reads.
pub mod Base
pub mod Protocol
pub mod Codec
pub mod Message
pub mod Downstream
pub mod Transfer
pub mod Fd
pub mod Mctp
pub mod Control
pub mod Cmd
mod Tests
