-- ===== src/Fd/Internal.antt =====
-- `pldm-interface/src/firmware_device/fd_internal.rs`: what the device remembers between messages.
-- A method that takes `&mut self` returns the new value. `UpdateOptionFlags` is its u32, and the
-- address of the update agent, which nothing reads, is left out.
use pldm_lib.Base.{
  ℕ, ◌+◌, ◌%◌, ◌^◌, min, Bool, true, false, ◌||◌, Option, none, some, Outcome, ok, panic, ltb, leb,
  if◌then◌else◌,
}
use pldm_lib.Protocol.Error.{MsgHandlerError}
use pldm_lib.Protocol.Update.{
  FirmwareDeviceState, idle, learn_components, ready_xfer, download, verify, apply, activate,
  max_padding_size,
}
use pldm_lib.Protocol.Results.{
  GetStatusReasonCode, activate_fw, learn_component_timeout, ready_xfer_timeout, download_timeout,
  verify_timeout, apply_timeout,
}
use pldm_lib.Message.Str.{FirmwareComponent, default_component}

abbrev pub fd_max_xfer_size : ℕ
fd_max_xfer_size = 512

abbrev pub default_fd_t1_timeout : ℕ
default_fd_t1_timeout = 120000

abbrev pub default_fd_t2_retry_time : ℕ
default_fd_t2_retry_time = 5000

abbrev pub instance_id_count : ℕ
instance_id_count = 32

pub data FdReqState : Type 0 where
  unused ready sent failed : FdReqState

pub FdReqState-discrete : Discrete FdReqState
FdReqState-discrete = hlevel

pub record FdReq : Type 0 where
  pub state : FdReqState
  pub complete : Bool
  pub result : Option ℕ
  pub instance_id : Option ℕ
  pub command : Option ℕ
  pub sent_time : Option ℕ

abbrev pub new_fd_req : FdReq
new_fd_req = record {
  state = unused;
  complete = false;
  result = none;
  instance_id = none;
  command = none;
  sent_time = none;
}

-- `DownloadState` has the offset and the length of the request; the others have the progress.
pub data InitiatorModeState : Type 0 where
  downloading : ℕ → ℕ → InitiatorModeState
  verifying : ℕ → InitiatorModeState
  applying : ℕ → InitiatorModeState

pub record FdInternal : Type 0 where
  pub state : FirmwareDeviceState
  pub prev_state : FirmwareDeviceState
  pub reason : Option GetStatusReasonCode
  pub update_comp : FirmwareComponent
  pub update_flags : ℕ
  pub max_xfer_size : ℕ
  pub req : FdReq
  pub initiator_mode_state : InitiatorModeState
  pub fd_t1_update_ts : ℕ
  pub fd_t1_timeout : ℕ
  pub fd_t2_retry_time : ℕ

unfoldable pub new_fd_internal : ℕ → ℕ → ℕ → FdInternal
new_fd_internal xfer t1 t2 = record {
  state = idle;
  prev_state = idle;
  reason = none;
  update_comp = default_component;
  update_flags = 0;
  max_xfer_size = xfer;
  req = new_fd_req;
  initiator_mode_state = downloading 0 0;
  fd_t1_update_ts = 0;
  fd_t1_timeout = t1;
  fd_t2_retry_time = t2;
}

unfoldable pub default_fd_internal : FdInternal
unfolding new_fd_internal
default_fd_internal =
    new_fd_internal fd_max_xfer_size default_fd_t1_timeout default_fd_t2_retry_time

-- the derived `==` of states
abbrev pub state_eq : FirmwareDeviceState → FirmwareDeviceState → Bool
state_eq idle idle = true
state_eq learn_components learn_components = true
state_eq ready_xfer ready_xfer = true
state_eq download download = true
state_eq verify verify = true
state_eq apply apply = true
state_eq activate activate = true
state_eq _ _ = false

abbrev pub req_state_eq : FdReqState → FdReqState → Bool
req_state_eq unused unused = true
req_state_eq ready ready = true
req_state_eq sent sent = true
req_state_eq failed failed = true
req_state_eq _ _ = false

unfoldable pub is_update_mode : FdInternal → Bool
is_update_mode i = if state_eq i.state idle then false else true

unfoldable pub set_fd_state : FirmwareDeviceState → FdInternal → FdInternal
set_fd_state s i = if state_eq i.state s then i else record i { prev_state = i.state; state = s }

unfoldable pub set_fd_idle : GetStatusReasonCode → FdInternal → FdInternal
set_fd_idle code i =
    if state_eq i.state idle
    then i
    else record i { prev_state = i.state; state = idle; reason = some code }

-- `none` is the early return in `Idle`.
abbrev timeout_reason : FirmwareDeviceState → Option GetStatusReasonCode
timeout_reason idle = none
timeout_reason learn_components = some learn_component_timeout
timeout_reason ready_xfer = some ready_xfer_timeout
timeout_reason download = some download_timeout
timeout_reason verify = some verify_timeout
timeout_reason apply = some apply_timeout
timeout_reason activate = some activate_fw

unfoldable pub fd_idle_timeout : FdInternal → FdInternal
unfolding set_fd_idle
fd_idle_timeout i = elim (timeout_reason i.state) [ none ↦ i | some code ↦ set_fd_idle code i ]

-- `transfer_size as u32`
unfoldable pub set_xfer_size : ℕ → FdInternal → FdInternal
set_xfer_size n i = record i { max_xfer_size = n % 2 ^ 32 }

unfoldable pub set_component : FirmwareComponent → FdInternal → FdInternal
set_component c i = record i { update_comp = c }

unfoldable pub set_update_flags : ℕ → FdInternal → FdInternal
set_update_flags f i = record i { update_flags = f }

unfoldable pub set_fd_req :
    FdReqState → Bool → Option ℕ → Option ℕ → Option ℕ → Option ℕ → FdInternal → FdInternal
set_fd_req s complete result id cmd time i = record i {
  req = record {
    state = s;
    complete = complete;
    result = result;
    instance_id = id;
    command = cmd;
    sent_time = time;
  };
}

-- `id + 1` is u8 arithmetic: it panics at 255.
abbrev next_id : Option ℕ → Outcome MsgHandlerError ℕ
next_id none = ok 1
next_id (some id) = if ltb id 255 then ok ((id + 1) % instance_id_count) else panic

-- The id is stored and returned, and the caller unwraps it.
unfoldable pub alloc_next_instance_id : FdInternal → Outcome MsgHandlerError ℕ × FdInternal
alloc_next_instance_id i = elim (next_id i.req.instance_id) [
  | ok id ↦ (ok id, record i { req = record (i.req) { instance_id = some id } })
  | _ ↦ (panic, i)
]

abbrev pub size_or_zero : Option ℕ → ℕ
size_or_zero none = 0
size_or_zero (some n) = n

-- The sums are u32 arithmetic: they panic from 2 ^ 32 on. The first test is made alone, and ends
-- the function if it holds.
unfoldable pub get_fd_download_chunk : ℕ → ℕ → FdInternal → Outcome MsgHandlerError (Option (ℕ × ℕ))
get_fd_download_chunk offset length i =
    let size = size_or_zero i.update_comp.comp_image_size in
    if state_eq i.state download
    then (if ltb size offset
        then ok none
        else if leb (2 ^ 32) (offset + length) || leb (2 ^ 32) (size + max_padding_size)
        then panic
        else if ltb (size + max_padding_size) (offset + length)
        then ok none
        else ok (some (offset, min length i.max_xfer_size)))
    else ok none

abbrev download_state : InitiatorModeState → Option (ℕ × ℕ)
download_state (downloading offset length) = some (offset, length)
download_state _ = none

unfoldable pub get_fd_download_state : FdInternal → Option (ℕ × ℕ)
get_fd_download_state i = download_state i.initiator_mode_state

abbrev with_download : ℕ → ℕ → InitiatorModeState → InitiatorModeState
with_download offset length (downloading _ _) = downloading offset length
with_download offset length m = m

unfoldable pub set_fd_download_state : ℕ → ℕ → FdInternal → FdInternal
set_fd_download_state offset length i = record i {
  initiator_mode_state = with_download offset length i.initiator_mode_state;
}

unfoldable pub set_initiator_mode : InitiatorModeState → FdInternal → FdInternal
set_initiator_mode m i = record i { initiator_mode_state = m }

abbrev with_verify : ℕ → InitiatorModeState → InitiatorModeState
with_verify p (verifying _) = verifying p
with_verify p m = m

abbrev with_apply : ℕ → InitiatorModeState → InitiatorModeState
with_apply p (applying _) = applying p
with_apply p m = m

unfoldable pub set_fd_verify_progress : ℕ → FdInternal → FdInternal
set_fd_verify_progress p i = record i {
  initiator_mode_state = with_verify p i.initiator_mode_state;
}

unfoldable pub set_fd_apply_progress : ℕ → FdInternal → FdInternal
set_fd_apply_progress p i = record i { initiator_mode_state = with_apply p i.initiator_mode_state }

abbrev verify_progress : InitiatorModeState → Option ℕ
verify_progress (verifying p) = some p
verify_progress _ = none

abbrev apply_progress : InitiatorModeState → Option ℕ
apply_progress (applying p) = some p
apply_progress _ = none

unfoldable pub get_fd_verify_progress : FdInternal → Option ℕ
get_fd_verify_progress i = verify_progress i.initiator_mode_state

unfoldable pub get_fd_apply_progress : FdInternal → Option ℕ
get_fd_apply_progress i = apply_progress i.initiator_mode_state

unfoldable pub set_fd_t1_update_ts : ℕ → FdInternal → FdInternal
set_fd_t1_update_ts t i = record i { fd_t1_update_ts = t }
