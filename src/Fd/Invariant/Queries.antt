-- ===== src/Fd/Invariant/Queries.antt =====
-- Safety of `query_devid_rsp` and `get_firmware_parameters_rsp` of `fd_context.rs`, on a platform
-- that fills in descriptors and parameters whose length fields stay within their arrays.
use pldm_lib.Base.{
  ℕ, ◌-◌, ◌≤◌, ◌≡◌, List, [], ◌∷◌, ◌++◌, Result, Result-cases, arith, inl, inr, Bool-cases, ltb,
  ◌==◌, ◌||◌, if◌then◌else◌, replicate, take, length, All,
}
use pldm_lib.Protocol.Error.{fd_ops, device_identifiers_error}
use pldm_lib.Protocol.Base.{PldmBaseCompletionCode}
use pldm_lib.Protocol.Update.{FwUpdateCmd, max_descriptors_count}
use pldm_lib.Protocol.Header.{PldmMsgHeader, instance_id}
use pldm_lib.Codec.Order.{IsByteOrder}
use pldm_lib.Message.Short.{fw_response_header, header_request}
use pldm_lib.Message.Str.{default_params, FirmwareParameters}
use pldm_lib.Message.Device.{
  Descriptor, empty_descriptor, new_devid_response, QueryDeviceIdentifiersResponse, additional,
  encode_devid_response, additional_descriptors_max_count,
}
use pldm_lib.Message.Params.{encode_params_response}
use pldm_lib.Fd.Ops.{Target, FdOps, IsTyped}
use pldm_lib.Fd.Handler.{Ctx, ◌>>=◌, throw, call_mut, respond}
use pldm_lib.Fd.Responder.{
  answer_devid, query_devid_rsp, get_firmware_parameters_rsp, base_code, unchanged,
}
use pldm_lib.Fd.Invariant.{IsValid, IsSafe}
use pldm_lib.Fd.Invariant.Encoders.{header_request-Total}
use pldm_lib.Fd.Invariant.Tables.{IsDescriptor, All-take, encode_devid-NoPanic}
use pldm_lib.Fd.Invariant.Entries.{IsParameters, encode_params-NoPanic}
use pldm_lib.Fd.Invariant.Rules.{with_request-IsSafe, respond-IsSafe, call_mut-IsSafe}

-- The device identifiers and the firmware parameters that the platform fills in keep their length
-- fields within their arrays.
pub record HasTables {World : Type 0} (o : FdOps World) : Type 0 where
  pub identifiers :
      (w : World)
      → All IsDescriptor
          (o.get_device_identifiers (replicate max_descriptors_count empty_descriptor) w).1
  pub parameters : (w : World) → IsParameters (o.get_firmware_parms default_params w).1

empty-IsDescriptor : (n : ℕ) → All IsDescriptor (replicate n empty_descriptor)
empty-IsDescriptor ℕ.zero = tt
empty-IsDescriptor (ℕ.suc n) = (omega arith, empty-IsDescriptor n)

All-append : {A : Type 0} (P : A → Type 0) (xs ys : List A) → All P xs → All P ys → All P (xs ++ ys)
All-append P [] ys h k = k
All-append P (x ∷ xs) ys h k = (h.0, All-append P xs ys h.1 k)

new_devid-fits :
    (hdr : PldmMsgHeader) (code : ℕ) (d : Descriptor) (more : List Descriptor)
    (r : QueryDeviceIdentifiersResponse)
    → new_devid_response hdr code d more ≡ Result.ok r
    → IsDescriptor d
    → All IsDescriptor more
    → IsDescriptor r.initial_descriptor × All IsDescriptor (additional r.additional_descriptors)
unfolding new_devid_response
new_devid-fits hdr code d more r e first others =
    let n = additional_descriptors_max_count - length more in
    let all =
      All-append IsDescriptor more (replicate n empty_descriptor) others (empty-IsDescriptor n) in
    ground arith

module _ {W : Type 0} (t : Target W) (law : IsByteOrder t.order) where
  open t use {order, ops}

  answer_devid-IsSafe :
      (hdr : PldmMsgHeader) (count : ℕ) (ds : List Descriptor) (c : Ctx W)
      → 1 ≤ length ds
      → All IsDescriptor ds
      → IsValid c.internal
      → IsSafe (answer_devid t hdr count ds c)
  unfolding answer_devid
  answer_devid-IsSafe hdr count [] c n fits v = ground arith
  answer_devid-IsSafe hdr count (d ∷ ds) c n fits v =
      let more = take (count - 1) ds in
      let reply = fw_response_header (instance_id hdr) FwUpdateCmd.query_device_identifiers in
      let code = base_code PldmBaseCompletionCode.success in
      let rest = All-take IsDescriptor (count - 1) ds fits.1 in
      elim (Result-cases (new_devid_response reply code d more)) [
        | inl (r, e) ↦
            let (first, others) = new_devid-fits reply code d more r e fits.0 rest in
            rw (e, IsSafe, answer_devid)
              (respond-IsSafe (encode_devid_response order r) unchanged c
                (encode_devid-NoPanic order law r c.payload first others) v v)
        | inr (x, e) ↦ rw (e, IsSafe, answer_devid) v
      ]

  checked_devid-IsSafe :
      (hdr : PldmMsgHeader) (count : ℕ) (ds : List Descriptor) (c : Ctx W)
      → 1 ≤ length ds
      → All IsDescriptor ds
      → IsValid c.internal
      → IsSafe (
          (if count == 0 || ltb (length ds) count
              then throw (fd_ops device_identifiers_error)
              else answer_devid t hdr count ds)
            c)
  checked_devid-IsSafe hdr count ds c n fits v =
      elim (Bool-cases (count == 0 || ltb (length ds) count)) [
        | inl e ↦ rw (e, IsSafe) v
        | inr e ↦ rw e (answer_devid-IsSafe hdr count ds c n fits v)
      ]

  -- QueryDeviceIdentifiers in a valid state does not panic, whatever its bytes, and the state after
  -- it is valid.
  pub query_devid_rsp-IsSafe :
      (c : Ctx W) → IsTyped ops → HasTables ops → IsValid c.internal → IsSafe (query_devid_rsp t c)
  unfolding query_devid_rsp
  query_devid_rsp-IsSafe c y h v =
      let empty = replicate max_descriptors_count empty_descriptor in
      let checked = λ (hdr : PldmMsgHeader) (a : ℕ × List Descriptor).
        if a.0 == 0 || ltb (length a.1) a.0
        then throw (fd_ops device_identifiers_error)
        else answer_devid t hdr a.0 a.1 in
      with_request-IsSafe header_request
        (λ hdr. call_mut (ops.get_device_identifiers empty) >>= checked hdr) c header_request-Total
        v
        λ hdr q. call_mut-IsSafe (ops.get_device_identifiers empty) (checked hdr) c v λ count.
          checked_devid-IsSafe hdr count _ _ (omega (arith, y.devids_length empty c.world))
            (h.identifiers c.world) v

  -- GetFirmwareParameters in a valid state does not panic, whatever its bytes, and the state after
  -- it is valid.
  pub get_firmware_parameters_rsp-IsSafe :
      (c : Ctx W) → HasTables ops → IsValid c.internal → IsSafe (get_firmware_parameters_rsp t c)
  unfolding get_firmware_parameters_rsp
  get_firmware_parameters_rsp-IsSafe c h v =
      let encode = λ (hdr : PldmMsgHeader) (p : FirmwareParameters).
        encode_params_response order
          (fw_response_header (instance_id hdr) FwUpdateCmd.get_firmware_parameters)
          (base_code PldmBaseCompletionCode.success) p in
      let answer = λ (hdr : PldmMsgHeader).
        call_mut (ops.get_firmware_parms default_params) >>= λ a.
        respond (encode hdr a.1) unchanged in
      with_request-IsSafe header_request answer c header_request-Total v λ hdr q.
        call_mut-IsSafe (ops.get_firmware_parms default_params)
          (λ a. respond (encode hdr a.1) unchanged) c v
          λ u.
            respond-IsSafe (encode hdr (ops.get_firmware_parms default_params c.world).1) unchanged
              _
              (encode_params-NoPanic order law
                (fw_response_header (instance_id hdr) FwUpdateCmd.get_firmware_parameters)
                (base_code PldmBaseCompletionCode.success) _ c.payload (h.parameters c.world))
              v v
