-- ===== src/Message/Round.antt =====
-- Round trips of the requests with a version string.
use pldm_lib.Base.{
  ℕ, ◌+◌, ◌^◌, ◌≤◌, ◌<◌, ◌≡◌, false, err, if◌then◌else◌, List, [], ◌++◌, arith, length, take, ltb,
  length-append, length-take, append_assoc, ◌>>=◌, subst, sym,
}
use pldm_lib.Protocol.Update.{max_ver_str_len}
use pldm_lib.Protocol.Header.{header_bytes}
use pldm_lib.Codec.{Reader, put, prefix, pure, ◌>>=◌ as bind, slice}
use pldm_lib.Codec.Order.{ByteOrder, IsByteOrder}
use pldm_lib.Codec.Round.{
  Reads, Reads-header, Reads-byte, Reads-int, Reads-pure, Reads-last, slice-Reads,
}
use pldm_lib.Codec.Writes.{Writes, put-Writes, then-Writes, RoundTrip, encoded-round}
use pldm_lib.Message.Device.{start, done_writing, put_prefix}
use pldm_lib.Protocol.Error.{buffer_too_short}
use pldm_lib.Message.Update.{
  RequestUpdateRequest, PassComponentTableRequest, UpdateComponentRequest, request_update_request,
  pass_component_request, update_component_request, version_bytes, into_array,
}
use pldm_lib.Message.Requests.{
  request_update_fixed, encode_request_update, pass_component_fixed, encode_pass_component,
  update_component_fixed, encode_update_component,
}

-- An array that holds a string of length `len`: zeros stand behind the string.
pub record IsVersion (len : ℕ) (array : List ℕ) : Type 0 where
  pub fits : len ≤ max_ver_str_len
  pub padded : array ≡ into_array (take len array)
  pub same_length : length (take len array) ≡ len

pub put_prefix-Writes :
    (len : ℕ) (bs : List ℕ) → length (take len bs) ≡ len → Writes (take len bs) (put_prefix len bs)
unfolding put_prefix prefix put
put_prefix-Writes len bs h = record { at = λ c room. ground (arith, length-take len bs) }

short : (len : ℕ) → len ≤ max_ver_str_len → ltb max_ver_str_len len ≡ false
short len h = ground arith

pub Reads-version :
    {B : Type 0} (f : List ℕ → Reader B) (len : ℕ) (array : List ℕ) (b : B)
    → IsVersion len array
    → Reads (f array) b []
    → Reads (bind (version_bytes len) f) b (take len array)
unfolding version_bytes
Reads-version f len array b v h =
    let bs = take len array in
    let version = subst (λ a. Reads (pure (into_array bs)) a []) (sym v.padded) (Reads-pure _) in
    Reads-last (version_bytes len) f array b bs
      (rw (short len v.fits) (
        Reads-last (slice len) (λ s. pure (into_array s)) bs array bs
          (subst (λ n. Reads (slice n) bs bs) v.same_length (slice-Reads bs)) version))
      h

-- The round trip of a request of `n` fixed bytes and a string.
with_string-round :
    {A : Type 0} (reader : Reader A) (a : A) (fixed : List ℕ) (n len : ℕ) (array buffer : List ℕ)
    → Reads reader a (fixed ++ take len array)
    → length fixed ≡ n
    → length (take len array) ≡ len
    → n + len ≤ length buffer
    → RoundTrip reader a (n + len) (
        if ltb (length buffer) (n + len)
        then err buffer_too_short
        else done_writing (put fixed (start buffer) >>= put_prefix len array))
with_string-round reader a fixed n len array buffer h e v room =
    encoded-round reader a (λ c. put fixed c >>= put_prefix len array) (fixed ++ take len array)
      buffer (n + len)
      (then-Writes (put fixed) (put_prefix len array) fixed (take len array) (put-Writes fixed)
        (put_prefix-Writes len array v))
      h (omega (arith, length-append fixed (take len array), e, v)) room

module _ (bo : ByteOrder) (law : IsByteOrder bo) where
  -- The fields of a RequestUpdate fit their widths, and zeros stand behind its string.
  pub record IsRequestUpdate (r : RequestUpdateRequest) : Type 0 where
    pub max_transfer_size : r.max_transfer_size < 256 ^ 4
    pub num_of_comp : r.num_of_comp < 256 ^ 2
    pub pkg_data_len : r.pkg_data_len < 256 ^ 2
    pub version : IsVersion r.comp_image_set_ver_str_len r.comp_image_set_ver_str

  request_update-Reads :
      (r : RequestUpdateRequest)
      → IsRequestUpdate r
      → Reads
          (request_update_request bo)
          r
          (request_update_fixed bo r ++ take r.comp_image_set_ver_str_len r.comp_image_set_ver_str)
  unfolding request_update_request request_update_fixed
  request_update-Reads r h = simp append_assoc (
      Reads-header _ r.hdr _ _ (
        Reads-int bo law _ 4 r.max_transfer_size _ _ h.max_transfer_size (
          Reads-int bo law _ 2 r.num_of_comp _ _ h.num_of_comp (
            Reads-byte _ r.max_outstanding_transfer_req _ _ (
              Reads-int bo law _ 2 r.pkg_data_len _ _ h.pkg_data_len (
                Reads-byte _ r.comp_image_set_ver_str_type _ _ (
                  Reads-byte _ r.comp_image_set_ver_str_len _ _ (
                    Reads-version _ r.comp_image_set_ver_str_len _ _ h.version
                      (Reads-pure _)))))))))

  length-request_update : (r : RequestUpdateRequest) → length (request_update_fixed bo r) ≡ 14
  unfolding request_update_fixed header_bytes
  length-request_update r = simp (length-append, law.length-write)

  -- A RequestUpdate whose fields fit their widths, with zeros behind its version string in its
  -- array, is written to every buffer that has room for it, and decodes to itself from there,
  -- in a lawful byte order.
  pub request_update-round :
      (r : RequestUpdateRequest) (buffer : List ℕ)
      → IsRequestUpdate r
      → 14 + r.comp_image_set_ver_str_len ≤ length buffer
      → RoundTrip
          (request_update_request bo)
          r
          (14 + r.comp_image_set_ver_str_len)
          (encode_request_update bo r buffer)
  unfolding encode_request_update
  request_update-round r buffer h room =
      with_string-round (request_update_request bo) r (request_update_fixed bo r) 14
        r.comp_image_set_ver_str_len r.comp_image_set_ver_str buffer (request_update-Reads r h)
        (length-request_update r) h.version.same_length room

  -- The fields of a PassComponentTable fit their widths, and zeros stand behind its string.
  pub record IsPassComponent (r : PassComponentTableRequest) : Type 0 where
    pub comp_classification : r.comp_classification < 256 ^ 2
    pub comp_identifier : r.comp_identifier < 256 ^ 2
    pub comp_comparison_stamp : r.comp_comparison_stamp < 256 ^ 4
    pub version : IsVersion r.comp_ver_str_len r.comp_ver_str

  pass_component-Reads :
      (r : PassComponentTableRequest)
      → IsPassComponent r
      → Reads
          (pass_component_request bo)
          r
          (pass_component_fixed bo r ++ take r.comp_ver_str_len r.comp_ver_str)
  unfolding pass_component_request pass_component_fixed
  pass_component-Reads r h = simp append_assoc (
      Reads-header _ r.hdr _ _ (
        Reads-byte _ r.transfer_flag _ _ (
          Reads-int bo law _ 2 r.comp_classification _ _ h.comp_classification (
            Reads-int bo law _ 2 r.comp_identifier _ _ h.comp_identifier (
              Reads-byte _ r.comp_classification_index _ _ (
                Reads-int bo law _ 4 r.comp_comparison_stamp _ _ h.comp_comparison_stamp (
                  Reads-byte _ r.comp_ver_str_type _ _ (
                    Reads-byte _ r.comp_ver_str_len _ _
                      (Reads-version _ r.comp_ver_str_len _ _ h.version (Reads-pure _))))))))))

  length-pass_component : (r : PassComponentTableRequest) → length (pass_component_fixed bo r) ≡ 15
  unfolding pass_component_fixed header_bytes
  length-pass_component r = simp (length-append, law.length-write)

  -- A PassComponentTable whose fields fit their widths, with zeros behind its version string in
  -- its array, is written to every buffer that has room for it, and decodes to itself from
  -- there, in a lawful byte order.
  pub pass_component-round :
      (r : PassComponentTableRequest) (buffer : List ℕ)
      → IsPassComponent r
      → 15 + r.comp_ver_str_len ≤ length buffer
      → RoundTrip
          (pass_component_request bo)
          r
          (15 + r.comp_ver_str_len)
          (encode_pass_component bo r buffer)
  unfolding encode_pass_component
  pass_component-round r buffer h room =
      with_string-round (pass_component_request bo) r (pass_component_fixed bo r) 15
        r.comp_ver_str_len r.comp_ver_str buffer (pass_component-Reads r h)
        (length-pass_component r) h.version.same_length room

  -- The fields of an UpdateComponent fit their widths, and zeros stand behind its string.
  pub record IsUpdateComponent (r : UpdateComponentRequest) : Type 0 where
    pub comp_classification : r.comp_classification < 256 ^ 2
    pub comp_identifier : r.comp_identifier < 256 ^ 2
    pub comp_comparison_stamp : r.comp_comparison_stamp < 256 ^ 4
    pub comp_image_size : r.comp_image_size < 256 ^ 4
    pub update_option_flags : r.update_option_flags < 256 ^ 4
    pub version : IsVersion r.comp_ver_str_len r.comp_ver_str

  update_component-Reads :
      (r : UpdateComponentRequest)
      → IsUpdateComponent r
      → Reads
          (update_component_request bo)
          r
          (update_component_fixed bo r ++ take r.comp_ver_str_len r.comp_ver_str)
  unfolding update_component_request update_component_fixed
  update_component-Reads r h = simp append_assoc (
      Reads-header _ r.hdr _ _ (
        Reads-int bo law _ 2 r.comp_classification _ _ h.comp_classification (
          Reads-int bo law _ 2 r.comp_identifier _ _ h.comp_identifier (
            Reads-byte _ r.comp_classification_index _ _ (
              Reads-int bo law _ 4 r.comp_comparison_stamp _ _ h.comp_comparison_stamp (
                Reads-int bo law _ 4 r.comp_image_size _ _ h.comp_image_size (
                  Reads-int bo law _ 4 r.update_option_flags _ _ h.update_option_flags (
                    Reads-byte _ r.comp_ver_str_type _ _ (
                      Reads-byte _ r.comp_ver_str_len _ _
                        (Reads-version _ r.comp_ver_str_len _ _ h.version (Reads-pure _)))))))))))

  length-update_component : (r : UpdateComponentRequest) → length (update_component_fixed bo r) ≡ 22
  unfolding update_component_fixed header_bytes
  length-update_component r = simp (length-append, law.length-write)

  -- An UpdateComponent whose fields fit their widths, with zeros behind its version string in
  -- its array, is written to every buffer that has room for it, and decodes to itself from
  -- there, in a lawful byte order.
  pub update_component-round :
      (r : UpdateComponentRequest) (buffer : List ℕ)
      → IsUpdateComponent r
      → 22 + r.comp_ver_str_len ≤ length buffer
      → RoundTrip
          (update_component_request bo)
          r
          (22 + r.comp_ver_str_len)
          (encode_update_component bo r buffer)
  unfolding encode_update_component
  update_component-round r buffer h room =
      with_string-round (update_component_request bo) r (update_component_fixed bo r) 22
        r.comp_ver_str_len r.comp_ver_str buffer (update_component-Reads r h)
        (length-update_component r) h.version.same_length room
