-- ===== src/Fd/Invariant/Entries.antt =====
-- Room in the buffer for `GetFirmwareParametersResponse` and its component entries.
use pldm_lib.Base.{
  ℕ, ◌+◌, ◌≤◌, ◌≡◌, List, [], ◌∷◌, Option, none, some, ok, arith, inl, inr, ltb, take, length,
  length-append, Bool-cases, All,
}
use pldm_lib.Protocol.Header.{PldmMsgHeader, header_bytes}
use pldm_lib.Codec.{Cursor}
use pldm_lib.Codec.Order.{ByteOrder, IsByteOrder}
use pldm_lib.Message.Str.{ComponentParameterEntry, FirmwareParameters}
use pldm_lib.Message.Device.{start, put_prefix}
use pldm_lib.Message.Params.{
  pending_size, put_pending, entry_size, entries_size, used_entries, params_size, entry_fixed_bytes,
  params_fixed_bytes, encode_entry, encode_entries, encode_params, encode_params_response,
}
use pldm_lib.Fd.Invariant.Encoders.{HasRoom, put-HasRoom, next-HasRoom, NoPanic, done-NoPanic}
use pldm_lib.Fd.Invariant.Tables.{All-take, step-HasRoom, put_prefix-HasRoom}

abbrev pub PendingFits : Option (List ℕ) → ℕ → Type 0
PendingFits none len = Unit
PendingFits (some bs) len = len ≤ length bs

-- The length fields of an entry count bytes of its arrays, and the dates have eight bytes.
pub record IsEntry (e : ComponentParameterEntry) : Type 0 where
  pub active_fits : e.active_comp_ver_str_len ≤ length e.active_comp_ver_str
  pub pending_fits : PendingFits e.pending_comp_ver_str e.pending_comp_ver_str_len
  pub active_date : length e.active_comp_release_date ≡ 8
  pub pending_date : length e.pending_comp_release_date ≡ 8

-- The length fields and the count of the parameters stay within their arrays.
pub record IsParameters (p : FirmwareParameters) : Type 0 where
  pub active_fits : p.active_comp_image_set_ver_str_len ≤ length p.active_comp_image_set_ver_str
  pub pending_fits :
      PendingFits p.pending_comp_image_set_ver_str p.pending_comp_image_set_ver_str_len
  pub count_fits : p.comp_count ≤ length p.comp_param_table
  pub entries : All IsEntry p.comp_param_table

pub put_pending-HasRoom :
    (n len : ℕ) (o : Option (List ℕ)) (c : Cursor)
    → PendingFits o len
    → pending_size o len + n ≤ length c.room
    → HasRoom n (put_pending o len c)
put_pending-HasRoom n len none c fits room = omega arith
put_pending-HasRoom n len (some bs) c fits room = put_prefix-HasRoom n len bs c fits room

module _ (bo : ByteOrder) (law : IsByteOrder bo) where
  length-entry_fixed :
      (e : ComponentParameterEntry) → IsEntry e → length (entry_fixed_bytes bo e) ≡ 39
  unfolding entry_fixed_bytes
  length-entry_fixed e f = simp (length-append, law.length-write, f.active_date, f.pending_date)

  length-params_fixed : (p : FirmwareParameters) → length (params_fixed_bytes bo p) ≡ 10
  unfolding params_fixed_bytes
  length-params_fixed p = simp (length-append, law.length-write)

  pub encode_entry-HasRoom :
      (n : ℕ) (e : ComponentParameterEntry) (c : Cursor)
      → IsEntry e
      → entry_size e + n ≤ length c.room
      → HasRoom n (encode_entry bo e c)
  unfolding encode_entry entry_size
  encode_entry-HasRoom n e c f room =
      let a = e.active_comp_ver_str_len in
      let b = pending_size e.pending_comp_ver_str e.pending_comp_ver_str_len in
      elim (Bool-cases (ltb (length c.room) (39 + a + b))) [
        | inl q ↦ rw q tt
        | inr q ↦ rw q (
            step-HasRoom n (b + n) _ (put_pending e.pending_comp_ver_str e.pending_comp_ver_str_len)
              (step-HasRoom (b + n) (a + (b + n)) _ (put_prefix a e.active_comp_ver_str)
                (put-HasRoom (a + (b + n)) _ c (omega (arith, length-entry_fixed e f)))
                λ c'. put_prefix-HasRoom (b + n) a e.active_comp_ver_str c' f.active_fits)
              λ c'.
                put_pending-HasRoom n e.pending_comp_ver_str_len e.pending_comp_ver_str c'
                  f.pending_fits)
      ]

  pub encode_entries-HasRoom :
      (n : ℕ) (es : List ComponentParameterEntry) (c : Cursor)
      → All IsEntry es
      → entries_size es + n ≤ length c.room
      → HasRoom n (encode_entries bo es c)
  unfolding encode_entries entries_size
  encode_entries-HasRoom n [] c fits room = omega arith
  encode_entries-HasRoom n (e ∷ es) c fits room =
      step-HasRoom n (entries_size es + n) _ (encode_entries bo es)
        (encode_entry-HasRoom (entries_size es + n) e c fits.0 (omega arith))
        λ c'. encode_entries-HasRoom n es c' fits.1

  used_entries-ok :
      (p : FirmwareParameters)
      → IsParameters p
      → used_entries p ≡ ok (take p.comp_count p.comp_param_table)
  unfolding used_entries
  used_entries-ok p f = let q = f.count_fits in ground arith

  -- What `params_size` is, when the table is long enough.
  abbrev size_of : FirmwareParameters → ℕ
  size_of p =
      10
      + pending_size p.pending_comp_image_set_ver_str p.pending_comp_image_set_ver_str_len
      + p.active_comp_image_set_ver_str_len
      + entries_size (take p.comp_count p.comp_param_table)

  params_size-ok : (p : FirmwareParameters) → IsParameters p → params_size p ≡ ok (size_of p)
  unfolding params_size
  params_size-ok p f = rw (used_entries-ok p f)

  encode_params-HasRoom :
      (p : FirmwareParameters) (c : Cursor)
      → IsParameters p
      → size_of p ≤ length c.room
      → HasRoom 0 (encode_params bo p c)
  unfolding encode_params
  encode_params-HasRoom p c f room =
      let a = p.active_comp_image_set_ver_str_len in
      let b = pending_size p.pending_comp_image_set_ver_str p.pending_comp_image_set_ver_str_len in
      let es = take p.comp_count p.comp_param_table in
      let n = entries_size es in
      elim (Bool-cases (ltb (length c.room) (size_of p))) [
        | inl q ↦ rw (params_size-ok p f, q) tt
        | inr q ↦
            rw (params_size-ok p f, q, used_entries-ok p f)
              (step-HasRoom 0 n _ (encode_entries bo es)
                (step-HasRoom n (b + n) _
                  (put_pending p.pending_comp_image_set_ver_str
                    p.pending_comp_image_set_ver_str_len)
                  (step-HasRoom (b + n) (a + (b + n)) _
                    (put_prefix a p.active_comp_image_set_ver_str)
                    (put-HasRoom (a + (b + n)) _ c (omega (arith, length-params_fixed p)))
                    λ c'.
                      put_prefix-HasRoom (b + n) a p.active_comp_image_set_ver_str c' f.active_fits)
                  λ c'.
                    put_pending-HasRoom n p.pending_comp_image_set_ver_str_len
                      p.pending_comp_image_set_ver_str c' f.pending_fits)
                λ c' h.
                  encode_entries-HasRoom 0 es c'
                    (All-take IsEntry p.comp_count p.comp_param_table f.entries) (omega arith))
      ]

  pub encode_params-NoPanic :
      (hdr : PldmMsgHeader) (completion : ℕ) (p : FirmwareParameters) (buffer : List ℕ)
      → IsParameters p
      → NoPanic (encode_params_response bo hdr completion p buffer)
  unfolding encode_params_response header_bytes
  encode_params-NoPanic hdr completion p buffer f =
      elim (Bool-cases (ltb (length buffer) (4 + size_of p))) [
        | inl q ↦ rw (params_size-ok p f, q) tt
        | inr q ↦
            rw (params_size-ok p f, q)
              (done-NoPanic _ (
                step-HasRoom 0 (size_of p) _ (encode_params bo p)
                  (next-HasRoom (size_of p) (1 + size_of p) (completion ∷ []) _ (omega arith)
                    (put-HasRoom (1 + size_of p) (header_bytes hdr) (start buffer) (ground arith)))
                  λ c. encode_params-HasRoom p c f))
      ]
