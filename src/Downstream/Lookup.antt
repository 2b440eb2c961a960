-- ===== src/Downstream/Lookup.antt =====
-- `try_at` on a portion that holds a list of devices is indexing into that list.
use pldm_lib.Base.{
  ℕ, zero, suc, ◌+◌, ◌^◌, ◌<◌, ◌≡◌, refl, sym, ◌∙◌, List, [], ◌∷◌, ◌++◌, map, some, ok, arith,
  length, length-append, append_assoc, All,
}
use pldm_lib.Codec.{int, decode}
use pldm_lib.Codec.Order.{ByteOrder, IsByteOrder}
use pldm_lib.Codec.Round.{Reads, Reads-int, Reads-pure, Reads-last, int-Reads, decode-append}
use pldm_lib.Downstream.Devices.{
  PortionIter, portion_start, portion_header, try_at_from, announced, try_at,
}
use pldm_lib.Downstream.Wire.{descriptors_wire}
use pldm_lib.Downstream.Entries.{
  Entry, IsEntry, lookup, here, elsewhere, device_of, header_wire, entry_wire, entries_wire,
  front_wire, portion_wire, length-header, offset_of, at_end, next_device-entry,
}

module _ (bo : ByteOrder) (law : IsByteOrder bo) where
  open bo use {write_int}

  behind :
      (current : ℕ) (front : List ℕ) (e : Entry)
      → offset_of bo law (record {
        current = current + 1;
        offset_next = length front + 3 + length (descriptors_wire bo law e.descriptors);
      })
        ≡ length (front ++ entry_wire bo law e)
  behind current front e = ground (
    arith,
    length-append front (entry_wire bo law e),
    length-append (header_wire bo law e) (descriptors_wire bo law e.descriptors),
    length-header bo law e,
  )

  -- The walk from an entry on finds the device of the index, counted from that entry.
  try_at_from-lookup :
      (portion : List ℕ) (number fuel index i k : ℕ) (s : PortionIter) (es : List Entry)
      (front : List ℕ)
      → All IsEntry es
      → decode (portion_header bo) portion ≡ ok number
      → portion ≡ front ++ entries_wire bo law es
      → offset_of bo law s ≡ length front
      → s.current ≡ i
      → i + length es ≡ number
      → length es < fuel
      → index ≡ i + k
      → try_at_from bo fuel portion index i s ≡ some (ok (lookup (map (device_of bo law) es) k))
  unfolding try_at_from
  try_at_from-lookup portion number zero index i k s es front hs read split at cur num fits idx =
      absurd (omega arith)
  try_at_from-lookup portion number (suc fuel) index i k s [] front hs read split at cur num fits
        idx =
      rw (at_end bo law portion s number read (omega (arith, cur, num)), try_at_from) refl
  try_at_from-lookup portion number (suc fuel) index i zero s (e ∷ es) front hs read split at cur
        num fits idx =
      rw
        (
          next_device-entry bo law portion s number e front (entries_wire bo law es) hs.0 read
              (omega (arith, cur, num)) split at,
          try_at_from,
          here i index (omega (arith, idx)),
        )
        refl
  try_at_from-lookup portion number (suc fuel) index i (suc k) s (e ∷ es) front hs read split at cur
        num fits idx =
      rw
        (
          next_device-entry bo law portion s number e front (entries_wire bo law es) hs.0 read
              (omega (arith, cur, num)) split at,
          try_at_from,
          elsewhere i index (omega (arith, idx)),
        )
        (try_at_from-lookup portion number fuel index (i + 1) k _ es (front ++ entry_wire bo law e)
          hs.1 read
          (split ∙ sym (append_assoc front (entry_wire bo law e) (entries_wire bo law es)))
          (behind s.current front e) (omega (arith, cur)) (omega (arith, num)) (omega (arith, fits))
          (omega (arith, idx)))

  length-front : (es : List Entry) → 6 ≡ length (front_wire bo law es)
  length-front es = omega (
    arith,
    length-append (write_int 4 (length (entries_wire bo law es))) (write_int 2 (length es)),
    law.length-write 4 (length (entries_wire bo law es)),
    law.length-write 2 (length es),
  )

  portion_header-Reads :
      (es : List Entry)
      → length es < 256 ^ 2
      → length (entries_wire bo law es) < 256 ^ 4
      → Reads (portion_header bo) (length es) (front_wire bo law es)
  unfolding portion_header
  portion_header-Reads es few short =
      Reads-int bo law _ 4 (length (entries_wire bo law es)) _ _ short (
        Reads-last (int bo 2) _ (length es) _ _ (int-Reads bo law 2 (length es) few) (Reads-pure _))

  announced-number :
      (portion : List ℕ) (number : ℕ)
      → decode (portion_header bo) portion ≡ ok number
      → announced bo portion ≡ number
  unfolding announced
  announced-number portion number read = rw (read, announced) refl

  -- `try_at` of a fresh response on the portion that holds a list of devices, with any
  -- descriptors whose fields fit their widths, with zeros behind their data in their arrays,
  -- returns the device of that index, and the error InvalidData behind the last one, when the
  -- number and the bytes of the devices fit the portion's header, in a lawful byte order.
  pub try_at-lookup :
      (es : List Entry) (index : ℕ)
      → All IsEntry es
      → length es < 256 ^ 2
      → length (entries_wire bo law es) < 256 ^ 4
      → try_at bo (portion_wire bo law es) portion_start index
        ≡ some (ok (lookup (map (device_of bo law) es) index))
  unfolding try_at
  try_at-lookup es index hs few short =
      let read =
        decode-append (portion_header bo) (length es) (front_wire bo law es)
          (entries_wire bo law es) (portion_header-Reads es few short) in
      rw (announced-number (portion_wire bo law es) (length es) read) (
        try_at_from-lookup (portion_wire bo law es) (length es) (suc (length es)) index 0 index
          portion_start es (front_wire bo law es) hs read refl (length-front es) refl (omega arith)
          (omega arith) (omega arith))
