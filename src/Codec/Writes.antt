-- ===== src/Codec/Writes.antt =====
-- The encoders that write field by field at a growing offset write their fields one behind the
-- other, as one write of all the bytes would, and do not panic.
use pldm_lib.Base.{
  ℕ, ◌≤◌, ◌≡◌, refl, List, [], ◌∷◌, ◌++◌, ok, err, arith, subst, sym, length, drop, ltb,
  length-append, length-drop, append_assoc, append-nil, ◌>>=◌, if◌then◌else◌, Bool-cases, inl, inr,
}
use pldm_lib.Protocol.Error.{buffer_too_short}
use pldm_lib.Codec.Defs.{CodecResult, Cursor, Reader, Written, decode, put, finish, write_to_prefix}
use pldm_lib.Codec.Laws.{write_to_prefix_ok}
use pldm_lib.Codec.Round.{Reads, decode-write, decode-append}

-- `f` writes `bs` at the cursor, if there is room.
pub record Writes (bs : List ℕ) (f : Cursor → CodecResult Cursor) : Type 0 where
  pub at :
      (c : Cursor)
      → length bs ≤ length c.room
      → f c ≡ ok (record { done = c.done ++ bs; room = drop (length bs) c.room })

pub put-Writes : (bs : List ℕ) → Writes bs (put bs)
unfolding put
put-Writes bs = record { at = λ c h. ground arith }

drop-nil : (n : ℕ) → drop {A = ℕ} n [] ≡ []
drop-nil ℕ.zero = refl
drop-nil (ℕ.suc n) = refl

drop-append_length2 :
    (bs bs' xs : List ℕ) → drop (length bs') (drop (length bs) xs) ≡ drop (length (bs ++ bs')) xs
drop-append_length2 [] bs' xs = refl
drop-append_length2 (b ∷ bs) bs' [] = drop-nil (length bs')
drop-append_length2 (b ∷ bs) bs' (x ∷ xs) = drop-append_length2 bs bs' xs

pub then-Writes :
    (f g : Cursor → CodecResult Cursor) (bs bs' : List ℕ)
    → Writes bs f
    → Writes bs' g
    → Writes (bs ++ bs') (λ c. f c >>= g)
then-Writes f g bs bs' h k = record {
  at = λ c fits.
      let room = length-append bs bs' in
      let c' : Cursor = record { done = c.done ++ bs; room = drop (length bs) c.room } in
      rw
        (
          h.at c (omega (arith, room)),
          ◌>>=◌,
          k.at c' (omega (arith, room, length-drop (length bs) c.room)),
          append_assoc c.done bs bs',
          drop-append_length2 bs bs' c.room,
        )
        refl;
}

pub ok-Writes : Writes [] (λ c. ok c)
ok-Writes = record { at = λ c h. rw (append-nil c.done) refl }

-- An encoder that compares the buffer with the size of its bytes first, and then writes them field
-- by field, does what one write of the bytes does.
pub encoded :
    (f : Cursor → CodecResult Cursor) (bs buffer : List ℕ) (size : ℕ)
    → Writes bs f
    → length bs ≡ size
    → (if ltb (length buffer) size
        then err buffer_too_short
        else (f (record { done = []; room = buffer }) >>= λ c. ok (finish c)))
      ≡ write_to_prefix bs buffer
unfolding write_to_prefix finish
encoded f bs buffer size h e = elim (Bool-cases (ltb (length buffer) size)) [
  | inl q ↦ ground arith
  | inr q ↦ rw (q, h.at (record { done = []; room = buffer }) (ground arith), ◌>>=◌) (ground arith)
]

-- What the round trip of a message is: an encoder that was given room returns the size of the
-- message, and the message is decoded from the buffer after it.
abbrev pub RoundTrip : {A : Type 0} → Reader A → A → ℕ → CodecResult Written → Type 0
RoundTrip r a size m = (out : Written) × (m ≡ ok out) × (out.0 ≡ size) × (decode r out.1 ≡ ok a)

pub write-round :
    {A : Type 0} (r : Reader A) (a : A) (bs buffer : List ℕ) (size : ℕ)
    → Reads r a bs
    → length bs ≡ size
    → size ≤ length buffer
    → RoundTrip r a size (write_to_prefix bs buffer)
write-round r a bs buffer size k e h =
    let w = write_to_prefix_ok bs buffer (omega (arith, e)) in
    ((length bs, bs ++ drop (length bs) buffer), w, e, decode-write r a bs buffer _ _ k w)

pub encoded-round :
    {A : Type 0} (r : Reader A) (a : A) (f : Cursor → CodecResult Cursor) (bs buffer : List ℕ)
    (size : ℕ)
    → Writes bs f
    → Reads r a bs
    → length bs ≡ size
    → size ≤ length buffer
    → RoundTrip r a size (
        if ltb (length buffer) size
        then err buffer_too_short
        else (f (record { done = []; room = buffer }) >>= λ c. ok (finish c)))
encoded-round r a f bs buffer size w k e h =
    subst (RoundTrip r a size) (sym (encoded f bs buffer size w e))
      (write-round r a bs buffer size k e h)

-- The same for an encoder whose test of the buffer's length stands inside `f`.
pub written-round :
    {A : Type 0} (r : Reader A) (a : A) (f : Cursor → CodecResult Cursor) (bs buffer : List ℕ)
    (size : ℕ)
    → Writes bs f
    → Reads r a bs
    → length bs ≡ size
    → size ≤ length buffer
    → RoundTrip r a size (f (record { done = []; room = buffer }) >>= λ c. ok (finish c))
unfolding finish
written-round r a f bs buffer size w k e h =
    let c : Cursor = record { done = bs; room = drop (length bs) buffer } in
    (
      finish c,
      rw (w.at (record { done = []; room = buffer }) (omega (arith, e)), ◌>>=◌) refl,
      e,
      decode-append r a bs (drop (length bs) buffer) k,
    )
