-- ===== src/Codec/Round.antt =====
-- What bytes a reader reads as what, one field after the other, whatever stands behind them.
use pldm_lib.Base.{
  ℕ, ◌^◌, ◌<◌, ◌≡◌, refl, List, [], ◌∷◌, ◌++◌, ok, arith, length, drop, take-append_length,
  drop-append_length, length-append, append_assoc, subst,
}
use pldm_lib.Protocol.Header.{PldmMsgHeader, header_bytes}
use pldm_lib.Codec.Defs.{Reader, ◌>>=◌, pure, byte, slice, header, int, decode, write_to_prefix}
use pldm_lib.Codec.Order.{ByteOrder, IsByteOrder}

-- `bs` is read as `a`.
pub record Reads {A : Type 0} (r : Reader A) (a : A) (bs : List ℕ) : Type 0 where
  pub at : (rest : List ℕ) → r (bs ++ rest) ≡ ok (a, rest)

module _ {A B : Type 0} where
  pub Reads-bind :
      (r : Reader A) (f : A → Reader B) (a : A) (b : B) (bs bs' : List ℕ)
      → Reads r a bs
      → Reads (f a) b bs'
      → Reads (r >>= f) b (bs ++ bs')
  Reads-bind r f a b bs bs' h k = record {
    at = λ rest. rw (append_assoc bs bs' rest, ◌>>=◌, h.at (bs' ++ rest)) (k.at rest);
  }

  pub Reads-last :
      (r : Reader A) (f : A → Reader B) (a : A) (b : B) (bs : List ℕ)
      → Reads r a bs
      → Reads (f a) b []
      → Reads (r >>= f) b bs
  Reads-last r f a b bs h k = record { at = λ rest. rw (◌>>=◌, h.at rest) (k.at rest) }

module _ {B : Type 0} where
  pub Reads-pure : (b : B) → Reads (pure b) b []
  Reads-pure b = record { at = λ rest. refl }

  pub Reads-byte :
      (f : ℕ → Reader B) (x : ℕ) (b : B) (bs : List ℕ)
      → Reads (f x) b bs
      → Reads (byte >>= f) b (x ∷ bs)
  unfolding byte
  Reads-byte f x b bs h = record { at = λ rest. h.at rest }

  pub Reads-header :
      (f : PldmMsgHeader → Reader B) (hdr : PldmMsgHeader) (b : B) (bs : List ℕ)
      → Reads (f hdr) b bs
      → Reads (header >>= f) b (header_bytes hdr ++ bs)
  unfolding header header_bytes
  Reads-header f hdr b bs h = record { at = λ rest. h.at rest }

pub slice-Reads : (bs : List ℕ) → Reads (slice (length bs)) bs bs
unfolding slice
slice-Reads bs = record {
  at = λ rest.
      ground (arith, take-append_length bs rest, drop-append_length bs rest, length-append bs rest);
}

pub int-Reads :
    (bo : ByteOrder) (law : IsByteOrder bo) (w v : ℕ)
    → v < 256 ^ w
    → Reads (int bo w) v (bo.write_int w v)
unfolding int
int-Reads bo law w v h =
    let bs = bo.write_int w v in
    Reads-last (slice w) (λ bs. pure (bo.read_int bs)) bs v bs
      (subst (λ n. Reads (slice n) bs bs) (law.length-write w v) (slice-Reads bs))
      (subst (λ a. Reads (pure (bo.read_int bs)) a []) (law.read-write w v h) (Reads-pure _))

module _ {B : Type 0} where
  pub Reads-slice :
      (f : List ℕ → Reader B) (n : ℕ) (bs : List ℕ) (b : B) (bs' : List ℕ)
      → length bs ≡ n
      → Reads (f bs) b bs'
      → Reads (slice n >>= f) b (bs ++ bs')
  Reads-slice f n bs b bs' e k =
      Reads-bind (slice n) f bs b bs bs' (subst (λ n. Reads (slice n) bs bs) e (slice-Reads bs)) k

  module _ (bo : ByteOrder) (law : IsByteOrder bo) where
    pub Reads-int :
        (f : ℕ → Reader B) (w v : ℕ) (b : B) (bs : List ℕ)
        → v < 256 ^ w
        → Reads (f v) b bs
        → Reads (int bo w >>= f) b (bo.write_int w v ++ bs)
    Reads-int f w v b bs h k =
        Reads-bind (int bo w) f v b (bo.write_int w v) bs (int-Reads bo law w v h) k

-- What is decoded from the buffer that the bytes were written over.
pub decode-write :
    {A : Type 0} (r : Reader A) (a : A) (bs buffer : List ℕ) (n : ℕ) (buffer' : List ℕ)
    → Reads r a bs
    → write_to_prefix bs buffer ≡ ok (n, buffer')
    → decode r buffer' ≡ ok a
unfolding write_to_prefix decode
decode-write r a bs buffer n buffer' h e = let q = h.at (drop (length bs) buffer) in ground arith

-- What is decoded from the bytes and whatever stands behind them.
pub decode-append :
    {A : Type 0} (r : Reader A) (a : A) (bs rest : List ℕ)
    → Reads r a bs
    → decode r (bs ++ rest) ≡ ok a
unfolding decode
decode-append r a bs rest h = rw (decode, h.at rest) refl
