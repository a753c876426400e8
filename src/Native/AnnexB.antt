-- ===== src/Native/AnnexB.antt =====
-- crates/protocol/src/native.rs: `contains_h264_idr` against the byte streams that hold an IDR unit.
use glacialcast.Prelude.{
  ℕ, suc, ◌≡◌, ◌↔◌, sym, ap, subst, Bool, true, false, ◌⊎◌, inl, inr, [], ◌∷◌, ◌++◌, Bytes, length,
  leb, bit_and, arith, if◌then◌else◌, Bool-cases, length-append,
}
use glacialcast.Native.H264.{contains_h264_idr, idr_here}

-- Somewhere a start code 00 00 01 stands before a unit of type 5.
pub record HasIdr (bytes : Bytes) : Type 0 where
  pub before : Bytes
  pub unit : ℕ
  pub behind : Bytes
  pub split : bytes ≡ before ++ (0 ∷ 0 ∷ 1 ∷ unit ∷ behind)
  pub idr : bit_and unit 0x1f ≡ 5

HasIdr-cons : (b : ℕ) (bytes : Bytes) → HasIdr bytes → HasIdr (b ∷ bytes)
HasIdr-cons b bytes h = record {
  before = b ∷ h.before;
  unit = h.unit;
  behind = h.behind;
  split = ap (◌∷◌ b) h.split;
  idr = h.idr;
}

idr_here-HasIdr : (bytes : Bytes) → idr_here bytes ≡ true → HasIdr bytes
idr_here-HasIdr [] h = absurd (cc h)
idr_here-HasIdr (a ∷ []) h = absurd (ground arith)
idr_here-HasIdr (a ∷ b ∷ []) h = absurd (ground arith)
idr_here-HasIdr (a ∷ b ∷ c ∷ []) h = absurd (ground arith)
idr_here-HasIdr (a ∷ b ∷ c ∷ d ∷ []) h = record {
  before = [];
  unit = d;
  behind = [];
  split = ground arith;
  idr = ground arith;
}
idr_here-HasIdr (a ∷ b ∷ c ∷ d ∷ e ∷ rest) h = elim (which a b c d e rest h) [
  | inl (p, q, r, t) ↦ record { before = []; unit = d; behind = e ∷ rest; split = cc; idr = t }
  | inr (p, q, r, t, u) ↦ record { before = 0 ∷ []; unit = e; behind = rest; split = cc; idr = u }
]
  where
    which :
        (a b c d e : ℕ) (rest : Bytes)
        → idr_here (a ∷ b ∷ c ∷ d ∷ e ∷ rest) ≡ true
        → ((a ≡ 0) × (b ≡ 0) × (c ≡ 1) × (bit_and d 0x1f ≡ 5))
          ⊎ ((a ≡ 0) × (b ≡ 0) × (c ≡ 0) × (d ≡ 1) × (bit_and e 0x1f ≡ 5))
    which a b c d e rest h = ground arith

contains-HasIdr : (bytes : Bytes) → contains_h264_idr bytes ≡ true → HasIdr bytes
unfolding contains_h264_idr
contains-HasIdr [] h = absurd (cc h)
contains-HasIdr (b ∷ rest) h = elim (Bool-cases (idr_here (b ∷ rest))) [
  | inl here ↦ idr_here-HasIdr (b ∷ rest) here
  | inr later ↦ HasIdr-cons b rest (contains-HasIdr rest (onward _ _ _ later h))
]
  where
    onward :
        (t u v : Bool)
        → u ≡ false
        → (if t then (if u then true else v) else false) ≡ true
        → v ≡ true
    onward t u v p q = ground arith

idr_found :
    (unit : ℕ) (behind : Bytes)
    → bit_and unit 0x1f ≡ 5
    → idr_here (0 ∷ 0 ∷ 1 ∷ unit ∷ behind) ≡ true
idr_found unit behind h = ground arith

found_later :
    (t u v : Bool) → t ≡ true → v ≡ true → (if t then (if u then true else v) else false) ≡ true
found_later t u v p q = ground arith

HasIdr-contains :
    (before : Bytes) (unit : ℕ) (behind : Bytes)
    → bit_and unit 0x1f ≡ 5
    → contains_h264_idr (before ++ (0 ∷ 0 ∷ 1 ∷ unit ∷ behind)) ≡ true
unfolding contains_h264_idr
HasIdr-contains [] unit behind h =
    found_here (leb 4 (suc (suc (suc (suc (length behind)))))) _ _ (ground arith)
      (idr_found unit behind h)
  where
    found_here :
        (t u v : Bool) → t ≡ true → u ≡ true → (if t then (if u then true else v) else false) ≡ true
    found_here t u v p q = ground arith
HasIdr-contains (b ∷ before) unit behind h =
    found_later (leb 4 (length (b ∷ (before ++ (0 ∷ 0 ∷ 1 ∷ unit ∷ behind))))) _ _
      (long before unit behind) (HasIdr-contains before unit behind h)
  where
    long :
        (xs : Bytes) (unit : ℕ) (behind : Bytes)
        → leb 4 (length (b ∷ (xs ++ (0 ∷ 0 ∷ 1 ∷ unit ∷ behind)))) ≡ true
    long xs unit behind = ground (arith, length-append xs (0 ∷ 0 ∷ 1 ∷ unit ∷ behind))

-- contains_h264_idr is true exactly of the byte streams in which a start code 00 00 01
-- somewhere stands before a unit of type 5.
pub contains_h264_idr_iff : (bytes : Bytes) → (contains_h264_idr bytes ≡ true) ↔ HasIdr bytes
contains_h264_idr_iff bytes = (
  contains-HasIdr bytes,
  λ h.
      subst (λ bs. contains_h264_idr bs ≡ true) (sym h.split)
        (HasIdr-contains h.before h.unit h.behind h.idr),
)
