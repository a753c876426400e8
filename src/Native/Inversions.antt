-- ===== src/Native/Inversions.antt =====
-- crates/protocol/src/native.rs: the steps of a `seal` that succeeds.
use glacialcast.Prelude.{
  ℕ, ◌+◌, ◌^◌, ◌<◌, ◌≡◌, refl, sym, ap, ◌∙◌, subst, Bool, false, not, Option, none, some, Bytes,
  length, arith, Result, ok, err, fail_if, ok_or, try_from, leb, ◌==◌, >>=-eq-ok, ok-injective,
}
use glacialcast.Native.Types.{
  IdentityError, IdentityPublic, IdentitySecret, NativeStreamError, NativeObjectHeader,
  NewNativeObject, NativeObject, invalid_metadata, payload_too_large, sequence_regression,
  wrong_context, decryption, aead_tag_len,
}
use glacialcast.Native.External.{External}
use glacialcast.Native.Identity.{fingerprint, public_of, sign}
use glacialcast.Native.H264.{validate_plaintext}
use glacialcast.Native.Header.{validate_header}
use glacialcast.Native.Object.{object_domain, from_identity}
use glacialcast.Native.Group.{
  GroupEncryptor, header_of, keyframe_refused, after_seal, seal, seal_under,
}

pub not_refused : {E : Type 0} (t : Bool) (e : E) {u : Unit {0}} → fail_if t e ≡ ok u → t ≡ false
not_refused t e h = ground arith

pub from_identity_inv :
    {A : Type 0} (m : Result IdentityError A) {a : A} → from_identity m ≡ ok a → m ≡ ok a
from_identity_inv (ok x) h = ground arith
from_identity_inv (err e) h = absurd (cc h)

pub ok_or_inv : {E A : Type 0} (m : Option A) (e : E) {a : A} → ok_or m e ≡ ok a → m ≡ some a
ok_or_inv none e h = absurd (cc h)
ok_or_inv (some x) e h = ground arith

module _ (ext : External) where
  pub record Sealed (g : GroupEncryptor) (s : IdentitySecret) (o : NewNativeObject)
      (plaintext : Bytes) (sealed : NativeObject) (g' : GroupEncryptor) : Type 0 where
    pub public : IdentityPublic
    pub size : ℕ
    pub newer : g.last_sequence < o.sequence
    pub derived : public_of ext s ≡ ok public
    pub same_publisher : fingerprint ext public ≡ ok g.publisher_id
    pub valid_plaintext : validate_plaintext ext o.kind plaintext ≡ ok tt
    pub declared : keyframe_refused g o plaintext ≡ false
    pub measured : size ≡ length plaintext + aead_tag_len
    pub under : seal_under ext g s (header_of g o size) plaintext ≡ ok sealed
    pub moved : g' ≡ after_seal g o

  abbrev pub Written :
      GroupEncryptor → IdentitySecret → NativeObjectHeader → Bytes → NativeObject → Type 0
  Written g s h plaintext sealed =
      (validate_header h ≡ ok tt)
      × (ext.encrypt g.key h.nonce (ext.header_bytes h) plaintext ≡ some sealed.ciphertext)
      × (sign ext s object_domain (
            ext.claim_bytes (record { header = h; ciphertext_hash = ext.sha256 sealed.ciphertext }))
          ≡ ok sealed.signature)
      × (sealed.header ≡ h)
      × (sealed.ciphertext_hash ≡ ext.sha256 sealed.ciphertext)

  pub seal_under-Written :
      (g : GroupEncryptor) (s : IdentitySecret) (h : NativeObjectHeader) (plaintext : Bytes)
      (sealed : NativeObject)
      → seal_under ext g s h plaintext ≡ ok sealed
      → Written g s h plaintext sealed
  unfolding seal_under
  seal_under-Written g s h plaintext sealed e =
      let (u, e1, k1) = >>=-eq-ok (validate_header h) _ e in
      let (c, e2, k2) =
        >>=-eq-ok (ok_or (ext.encrypt g.key h.nonce (ext.header_bytes h) plaintext) decryption) _
          k1 in
      let (sig, e3, k3) =
        >>=-eq-ok
          (from_identity (
            sign ext s object_domain
              (ext.claim_bytes (record { header = h; ciphertext_hash = ext.sha256 c }))))
          _ k2 in
      subst (Written g s h plaintext) (ok-injective k3)
        (e1, ok_or_inv _ _ e2, from_identity_inv _ e3, refl, refl)

  pub seal-Sealed :
      (g : GroupEncryptor) (s : IdentitySecret) (o : NewNativeObject) (plaintext : Bytes)
      (sealed : NativeObject) (g' : GroupEncryptor)
      → seal ext g s o plaintext ≡ ok (sealed, g')
      → Sealed g s o plaintext sealed g'
  unfolding seal
  seal-Sealed g s o plaintext sealed g' e =
      let (u1, e1, k1) =
        >>=-eq-ok (fail_if (leb o.sequence g.last_sequence) sequence_regression) _ e in
      let (public, e2, k2) = >>=-eq-ok (from_identity (public_of ext s)) _ k1 in
      let (id, e3, k3) = >>=-eq-ok (from_identity (fingerprint ext public)) _ k2 in
      let (u4, e4, k4) = >>=-eq-ok (fail_if (not (id == g.publisher_id)) wrong_context) _ k3 in
      let (u5, e5, k5) = >>=-eq-ok (validate_plaintext ext o.kind plaintext) _ k4 in
      let (u6, e6, k6) =
        >>=-eq-ok
          (fail_if (keyframe_refused g o plaintext)
            (invalid_metadata "keyframe group does not begin with a declared H.264 IDR"))
          _ k5 in
      let (size, e7, k7) =
        >>=-eq-ok {E = NativeStreamError}
          (try_from (2 ^ 32) (length plaintext + aead_tag_len) payload_too_large) _ k6 in
      let (out, e8, k8) = >>=-eq-ok (seal_under ext g s (header_of g o size) plaintext) _ k7 in
      let pair = ok-injective k8 in
      record {
        public = public;
        size = size;
        newer = above (not_refused (leb o.sequence g.last_sequence) _ e1);
        derived = from_identity_inv _ e2;
        same_publisher =
            from_identity_inv _ e3 ∙ ap ok (same (not_refused (not (id == g.publisher_id)) _ e4));
        valid_plaintext = e5;
        declared = not_refused (keyframe_refused g o plaintext) _ e6;
        measured = narrowed (length plaintext + aead_tag_len) size e7;
        under = e8 ∙ ap ok (ap (λ (p : NativeObject × GroupEncryptor). p.0) pair);
        moved = sym (ap (λ (p : NativeObject × GroupEncryptor). p.1) pair);
      }
    where
      above : {m n : ℕ} → leb m n ≡ false → n < m
      above h = ground arith

      same : {m n : ℕ} → not (m == n) ≡ false → m ≡ n
      same h = ground arith

      narrowed : (m n : ℕ) → try_from (2 ^ 32) m payload_too_large ≡ ok n → n ≡ m
      narrowed m n h = ground arith
