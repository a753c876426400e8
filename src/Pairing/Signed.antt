-- ===== src/Pairing/Signed.antt =====
-- crates/protocol/src/pairing.rs: what the two sides have signed into a request and an offer.
use glacialcast.Prelude.{
  ℕ, ◌≡◌, refl, subst, true, false, not, ◌||◌, Option, List, Bytes, ℤ, Result, ok, err, fail_if,
  ◌==◌, >>=-eq-ok, ok-injective, arith, or_false, Bool, length, ◌<◌, ◌^◌, Result-cases, inl, inr,
}
use glacialcast.Native.Types.{IdentityError, IdentityPublic, IdentitySecret, SignatureBytes}
use glacialcast.Native.External.{External}
use glacialcast.Native.Identity.{public_of, validate, fingerprint, sign, signing_digest}
use glacialcast.Native.Inversions.{not_refused}
use glacialcast.Native.Sealing.{passes}
use glacialcast.Credential.Types.{NativeCredential}
use glacialcast.Pairing.Types.{
  unsupported_version, transcript_mismatch, PairRequest, PairOfferBody, PairOffer, pairing_version,
  request_domain, offer_domain, transcript_domain, protocol_version,
}
use glacialcast.Pairing.Postcard.{PairingPostcard}
use glacialcast.Pairing.Checks.{from_identity, same_identity, validate_device_label, domain_hash}
use glacialcast.Pairing.Request.{
  request_body, validate_request_metadata, new_request, verify_request, request_id,
}
use glacialcast.Pairing.Offer.{
  validate_offer_metadata, answers_request, offer_body, new_offer, transcript_hash,
}

pub from_identity_inv :
    {A : Type 0} (m : Result IdentityError A) {a : A} → from_identity m ≡ ok a → m ≡ ok a
from_identity_inv (ok x) h = ground arith
from_identity_inv (err e) h = absurd (cc h)

pub same_identity_sound : (a b : IdentityPublic) → same_identity a b ≡ true → a ≡ b
same_identity_sound a b h = ground arith

pub same_identity_refl : (a : IdentityPublic) → same_identity a a ≡ true
same_identity_refl a = ground arith

pub holds : (b : Bool) → not b ≡ false → b ≡ true
holds true h = refl
holds false h = absurd (cc h)

-- Signing succeeds under every domain of the protocol.
pub sign_total :
    (ext : External) (s : IdentitySecret) (domain encoded : Bytes)
    → length domain < 2 ^ 16
    → (signature : SignatureBytes) × (sign ext s domain encoded ≡ ok signature)
unfolding sign signing_digest
sign_total ext s domain encoded h = elim (Result-cases (sign ext s domain encoded)) [
  | inl signed ↦ signed
  | inr (e, refused) ↦ absurd (ground arith)
]

module _ (ext : External) (post : PairingPostcard) where
  -- What a viewer put into a request that it signed.
  pub record Requested (viewer : IdentitySecret) (r : PairRequest) : Type 0 where
    pub derived : public_of ext viewer ≡ ok r.body.viewer
    pub valid : validate_request_metadata ext r.body ≡ ok tt
    pub signed : sign ext viewer request_domain (post.request_body_bytes r.body) ≡ ok r.signature

  pub new_request-Requested :
      (viewer : IdentitySecret) (publisher : IdentityPublic) (stream_id : ℕ) (label : List ℕ)
      (credential : Option NativeCredential) (nonce : ℕ) (issued expires : ℤ) (r : PairRequest)
      → new_request ext post viewer publisher stream_id label credential nonce issued expires ≡ ok r
      → Requested viewer r
  unfolding new_request
  new_request-Requested viewer publisher stream_id label credential nonce issued expires r h =
      let (u1, e1, k1) = >>=-eq-ok (validate_device_label label) _ h in
      let (u2, e2, k2) = >>=-eq-ok (from_identity (validate ext publisher)) _ k1 in
      let (public, e3, k3) = >>=-eq-ok (from_identity (public_of ext viewer)) _ k2 in
      let body = request_body publisher stream_id public credential label nonce issued expires in
      let (u4, e4, k4) = >>=-eq-ok (validate_request_metadata ext body) _ k3 in
      let (s, e5, k5) =
        >>=-eq-ok (from_identity (sign ext viewer request_domain (post.request_body_bytes body))) _
          k4 in
      subst (Requested viewer) (ok-injective k5) (record {
        derived = from_identity_inv (public_of ext viewer) e3;
        valid = e4;
        signed =
            from_identity_inv (sign ext viewer request_domain (post.request_body_bytes body)) e5;
      })

  -- What a publisher put into an offer that it signed.
  pub record Offered (publisher : IdentitySecret) (r : PairRequest) (o : PairOffer) : Type 0 where
    pub derived : public_of ext publisher ≡ ok o.body.publisher
    pub valid : validate_offer_metadata ext o.body ≡ ok tt
    pub same_publisher : same_identity o.body.publisher r.body.publisher ≡ true
    pub same_request : o.body.request_id ≡ request_id ext post r
    pub named : fingerprint ext r.body.viewer ≡ ok o.body.viewer_id
    pub signed : sign ext publisher offer_domain (post.offer_body_bytes o.body) ≡ ok o.signature

  pub new_offer-Offered :
      (publisher : IdentitySecret) (r : PairRequest) (context nonce : ℕ)
      (issued expires max_lifetime : ℤ) (o : PairOffer)
      → new_offer ext post publisher r context nonce issued expires max_lifetime ≡ ok o
      → Offered publisher r o
  unfolding new_offer
  new_offer-Offered publisher r context nonce issued expires max_lifetime o h =
      let (u1, e1, k1) = >>=-eq-ok (verify_request ext post r issued max_lifetime) _ h in
      let (public, e2, k2) = >>=-eq-ok (from_identity (public_of ext publisher)) _ k1 in
      let (u3, e3, k3) =
        >>=-eq-ok
          (fail_if (not (same_identity public r.body.publisher) || context == 0)
            transcript_mismatch)
          _ k2 in
      let (id, e4, k4) = >>=-eq-ok (from_identity (fingerprint ext r.body.viewer)) _ k3 in
      let body = offer_body ext post r public id nonce context issued expires in
      let (u5, e5, k5) = >>=-eq-ok (validate_offer_metadata ext body) _ k4 in
      let (s, e6, k6) =
        >>=-eq-ok (from_identity (sign ext publisher offer_domain (post.offer_body_bytes body))) _
          k5 in
      subst (Offered publisher r) (ok-injective k6) (record {
        derived = from_identity_inv (public_of ext publisher) e2;
        valid = e5;
        same_publisher =
            holds (same_identity public r.body.publisher)
              (or_false _ _ (not_refused _ transcript_mismatch e3)).0;
        same_request = refl;
        named = from_identity_inv (fingerprint ext r.body.viewer) e4;
        signed =
            from_identity_inv (sign ext publisher offer_domain (post.offer_body_bytes body)) e6;
      })

  pub valid_publisher :
      (b : PairOfferBody) → validate_offer_metadata ext b ≡ ok tt → validate ext b.publisher ≡ ok tt
  unfolding validate_offer_metadata
  valid_publisher b h =
      let (u1, e1, k1) =
        >>=-eq-ok (fail_if (not (b.version == pairing_version)) unsupported_version) _ h in
      from_identity_inv (validate ext b.publisher)
        (>>=-eq-ok (from_identity (validate ext b.publisher)) _ k1).1

  pub answers :
      (publisher : IdentitySecret) (r : PairRequest) (o : PairOffer)
      → Offered publisher r o
      → answers_request ext post o r ≡ ok tt
  unfolding answers_request
  answers publisher r o w =
      rw (passes w.same_request, w.same_publisher, w.named, passes {m = o.body.viewer_id} refl)

  -- The hash that both sides compare.
  abbrev pub transcript_of : PairRequest → PairOffer → ℕ
  transcript_of r o = domain_hash ext transcript_domain (
      post.transcript_bytes
        (record { protocol_version = protocol_version; request = r; offer = o }))

  pub hashes :
      (viewer publisher : IdentitySecret) (r : PairRequest) (o : PairOffer)
      → Requested viewer r
      → Offered publisher r o
      → transcript_hash ext post r o ≡ ok (transcript_of r o)
  unfolding transcript_hash
  hashes viewer publisher r o q w = rw (q.valid, w.valid, answers publisher r o w)
