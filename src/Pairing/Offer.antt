-- ===== src/Pairing/Offer.antt =====
-- crates/protocol/src/pairing.rs: the `PairOffer` of a publisher, the transcript, and the
-- `ViewerConfirmation`.
use glacialcast.Prelude.{ℕ, not, ◌||◌, ℤ, Result, ok, ◌>>=◌, ◌>>◌, fail_if, ◌==◌, leb_ℤ}
use glacialcast.Native.Types.{IdentityPublic, IdentitySecret}
use glacialcast.Native.External.{External}
use glacialcast.Native.Identity.{public_of, validate, fingerprint, sign}
use glacialcast.Pairing.Types.{
  PairingError, unsupported_version, invalid_metadata, transcript_mismatch, PairRequest,
  PairOfferBody, PairOffer, ViewerConfirmationBody, ViewerConfirmation, protocol_version,
  pairing_version, offer_domain, confirm_domain, transcript_domain,
}
use glacialcast.Pairing.Postcard.{PairingPostcard}
use glacialcast.Pairing.Checks.{
  from_identity, same_identity, validate_time, domain_hash, verify_signed,
}
use glacialcast.Pairing.Request.{validate_request_metadata, verify_request, request_id}

module _ (ext : External) where
  unfoldable pub validate_offer_metadata : PairOfferBody → Result PairingError (Unit {0})
  validate_offer_metadata body = do
    fail_if (not (body.version == pairing_version)) unsupported_version
    from_identity (validate ext body.publisher)
    fail_if
        (body.request_id == 0
          || body.viewer_id == 0
          || body.nonce == 0
          || body.relay_context == 0
          || leb_ℤ body.expires_at_ms body.issued_at_ms)
        (invalid_metadata "invalid offer metadata")

  module _ (post : PairingPostcard) where
    -- The comparison of an offer with its request, in `PairOffer::verify` and `transcript_hash`.
    unfoldable pub answers_request : PairOffer → PairRequest → Result PairingError (Unit {0})
    answers_request offer request = do
      fail_if
          (not (offer.body.request_id == request_id ext post request)
            || not (same_identity offer.body.publisher request.body.publisher))
          transcript_mismatch
      viewer_id ← from_identity (fingerprint ext request.body.viewer)
      fail_if (not (offer.body.viewer_id == viewer_id)) transcript_mismatch

    abbrev pub offer_body : PairRequest → IdentityPublic → ℕ → ℕ → ℕ → ℤ → ℤ → PairOfferBody
    offer_body request public viewer_id nonce relay_context issued_at_ms expires_at_ms = record {
      version = pairing_version;
      request_id = request_id ext post request;
      publisher = public;
      viewer_id = viewer_id;
      nonce = nonce;
      relay_context = relay_context;
      issued_at_ms = issued_at_ms;
      expires_at_ms = expires_at_ms;
    }

    -- `PairOffer::new`, with the nonce that was drawn.
    unfoldable pub new_offer :
        IdentitySecret → PairRequest → ℕ → ℕ → ℤ → ℤ → ℤ → Result PairingError PairOffer
    new_offer publisher request relay_context nonce issued_at_ms expires_at_ms
          max_request_lifetime_ms =
        do
          verify_request ext post request issued_at_ms max_request_lifetime_ms
          public ← from_identity (public_of ext publisher)
          fail_if (not (same_identity public request.body.publisher) || relay_context == 0)
              transcript_mismatch
          viewer_id ← from_identity (fingerprint ext request.body.viewer)
          let body =
              offer_body request public viewer_id nonce relay_context issued_at_ms expires_at_ms
          validate_offer_metadata body
          signature ← from_identity (sign ext publisher offer_domain (post.offer_body_bytes body))
          ok (record { body = body; signature = signature })

    unfoldable pub verify_offer : PairOffer → PairRequest → ℤ → ℤ → Result PairingError (Unit {0})
    verify_offer offer request now_ms max_lifetime_ms = do
      validate_offer_metadata offer.body
      verify_request ext post request now_ms max_lifetime_ms
      validate_time offer.body.issued_at_ms offer.body.expires_at_ms now_ms max_lifetime_ms
      answers_request offer request
      verify_signed ext offer.body.publisher offer_domain (post.offer_body_bytes offer.body)
          offer.signature

    unfoldable pub transcript_hash : PairRequest → PairOffer → Result PairingError ℕ
    transcript_hash request offer = do
      validate_request_metadata ext request.body
      validate_offer_metadata offer.body
      answers_request offer request
      ok (
          domain_hash ext transcript_domain (
            post.transcript_bytes
              (record { protocol_version = protocol_version; request = request; offer = offer })))

    abbrev pub confirmation_body : PairRequest → ℕ → ℕ → ℤ → ViewerConfirmationBody
    confirmation_body request transcript viewer_id confirmed_at_ms = record {
      version = pairing_version;
      request_id = request_id ext post request;
      transcript_hash = transcript;
      viewer_id = viewer_id;
      confirmed_at_ms = confirmed_at_ms;
    }

    -- `ViewerConfirmation::approve`.
    unfoldable pub approve_offer :
        IdentitySecret → PairRequest → PairOffer → ℤ → Result PairingError ViewerConfirmation
    approve_offer viewer request offer confirmed_at_ms = do
      public ← from_identity (public_of ext viewer)
      viewer_id ← from_identity (fingerprint ext public)
      requested ← from_identity (fingerprint ext request.body.viewer)
      fail_if (not (viewer_id == requested)) transcript_mismatch
      transcript ← transcript_hash request offer
      let body = confirmation_body request transcript viewer_id confirmed_at_ms
      signature ← from_identity (sign ext viewer confirm_domain (post.confirmation_body_bytes body))
      ok (record { body = body; signature = signature })

    -- `ViewerConfirmation::verify`.
    unfoldable pub verify_confirmation :
        ViewerConfirmation → PairRequest → PairOffer → Result PairingError (Unit {0})
    verify_confirmation confirmation request offer = do
      fail_if
          (not (confirmation.body.version == pairing_version)
            || not (confirmation.body.request_id == request_id ext post request))
          transcript_mismatch
      transcript ← transcript_hash request offer
      fail_if (not (confirmation.body.transcript_hash == transcript)) transcript_mismatch
      viewer_id ← from_identity (fingerprint ext request.body.viewer)
      fail_if (not (confirmation.body.viewer_id == viewer_id)) transcript_mismatch
      verify_signed ext request.body.viewer confirm_domain
          (post.confirmation_body_bytes confirmation.body) confirmation.signature
