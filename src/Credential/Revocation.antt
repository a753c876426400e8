-- ===== src/Credential/Revocation.antt =====
-- crates/protocol/src/credential.rs: signed revocation lists, with the standard library's sort and binary
-- search that they use.
use glacialcast.Prelude.{
  ℕ, zero, suc, ◌-◌, ◌/◌, Bool, false, not, ◌||◌, List, [], ◌∷◌, Bytes, length, take, drop, ℤ,
  Result, ok, ◌>>=◌, ◌>>◌, fail_if, ok_or, ltb, leb, ◌==◌, leb_ℤ, ltb_ℤ, is_empty, same_bytes,
  if◌then◌else◌,
}
use glacialcast.Native.External.{External}
use glacialcast.Native.Identity.{signing_digest, signature_to_bytes}
use glacialcast.Credential.Types.{
  CredentialError, unsupported_version, invalid_metadata, invalid_signature, wrong_issuer,
  not_yet_valid, expired, CertificateAuthorityPublic, CertificateAuthoritySecret,
  RevocationListBody, RevocationList, credential_version, max_revoked_serials, revocation_domain,
}
use glacialcast.Credential.Types.CredentialError.{postcard}
use glacialcast.Credential.Postcard.{CredentialPostcard}
use glacialcast.Credential.Authority.{
  from_identity, validate_time_range, authority_id, authority_key, authority_of, authority_sign,
}

-- `windows(2).any(...)`.
unfoldable pub any_pair : (ℕ → ℕ → Bool) → List ℕ → Bool
any_pair test [] = false
any_pair test (x ∷ []) = false
any_pair test (x ∷ (y ∷ ys)) = test x y || any_pair test (y ∷ ys)

-- `sort_unstable` on numbers, of which equal ones cannot be told apart.
unfoldable pub insert_sorted : ℕ → List ℕ → List ℕ
insert_sorted x [] = x ∷ []
insert_sorted x (y ∷ ys) = if leb x y then x ∷ (y ∷ ys) else y ∷ insert_sorted x ys

unfoldable pub sort_unstable : List ℕ → List ℕ
unfolding insert_sorted
sort_unstable [] = []
sort_unstable (x ∷ xs) = insert_sorted x (sort_unstable xs)

-- `slice::binary_search(..).is_ok()`. A round compares the middle element and keeps a half: the elements
-- from it on, or as many before. The last element is compared for equality.
abbrev pub first_above : ℕ → List ℕ → Bool
first_above target [] = false
first_above target (x ∷ xs) = ltb target x

abbrev pub first_is : ℕ → List ℕ → Bool
first_is target [] = false
first_is target (x ∷ xs) = x == target

unfoldable pub narrow : ℕ → List ℕ → List ℕ
narrow target xs =
    if first_above target (drop (length xs / 2) xs)
    then take (length xs - length xs / 2) xs
    else drop (length xs / 2) xs

unfoldable pub search_rounds : ℕ → ℕ → List ℕ → Bool
unfolding narrow
search_rounds zero target xs = false
search_rounds (suc fuel) target xs =
    let rest = search_rounds fuel target (narrow target xs) in
    if ltb 1 (length xs) then rest else first_is target xs

unfoldable pub binary_search : ℕ → List ℕ → Bool
unfolding search_rounds
binary_search target xs = search_rounds (length xs) target xs

module _ (ext : External) (post : CredentialPostcard) where
  -- The check of an authority's signature in both `verify_at`.
  unfoldable pub verify_authority :
      CertificateAuthorityPublic → Bytes → Bytes → Bytes → Result CredentialError (Unit {0})
  verify_authority authority domain encoded signature = do
    digest ← from_identity (signing_digest ext domain encoded)
    key ← authority_key ext post authority
    fail_if (not (ext.ed25519_verify key digest signature)) invalid_signature

  -- `RevocationList::verify_at`.
  unfoldable pub verify_revocations :
      RevocationList → CertificateAuthorityPublic → ℤ → Result CredentialError (Unit {0})
  unfolding any_pair
  verify_revocations list authority now_ms = do
    fail_if (not (list.body.version == credential_version)) (unsupported_version list.body.version)
    validate_time_range list.body.generated_at_ms list.body.expires_at_ms
    fail_if (ltb max_revoked_serials (length list.body.serials))
        (invalid_metadata "too many revoked serials")
    fail_if (any_pair (λ a b. leb b a) list.body.serials)
        (invalid_metadata "revoked serials are not sorted and unique")
    id ← authority_id ext post authority
    fail_if (not (list.body.issuer_id == id)) wrong_issuer
    verify_authority authority revocation_domain (post.revocation_body_bytes list.body)
        (signature_to_bytes list.signature)
    fail_if (ltb_ℤ now_ms list.body.generated_at_ms) not_yet_valid
    fail_if (leb_ℤ list.body.expires_at_ms now_ms) expired

  abbrev pub revocation_body : ℕ → ℤ → ℤ → List ℕ → RevocationListBody
  revocation_body issuer_id generated_at_ms expires_at_ms serials = record {
    version = credential_version;
    issuer_id = issuer_id;
    generated_at_ms = generated_at_ms;
    expires_at_ms = expires_at_ms;
    serials = serials;
  }

  -- `CertificateAuthoritySecret::sign_revocations`.
  unfoldable pub sign_revocations :
      CertificateAuthoritySecret → ℤ → ℤ → List ℕ → Result CredentialError RevocationList
  unfolding any_pair sort_unstable
  sign_revocations authority generated_at_ms expires_at_ms serials = do
    validate_time_range generated_at_ms expires_at_ms
    fail_if (ltb max_revoked_serials (length serials)) (invalid_metadata "too many revoked serials")
    fail_if (any_pair ◌==◌ (sort_unstable serials)) (invalid_metadata "duplicate revoked serial")
    id ← authority_id ext post (authority_of ext post authority)
    let body = revocation_body id generated_at_ms expires_at_ms (sort_unstable serials)
    signature ←
        authority_sign ext post authority revocation_domain (post.revocation_body_bytes body)
    ok (record { body = body; signature = signature })

  abbrev pub encode_revocations : RevocationList → Result CredentialError Bytes
  encode_revocations list = ok (post.revocation_bytes list)

  unfoldable pub decode_revocations : Bytes → Result CredentialError RevocationList
  decode_revocations bytes = do
    (list, remainder) ← ok_or (post.take_revocations bytes) postcard
    fail_if (not (is_empty remainder)) (invalid_metadata "trailing revocation-list data")
    fail_if (not (same_bytes (post.revocation_bytes list) bytes))
        (invalid_metadata "non-canonical revocation-list data")
    ok list
