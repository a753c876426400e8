-- ===== src/PairingStore/Fresh.antt =====
-- crates/relay/src/pairing_store.rs: a queued request, checked again when it is delivered.
use glacialcast.Prelude.{
  ◌≡◌, refl, subst, false, ◌||◌, some, ℤ, pos, negsuc, ok, fail_if, ok_or, >>=-eq-ok, or_false,
  arith, ltb_ℤ, leb_ℤ, ◌≤ℤ◌, checked_sub_ℤ, saturating_add_ℤ,
}
use glacialcast.Native.External.{External}
use glacialcast.Native.Inversions.{not_refused, ok_or_inv}
use glacialcast.Pairing.Types.{invalid_metadata, not_yet_valid, PairRequest, clock_skew_ms}
use glacialcast.Pairing.Postcard.{PairingPostcard}
use glacialcast.Pairing.Checks.{validate_time}
use glacialcast.Pairing.Request.{validate_request_metadata, verify_request}
use glacialcast.PairingStore.Address.{SocketAddr, parse_socket_addr}
use glacialcast.PairingStore.Rows.{PairRow, PairRequestDelivery}
use glacialcast.PairingStore.Effects.{HoldsRequest}
use glacialcast.PairingStore.Ceremonies.{Ceremony}
use glacialcast.PairingStore.Inbox.{deliver_request}

ltb_ℤ-self : (a : ℤ) → ltb_ℤ a a ≡ false
ltb_ℤ-self (pos a) = ground arith
ltb_ℤ-self (negsuc a) = ground arith

-- What was not too early stays so.
later_clock :
    (issued then now_ms : ℤ)
    → ltb_ℤ (saturating_add_ℤ then clock_skew_ms) issued ≡ false
    → then ≤ℤ now_ms
    → ltb_ℤ (saturating_add_ℤ now_ms clock_skew_ms) issued ≡ false
later_clock (pos i) (pos t) (pos n) e l = ground arith
later_clock (pos i) (pos t) (negsuc n) e l = absurd (omega arith)
later_clock (pos i) (negsuc t) (pos n) e l = ground arith
later_clock (pos i) (negsuc t) (negsuc n) e l = ground arith
later_clock (negsuc i) (pos t) (pos n) e l = ground arith
later_clock (negsuc i) (pos t) (negsuc n) e l = absurd (omega arith)
later_clock (negsuc i) (negsuc t) (pos n) e l = ground arith
later_clock (negsuc i) (negsuc t) (negsuc n) e l = ground arith

module _ (issued expires then limit now_ms : ℤ) where
  -- A message that was fresh is fresh for its own lifetime until it expires.
  pub fresh_until :
      validate_time issued expires then limit ≡ ok tt
      → then ≤ℤ now_ms
      → leb_ℤ expires now_ms ≡ false
      → (lifetime : ℤ) × (checked_sub_ℤ expires issued ≡ some lifetime)
        × (validate_time issued expires now_ms lifetime ≡ ok tt)
  unfolding validate_time
  fresh_until h later alive =
      let (lifetime, e1, k1) =
        >>=-eq-ok
          (ok_or (checked_sub_ℤ expires issued) (invalid_metadata "pairing time range overflows")) _
          h in
      let (u2, e2, k2) =
        >>=-eq-ok
          (fail_if (leb_ℤ lifetime (pos 0) || leb_ℤ limit (pos 0) || ltb_ℤ limit lifetime)
            (invalid_metadata "pairing lifetime exceeds policy"))
          _ k1 in
      let (u3, e3, k3) =
        >>=-eq-ok (fail_if (ltb_ℤ (saturating_add_ℤ then clock_skew_ms) issued) not_yet_valid) _
          k2 in
      let measured = ok_or_inv (checked_sub_ℤ expires issued) _ e1 in
      let lasting =
        (or_false (leb_ℤ lifetime (pos 0)) (leb_ℤ limit (pos 0))
          (or_false _ _ (not_refused _ _ e2)).0).0 in
      (
        lifetime,
        measured,
        rw (
          measured,
          lasting,
          ltb_ℤ-self lifetime,
          later_clock issued then now_ms (not_refused _ not_yet_valid e3) later,
          alive,
        ),
      )

module _ (ext : External) (post : PairingPostcard) where
  verify_request_until :
      (r : PairRequest) (then limit now_ms : ℤ)
      → verify_request ext post r then limit ≡ ok tt
      → then ≤ℤ now_ms
      → leb_ℤ r.body.expires_at_ms now_ms ≡ false
      → (lifetime : ℤ) × (checked_sub_ℤ r.body.expires_at_ms r.body.issued_at_ms ≡ some lifetime)
        × (verify_request ext post r now_ms lifetime ≡ ok tt)
  unfolding verify_request
  verify_request_until r then limit now_ms h later alive =
      let (u1, e1, k1) = >>=-eq-ok (validate_request_metadata ext r.body) _ h in
      let (u2, e2, k2) =
        >>=-eq-ok (validate_time r.body.issued_at_ms r.body.expires_at_ms then limit) _ k1 in
      let (lifetime, measured, fresh) =
        fresh_until r.body.issued_at_ms r.body.expires_at_ms then limit now_ms e2 later alive in
      (lifetime, measured, rw (e1, fresh, k2))

  -- What a delivery shows of its row.
  abbrev pub Delivers : PairRow → PairRequestDelivery → Type 0
  Delivers row d =
      HoldsRequest ext post row.request d.request
      × (parse_socket_addr row.source_addr ≡ some d.source_addr)
      × (d.received_at_ms ≡ row.received_at_ms)

  pub deliver_request-Delivers :
      (row : PairRow) (now_ms : ℤ) (source : SocketAddr)
      → Ceremony ext post row
      → parse_socket_addr row.source_addr ≡ some source
      → row.received_at_ms ≤ℤ now_ms
      → leb_ℤ row.expires_at_ms now_ms ≡ false
      → (d : PairRequestDelivery) × (deliver_request ext post now_ms row ≡ ok d) × Delivers row d
  unfolding deliver_request
  deliver_request-Delivers row now_ms source w parsed later alive =
      let (lifetime, measured, verified) =
        verify_request_until w.request row.received_at_ms w.lifetime now_ms w.verified later
          (subst (λ e. leb_ℤ e now_ms ≡ false) w.same_expiry alive) in
      (
        record { request = w.request; source_addr = source; received_at_ms = row.received_at_ms },
        rw (w.held, measured, verified, parsed),
        (w.held, parsed, refl),
      )
