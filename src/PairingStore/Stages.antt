-- ===== src/PairingStore/Stages.antt =====
-- crates/relay/src/pairing_store.rs: the rows as the states of ceremonies.
use glacialcast.Prelude.{
  ◌≡◌, sym, subst, ◌⊎◌, inl, inr, Bool, none, some, List, [], ◌∷◌, Bytes, ℤ, Bool-cases,
  some-injective,
}
use glacialcast.Native.External.{External}
use glacialcast.Pairing.Postcard.{PairingPostcard, PairingPostcardLaws}
use glacialcast.Relay.Statements.{find, update_one}
use glacialcast.PairingStore.Rows.{PairRow}
use glacialcast.PairingStore.Statements.{of_request, purge}
use glacialcast.PairingStore.Store.{decided}
use glacialcast.PairingStore.Effects.{Effect, unchanged, inserts, offers, confirms, decides}
use glacialcast.PairingStore.Calls.{Call, call, time_of, call-Outcome}

-- A ceremony as a state machine: each message is stored once and stays, and a confirmation follows an offer.
pub data Advance (row : PairRow) : PairRow → Type 0 where
  stays : Advance row row
  offered : (bytes : Bytes) → row.offer ≡ none → Advance row (record row { offer = some bytes })
  confirmed :
      (offer bytes : Bytes)
      → row.offer ≡ some offer
      → row.confirmation ≡ none
      → Advance row (record row { confirmation = some bytes })
  concluded :
      (bytes : Bytes) (now_ms : ℤ) → row.decision ≡ none → Advance row (decided bytes now_ms row)

-- Row by row, in their order.
pub data Steps : List PairRow → List PairRow → Type 0 where
  done : Steps [] []
  next :
      (row new : PairRow) (rows news : List PairRow)
      → Advance row new
      → Steps rows news
      → Steps (row ∷ rows) (new ∷ news)

-- What a call makes of the rows that its purge leaves.
pub data Moves (rows after : List PairRow) : Type 0 where
  advances : Steps rows after → Moves rows after
  arrives :
      (row : PairRow)
      → row.offer ≡ none
      → row.confirmation ≡ none
      → row.decision ≡ none
      → find (of_request row.request_id) rows ≡ none
      → after ≡ row ∷ rows
      → Moves rows after

Steps-refl : (rows : List PairRow) → Steps rows rows
Steps-refl [] = done
Steps-refl (r ∷ rows) = next r r rows rows stays (Steps-refl rows)

update_one-Steps :
    (matches : PairRow → Bool) (change : PairRow → PairRow) (rows : List PairRow) (row : PairRow)
    → find matches rows ≡ some row
    → Advance row (change row)
    → Steps rows (update_one matches change rows)
unfolding find update_one
update_one-Steps matches change [] row found step = absurd (cc found)
update_one-Steps matches change (r ∷ rows) row found step = elim (Bool-cases (matches r)) [
  | inl t ↦
      let same : r ≡ row = some-injective r row (rw t at found) in
      rw t (
        next r (change r) rows rows (subst (λ x. Advance x (change x)) (sym same) step)
          (Steps-refl rows))
  | inr f ↦ rw f (
      next r r rows (update_one matches change rows) stays
        (update_one-Steps matches change rows row (rw f at found) step))
]

module _ (ext : External) (post : PairingPostcard) where
  Effect-Moves : (rows after : List PairRow) → Effect ext post rows after → Moves rows after
  Effect-Moves rows after (unchanged same) =
      advances (subst (Steps rows) (sym same) (Steps-refl rows))
  Effect-Moves rows after (inserts row accepted absent limits same) =
      let (offer, confirmation, decision, undated) = accepted.unanswered in
      arrives row offer confirmation decision absent same
  Effect-Moves rows after (offers id row r bytes found held empty verified same) = advances (
      subst (Steps rows) (sym same) (
        update_one-Steps (of_request id) (λ x. record x { offer = some bytes }) rows row found
          (offered bytes empty)))
  Effect-Moves rows after (confirms id row r offer bytes found held there empty verified same) =
      advances (
        subst (Steps rows) (sym same) (
          update_one-Steps (of_request id) (λ x. record x { confirmation = some bytes }) rows row
            found (confirmed offer bytes there empty)))
  Effect-Moves rows after (decides id row r bytes now_ms found held empty verified same) =
      advances (
        subst (Steps rows) (sym same) (
          update_one-Steps (of_request id) (decided bytes now_ms) rows row found
            (concluded bytes now_ms empty)))

  -- Where Postcard reads back what it wrote, a call of the pairing store changes nothing, or
  -- does one of two things to the rows that its purge leaves: each of them in its place makes
  -- no step or one step of the state machine Advance, which stores each message in its turn and
  -- never replaces one, or a row without offer, confirmation and decision arrives whose request
  -- identifier none of them has.
  pub call-Moves :
      (laws : PairingPostcardLaws post) (rows : List PairRow) (c : Call)
      → (call ext post rows c ≡ rows) ⊎ Moves (purge rows (time_of c)) (call ext post rows c)
  call-Moves laws rows c = elim (call-Outcome ext post laws rows c) [
    | inl same ↦ inl same
    | inr effect ↦ inr (Effect-Moves (purge rows (time_of c)) (call ext post rows c) effect)
  ]
