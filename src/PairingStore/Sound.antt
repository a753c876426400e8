-- ===== src/PairingStore/Sound.antt =====
-- crates/relay/src/pairing_store.rs: the stored rows over a history of calls.
use glacialcast.Prelude.{sym, subst, inl, inr, some, List, [], ◌∷◌, All, ℤ}
use glacialcast.Native.External.{External}
use glacialcast.Pairing.Postcard.{PairingPostcard, PairingPostcardLaws}
use glacialcast.PairingStore.Rows.{PairRow}
use glacialcast.PairingStore.Statements.{of_request, is_purged, purge}
use glacialcast.PairingStore.Store.{decided}
use glacialcast.PairingStore.Effects.{Effect, unchanged, inserts, offers, confirms, decides}
use glacialcast.PairingStore.Calls.{Call, call, calls, time_of, call-Outcome}
use glacialcast.PairingStore.Tables.{delete_where-All, find-All, update_one-All}
use glacialcast.PairingStore.Ceremonies.{
  Ceremony, Accepted-Ceremony, confirms-Ceremony, decides-Ceremony, offers-Ceremony,
}

module _ (ext : External) (post : PairingPostcard) where
  Effect-Ceremony :
      (rows after : List PairRow)
      → Effect ext post rows after
      → All (Ceremony ext post) rows
      → All (Ceremony ext post) after
  Effect-Ceremony rows after (unchanged same) all = subst (All (Ceremony ext post)) (sym same) all
  Effect-Ceremony rows after (inserts row accepted absent limits same) all =
      subst (All (Ceremony ext post)) (sym same) (Accepted-Ceremony ext post row accepted, all)
  Effect-Ceremony rows after (offers id row r bytes found held empty verified same) all =
      subst (All (Ceremony ext post)) (sym same) (
        update_one-All (Ceremony ext post) (of_request id) (λ x. record x { offer = some bytes })
          rows row all found
          (offers-Ceremony ext post row r bytes
            (find-All (Ceremony ext post) (of_request id) rows row all found) held empty verified))
  Effect-Ceremony rows after (confirms id row r offer bytes found held there empty verified same)
        all =
      subst (All (Ceremony ext post)) (sym same) (
        update_one-All (Ceremony ext post) (of_request id)
          (λ x. record x { confirmation = some bytes }) rows row all found
          (confirms-Ceremony ext post row r offer bytes
            (find-All (Ceremony ext post) (of_request id) rows row all found) held there empty
            verified))
  Effect-Ceremony rows after (decides id row r bytes now_ms found held empty verified same) all =
      subst (All (Ceremony ext post)) (sym same) (
        update_one-All (Ceremony ext post) (of_request id) (decided bytes now_ms) rows row all found
          (decides-Ceremony ext post row r bytes now_ms
            (find-All (Ceremony ext post) (of_request id) rows row all found) held verified))

  purge-Ceremony :
      (rows : List PairRow) (now_ms : ℤ)
      → All (Ceremony ext post) rows
      → All (Ceremony ext post) (purge rows now_ms)
  unfolding purge
  purge-Ceremony rows now_ms all = delete_where-All (Ceremony ext post) (is_purged now_ms) rows all

  module _ (laws : PairingPostcardLaws post) where
    call-Ceremony :
        (rows : List PairRow) (c : Call)
        → All (Ceremony ext post) rows
        → All (Ceremony ext post) (call ext post rows c)
    call-Ceremony rows c all = elim (call-Outcome ext post laws rows c) [
      | inl same ↦ subst (All (Ceremony ext post)) (sym same) all
      | inr effect ↦
          Effect-Ceremony (purge rows (time_of c)) (call ext post rows c) effect
            (purge-Ceremony rows (time_of c) all)
    ]

    -- Over any history of calls of the pairing store on rows that are ceremonies, where
    -- Postcard reads back what it wrote, every row is a ceremony: the request that it holds
    -- verified within a lifetime when it was received, its columns are those of the request,
    -- its offer, confirmation and decision verify against the request, a confirmation stands
    -- only beside the offer that it confirms, and a manual decision only beside an offer and a
    -- confirmation, with the transcript of that offer.
    pub calls-Ceremony :
        (rows : List PairRow) (history : List Call)
        → All (Ceremony ext post) rows
        → All (Ceremony ext post) (calls ext post rows history)
    unfolding calls
    calls-Ceremony rows [] all = all
    calls-Ceremony rows (c ∷ cs) all =
        calls-Ceremony (call ext post rows c) cs (call-Ceremony rows c all)
