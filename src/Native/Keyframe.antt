-- ===== src/Native/Keyframe.antt =====
-- crates/protocol/src/native.rs: the first media object of one `GroupEncryptor`.
use glacialcast.Prelude.{
  ◌≡◌, refl, sym, ap, ◌∙◌, subst, Bool, true, false, not, ◌&&◌, ◌||◌, List, [], ◌∷◌, Bytes, inl,
  inr, arith, ok, Result-cases, same_bool,
}
use glacialcast.Native.Types.{
  IdentitySecret, NewNativeObject, NativeObject, NativeObjectHeader, NativeObjectKind, epoch, media,
  cursor,
}
use glacialcast.Native.External.{External}
use glacialcast.Native.H264.{contains_h264_idr}
use glacialcast.Native.Group.{GroupEncryptor, header_of, seal, keyframe_refused}
use glacialcast.Native.Object.{is_media}
use glacialcast.Native.Inversions.{seal-Sealed, seal_under-Written}
use glacialcast.Native.Nonces.{Request, seal_all}

-- The first media object, if there is one, satisfies `P`.
abbrev FirstMediaFrom : NativeObjectKind → Type 0 → Type 0 → Type 0
FirstMediaFrom epoch here later = later
FirstMediaFrom media here later = here
FirstMediaFrom cursor here later = later

abbrev pub FirstMedia : (NativeObject → Type 0) → List NativeObject → Type 0
FirstMedia P [] = Unit {0}
FirstMedia P (o ∷ os) = FirstMediaFrom o.header.kind (P o) (FirstMedia P os)

abbrev pub IsRandomAccess : NativeObject → Type 0
IsRandomAccess o = o.header.random_access ≡ true

keyframe_flag :
    (kind : NativeObjectKind) (flag started idr : Bool)
    → (is_media kind && (not (same_bool flag idr) || not started && not idr)) ≡ false
    → started ≡ false
    → kind ≡ media
    → flag ≡ true
keyframe_flag kind flag started idr h p q = ground arith

module _ (ext : External) where
  seal-media :
      (g : GroupEncryptor) (s : IdentitySecret) (o : NewNativeObject) (plaintext : Bytes)
      (sealed : NativeObject) (g' : GroupEncryptor)
      → seal ext g s o plaintext ≡ ok (sealed, g')
      → (sealed.header.kind ≡ o.kind)
        × (sealed.header.random_access ≡ o.random_access)
        × (g'.media_started ≡ (is_media o.kind || g.media_started))
        × (keyframe_refused g o plaintext ≡ false)
  seal-media g s o plaintext sealed g' e =
      let w = seal-Sealed ext g s o plaintext sealed g' e in
      let header = (seal_under-Written ext g s (header_of g o w.size) plaintext sealed w.under).3 in
      (
        ap (λ (h : NativeObjectHeader). h.kind) header,
        ap (λ (h : NativeObjectHeader). h.random_access) header,
        ap (λ (q : GroupEncryptor). q.media_started) w.moved,
        w.declared,
      )

  -- Over any sequence of seal calls on a GroupEncryptor that has sealed no media yet, the first
  -- media object that is sealed, if there is one, is flagged as a random access point.
  pub seal_all-FirstMedia :
      (g : GroupEncryptor) (s : IdentitySecret) (rs : List Request)
      → g.media_started ≡ false
      → FirstMedia IsRandomAccess (seal_all ext g s rs)
  unfolding seal_all
  seal_all-FirstMedia g s [] h = tt
  seal_all-FirstMedia g s ((o, plaintext) ∷ rest) h =
      elim (Result-cases (seal ext g s o plaintext)) [
        | inr (x, e) ↦ rw e (seal_all-FirstMedia g s rest h)
        | inl ((sealed, g'), e) ↦ rw e (step sealed g' e (seal_all-FirstMedia g' s rest))
      ]
    where
      step :
          (sealed : NativeObject) (g' : GroupEncryptor)
          → seal ext g s o plaintext ≡ ok (sealed, g')
          → (g'.media_started ≡ false → FirstMedia IsRandomAccess (seal_all ext g' s rest))
          → FirstMedia IsRandomAccess (sealed ∷ seal_all ext g' s rest)
      step sealed g' e later =
          let (kind, flag, started, declared) = seal-media g s o plaintext sealed g' e in
          by_kind sealed.header.kind kind
            (λ m.
              flag
              ∙ keyframe_flag o.kind o.random_access g.media_started (contains_h264_idr plaintext)
                  declared h (sym kind ∙ m))
            (λ quiet. later (started ∙ quiet))
        where
          by_kind :
              (k : NativeObjectKind)
              → k ≡ o.kind
              → (k ≡ media → sealed.header.random_access ≡ true)
              → ((is_media o.kind || g.media_started) ≡ false
                  → FirstMedia IsRandomAccess (seal_all ext g' s rest))
              → FirstMediaFrom k
                  (sealed.header.random_access ≡ true)
                  (FirstMedia IsRandomAccess (seal_all ext g' s rest))
          by_kind epoch q a b = b (subst (λ t. (is_media t || g.media_started) ≡ false) q h)
          by_kind media q a b = a refl
          by_kind cursor q a b = b (subst (λ t. (is_media t || g.media_started) ≡ false) q h)
