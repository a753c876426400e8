-- ===== src/Native/Replay.antt =====
-- crates/protocol/src/native.rs: what a `LiveSequenceGuard` lets through, over any sequence of objects.
use glacialcast.Prelude.{
  ℕ, ◌<◌, ◌≡◌, ◌↔◌, subst, List, [], ◌∷◌, ◌++◌, inl, inr, arith, Result, ok, err, Result-cases,
}
use glacialcast.Native.Types.{NativeStreamError, NativeObject}
use glacialcast.Native.Guard.{LiveSequenceGuard, accept}

-- The objects that are accepted; a refused one leaves the guard as it was.
abbrev kept : NativeObject → Result NativeStreamError LiveSequenceGuard → List NativeObject
kept o (ok g) = o ∷ []
kept o (err e) = []

abbrev then_guard :
    LiveSequenceGuard → Result NativeStreamError LiveSequenceGuard → LiveSequenceGuard
then_guard g (ok g') = g'
then_guard g (err e) = g

pub accept_all : LiveSequenceGuard → List NativeObject → List NativeObject
accept_all g [] = []
accept_all g (o ∷ os) = kept o (accept g o) ++ accept_all (then_guard g (accept g o)) os

-- One stream of one publisher, in strictly increasing order above `n`.
abbrev pub LiveFrom : ℕ → ℕ → ℕ → List NativeObject → Type 0
LiveFrom publisher stream n [] = Unit {0}
LiveFrom publisher stream n (o ∷ os) =
    (o.header.publisher_id ≡ publisher)
    × (o.header.stream_id ≡ stream)
    × (n < o.header.sequence)
    × LiveFrom publisher stream o.header.sequence os

-- An object is accepted exactly when it is of the guard's stream and newer than all before it.
pub accept_iff :
    (g : LiveSequenceGuard) (o : NativeObject) (g' : LiveSequenceGuard)
    → (accept g o ≡ ok g') ↔ (
        (o.header.publisher_id ≡ g.publisher_id)
        × (o.header.stream_id ≡ g.stream_id)
        × (g.last_sequence < o.header.sequence)
        × (g' ≡ record g { last_sequence = o.header.sequence }))
unfolding accept
accept_iff g o g' = (λ h. ground arith, λ h. ground arith)

-- Whatever objects arrive, those that a LiveSequenceGuard lets through all belong to its
-- publisher and stream, and their sequences strictly increase above its anchor.
pub accept_all-LiveFrom :
    (g : LiveSequenceGuard) (os : List NativeObject)
    → LiveFrom g.publisher_id g.stream_id g.last_sequence (accept_all g os)
unfolding accept_all
accept_all-LiveFrom g [] = tt
accept_all-LiveFrom g (o ∷ os) = elim (Result-cases (accept g o)) [
  | inr (x, e) ↦ rw e (accept_all-LiveFrom g os)
  | inl (g', e) ↦ rw e (step g' ((accept_iff g o g').0 e) (accept_all-LiveFrom g' os))
]
  where
    step :
        (g' : LiveSequenceGuard)
        → ((o.header.publisher_id ≡ g.publisher_id)
            × (o.header.stream_id ≡ g.stream_id)
            × (g.last_sequence < o.header.sequence)
            × (g' ≡ record g { last_sequence = o.header.sequence }))
        → LiveFrom g'.publisher_id g'.stream_id g'.last_sequence (accept_all g' os)
        → LiveFrom g.publisher_id g.stream_id g.last_sequence (o ∷ accept_all g' os)
    step g' (p, s, n, e) later = (
      p,
      s,
      n,
      subst
          (λ (q : LiveSequenceGuard).
            LiveFrom q.publisher_id q.stream_id q.last_sequence (accept_all g' os))
          e later,
    )
