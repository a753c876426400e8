-- ===== src/Pairing/Words.antt =====
-- crates/protocol/src/pairing.rs and auth_words.rs: the words that the two humans compare. Texts are given
-- by their code points.
use glacialcast.Prelude.{
  ℕ, zero, suc, ◌+◌, ◌/◌, ◌%◌, ◌^◌, Option, none, some, List, [], ◌∷◌, ◌++◌, length, codes, Result,
  ok, ◌>>=◌, ◌==◌, if◌then◌else◌,
}
use glacialcast.Native.External.{External}
use glacialcast.Pairing.Types.{PairingError, PairRequest, PairOffer}
use glacialcast.Pairing.Postcard.{PairingPostcard}
use glacialcast.Pairing.Offer.{transcript_hash}

abbrev pub Text : Type 0
Text = List ℕ

abbrev pub wordlist_len : ℕ
wordlist_len = 1024

-- `str::lines`, of which the empty ones are dropped here: a line ends at LF, with a CR before it.
abbrev pub add_line : Text → List Text → List Text
add_line [] found = found
add_line (c ∷ cs) found = (c ∷ cs) ∷ found

abbrev pub without_cr : Text → Text
without_cr [] = []
without_cr (c ∷ []) = if c == 0x0d then [] else c ∷ []
without_cr (c ∷ (d ∷ ds)) = c ∷ without_cr (d ∷ ds)

unfoldable pub lines_from : Text → Text → List Text
lines_from line [] = add_line line []
lines_from line (c ∷ cs) =
    if c == 0x0a
    then add_line (without_cr line) (lines_from [] cs)
    else lines_from (line ++ c ∷ []) cs

-- `wordlist`, of the text of the included file; `none` where its assertion fails.
unfoldable pub wordlist : Text → Option (List Text)
unfolding lines_from
wordlist source =
    let words = lines_from [] source in if length words == wordlist_len then some words else none

-- Indexing; `none` where it panics.
abbrev pub get_elem? {ℓ} : {A : Type ℓ} → List A → ℕ → Option A
get_elem? [] i = none
get_elem? (x ∷ xs) zero = some x
get_elem? (x ∷ xs) (suc i) = get_elem? xs i

-- The first four bytes of a hash as a `u32`, and the two that follow as a `u16`.
abbrev pub prefix_bits : ℕ → ℕ
prefix_bits hash = hash / 2 ^ 224 % 2 ^ 32

abbrev pub suffix_bits : ℕ → ℕ
suffix_bits hash = hash / 2 ^ 208 % 2 ^ 16

abbrev pub first_index : ℕ → ℕ
first_index bits = bits / 2 ^ 22 % 1024

abbrev pub second_index : ℕ → ℕ
second_index bits = bits / 2 ^ 12 % 1024

abbrev pub third_index : ℕ → ℕ
third_index bits = bits / 2 ^ 2 % 1024

-- `{:02}` of a number below 100.
abbrev pub two_digits : ℕ → Text
two_digits n = (b'0' + n / 10) ∷ ((b'0' + n % 10) ∷ [])

abbrev pub joined : Text → Text → Text → ℕ → Text
joined first second third digits =
    first ++ (codes "-" ++ (second ++ (codes "-" ++ (third ++ (codes " " ++ two_digits digits)))))

abbrev pub with_third : Text → Text → Option Text → ℕ → Option Text
with_third first second none digits = none
with_third first second (some third) digits = some (joined first second third digits)

abbrev pub with_second : Text → Option Text → Option Text → ℕ → Option Text
with_second first none third digits = none
with_second first (some second) third digits = with_third first second third digits

abbrev pub with_words : Option Text → Option Text → Option Text → ℕ → Option Text
with_words none second third digits = none
with_words (some first) second third digits = with_second first second third digits

unfoldable pub render : List Text → ℕ → Option Text
render words hash =
    with_words (get_elem? words (first_index (prefix_bits hash)))
      (get_elem? words (second_index (prefix_bits hash)))
      (get_elem? words (third_index (prefix_bits hash))) (suffix_bits hash % 100)

-- `authentication_string`; `none` where the indexing panics.
unfoldable pub authentication_string :
    External
    → PairingPostcard
    → List Text
    → PairRequest
    → PairOffer
    → Result PairingError (Option Text)
unfolding render
authentication_string ext post words request offer = do
  hash ← transcript_hash ext post request offer
  ok (render words hash)
