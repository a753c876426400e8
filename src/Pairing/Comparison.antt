-- ===== src/Pairing/Comparison.antt =====
-- crates/protocol/src/pairing.rs: the text that the two humans compare.
use glacialcast.Prelude.{
  ℕ, zero, suc, ◌+◌, ◌*◌, ◌/◌, ◌%◌, ◌^◌, ◌<◌, ◌≡◌, refl, Option, some, List, [], ◌∷◌, length, ok,
  arith, subst, >>=-eq-ok, ok-injective,
}
use glacialcast.Native.External.{External}
use glacialcast.Pairing.Types.{PairRequest, PairOffer}
use glacialcast.Pairing.Postcard.{PairingPostcard}
use glacialcast.Pairing.Offer.{transcript_hash}
use glacialcast.Pairing.Words.{
  Text, wordlist, wordlist_len, get_elem?, prefix_bits, suffix_bits, first_index, second_index,
  third_index, joined, render, authentication_string,
}

get_elem?-some :
    {A : Type 0} (xs : List A) (i : ℕ) → i < length xs → (x : A) × (get_elem? xs i ≡ some x)
get_elem?-some [] i h = absurd (omega arith)
get_elem?-some (x ∷ xs) zero h = (x, refl)
get_elem?-some (x ∷ xs) (suc i) h = get_elem?-some xs i (omega arith)

-- The words and digits that stand for a hash.
pub record Compared (words : List Text) (hash : ℕ) (text : Option Text) : Type 0 where
  pub first : Text
  pub second : Text
  pub third : Text
  pub i : ℕ
  pub j : ℕ
  pub k : ℕ
  pub digits : ℕ
  pub at_first : get_elem? words i ≡ some first
  pub at_second : get_elem? words j ≡ some second
  pub at_third : get_elem? words k ≡ some third
  pub thirty_bits : i * 2 ^ 20 + j * 2 ^ 10 + k ≡ hash / 2 ^ 226 % 2 ^ 30
  pub two_digits : digits < 100
  pub shown : text ≡ some (joined first second third digits)

render-Compared :
    (words : List Text) (hash : ℕ)
    → length words ≡ wordlist_len
    → Compared words hash (render words hash)
unfolding render
render-Compared words hash h =
    let bits = prefix_bits hash in
    let (first, a) = get_elem?-some words (first_index bits) (omega arith) in
    let (second, b) = get_elem?-some words (second_index bits) (omega arith) in
    let (third, c) = get_elem?-some words (third_index bits) (omega arith) in
    record {
      first = first;
      second = second;
      third = third;
      i = first_index bits;
      j = second_index bits;
      k = third_index bits;
      digits = suffix_bits hash % 100;
      at_first = a;
      at_second = b;
      at_third = c;
      thirty_bits = omega arith;
      two_digits = omega arith;
      shown = rw (a, b, c) refl;
    }

length-wordlist :
    (source : Text) {words : List Text} → wordlist source ≡ some words → length words ≡ wordlist_len
unfolding wordlist
length-wordlist source h = ground arith

-- When the word list is accepted and the transcript hash is returned, authentication_string
-- does not index out of range: its text is three words of the list, at indices that make up the
-- highest 30 bits of the hash, and two decimal digits.
pub authentication_string-Compared :
    (ext : External) (post : PairingPostcard) (source : Text) (words : List Text) (r : PairRequest)
    (o : PairOffer) (text : Option Text)
    → wordlist source ≡ some words
    → authentication_string ext post words r o ≡ ok text
    → (hash : ℕ) × (transcript_hash ext post r o ≡ ok hash) × Compared words hash text
unfolding authentication_string
authentication_string-Compared ext post source words r o text listed shown =
    let (hash, hashed, rendered) = >>=-eq-ok (transcript_hash ext post r o) _ shown in
    (
      hash,
      hashed,
      subst (Compared words hash) (ok-injective rendered)
          (render-Compared words hash (length-wordlist source listed)),
    )
