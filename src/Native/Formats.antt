-- ===== src/Native/Formats.antt =====
-- Serializers that read back what they wrote, to stand for Postcard in the tests: a value is a sequence of
-- numbers, a list comes after its length and an option after a mark.
use glacialcast.Prelude.{
  ℕ, zero, suc, ◌≡◌, refl, Bool, true, false, Option, none, some, [], ◌∷◌, ◌++◌, append_assoc,
  Bytes, length, take, drop, take-length-append, drop-length-append, ℤ, pos, negsuc,
}
use glacialcast.Native.Types.{IdentityPublic, SignatureBytes}

pub record Format (A : Type 0) : Type 0 where
  pub write : A → Bytes
  pub read : Bytes → Option (A × Bytes)
  pub read-write : (a : A) (rest : Bytes) → read (write a ++ rest) ≡ some (a, rest)

abbrev pub read_number : Bytes → Option (ℕ × Bytes)
read_number [] = none
read_number (n ∷ rest) = some (n, rest)

pub read_number-write : (n : ℕ) (rest : Bytes) → read_number ((n ∷ []) ++ rest) ≡ some (n, rest)
read_number-write n rest = refl

abbrev pub number : Format ℕ
number = record { write = λ n. n ∷ []; read = read_number; read-write = read_number-write }

abbrev pub read_list : Bytes → Option (Bytes × Bytes)
read_list [] = none
read_list (n ∷ rest) = some (take n rest, drop n rest)

pub read_list-write : (xs rest : Bytes) → read_list (length xs ∷ (xs ++ rest)) ≡ some (xs, rest)
read_list-write xs rest = rw (take-length-append xs rest, drop-length-append xs rest)

abbrev pub numbers : Format Bytes
numbers = record { write = λ xs. length xs ∷ xs; read = read_list; read-write = read_list-write }

module _ {A B : Type 0} where
  abbrev pub paired : A → Option (B × Bytes) → Option ((A × B) × Bytes)
  paired a none = none
  paired a (some (b, rest)) = some ((a, b), rest)

  abbrev pub then_read : Format B → Option (A × Bytes) → Option ((A × B) × Bytes)
  then_read g none = none
  then_read g (some (a, rest)) = paired a (g.read rest)

  abbrev pub read_both : Format A → Format B → Bytes → Option ((A × B) × Bytes)
  read_both f g bytes = then_read g (f.read bytes)

  pub read_both-write :
      (f : Format A) (g : Format B) (p : A × B) (rest : Bytes)
      → read_both f g ((f.write p.0 ++ g.write p.1) ++ rest) ≡ some (p, rest)
  read_both-write f g (a, b) rest = rw (
    append_assoc (f.write a) (g.write b) rest,
    f.read-write a (g.write b ++ rest),
    g.read-write b rest,
  )

  abbrev pub both : Format A → Format B → Format (A × B)
  both f g = record {
    write = λ p. f.write p.0 ++ g.write p.1;
    read = read_both f g;
    read-write = read_both-write f g;
  }

  abbrev pub map_read : (A → B) → Option (A × Bytes) → Option (B × Bytes)
  map_read to none = none
  map_read to (some (a, rest)) = some (to a, rest)

  abbrev pub read_as : (A → B) → Format A → Bytes → Option (B × Bytes)
  read_as to f bytes = map_read to (f.read bytes)

  pub read_as-write :
      (to : A → B) (from : B → A) (f : Format A) (to-from : (b : B) → to (from b) ≡ b) (b : B)
      (rest : Bytes)
      → read_as to f (f.write (from b) ++ rest) ≡ some (b, rest)
  read_as-write to from f to-from b rest = rw (f.read-write (from b) rest, to-from b)

  abbrev pub converted :
      (to : A → B) (from : B → A) → ((b : B) → to (from b) ≡ b) → Format A → Format B
  converted to from to-from f = record {
    write = λ b. f.write (from b);
    read = read_as to f;
    read-write = read_as-write to from f to-from;
  }

module _ {A : Type 0} where
  abbrev pub map_some : Option (A × Bytes) → Option (Option A × Bytes)
  map_some none = none
  map_some (some (a, rest)) = some (some a, rest)

  abbrev pub write_option : Format A → Option A → Bytes
  write_option f none = 0 ∷ []
  write_option f (some a) = 1 ∷ f.write a

  abbrev pub read_option : Format A → Bytes → Option (Option A × Bytes)
  read_option f [] = none
  read_option f (zero ∷ rest) = some (none, rest)
  read_option f (suc n ∷ rest) = map_some (f.read rest)

  pub read_option-write :
      (f : Format A) (o : Option A) (rest : Bytes)
      → read_option f (write_option f o ++ rest) ≡ some (o, rest)
  read_option-write f none rest = refl
  read_option-write f (some a) rest = rw (f.read-write a rest)

  abbrev pub optional : Format A → Format (Option A)
  optional f = record {
    write = write_option f;
    read = read_option f;
    read-write = read_option-write f;
  }

abbrev pub integer_of : ℕ × ℕ → ℤ
integer_of (zero, n) = pos n
integer_of (suc s, n) = negsuc n

abbrev pub parts_of : ℤ → ℕ × ℕ
parts_of (pos n) = (0, n)
parts_of (negsuc n) = (1, n)

pub integer_of-parts_of : (z : ℤ) → integer_of (parts_of z) ≡ z
integer_of-parts_of (pos n) = refl
integer_of-parts_of (negsuc n) = refl

abbrev pub integer : Format ℤ
integer = converted integer_of parts_of integer_of-parts_of (both number number)

abbrev pub flag_of : ℕ → Bool
flag_of zero = false
flag_of (suc n) = true

abbrev pub mark_of : Bool → ℕ
mark_of false = 0
mark_of true = 1

pub flag_of-mark_of : (b : Bool) → flag_of (mark_of b) ≡ b
flag_of-mark_of false = refl
flag_of-mark_of true = refl

abbrev pub flag : Format Bool
flag = converted flag_of mark_of flag_of-mark_of number

abbrev pub identity_format : Format IdentityPublic
identity_format =
    converted (λ (v, (s, k)). record { version = v; signing_key = s; kem_key = k })
      (λ (p : IdentityPublic). (p.version, (p.signing_key, p.kem_key))) (λ p. refl)
      (both number (both number number))

abbrev pub signature_format : Format SignatureBytes
signature_format =
    converted (λ (p : Bytes × Bytes). record { first = p.0; second = p.1 })
      (λ (s : SignatureBytes). (s.first, s.second)) (λ s. refl) (both numbers numbers)
