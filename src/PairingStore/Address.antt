-- ===== src/PairingStore/Address.antt =====
-- The parser of `std::net::SocketAddr` on code points, which crates/relay/src/pairing_store.rs applies to stored
-- source addresses. A parser takes the rest of the text and leaves what it did not read.
use glacialcast.Prelude.{
  ℕ, zero, suc, ◌+◌, ◌-◌, ◌*◌, ◌^◌, Bool, true, false, not, ◌&&◌, ◌||◌, Option, none, some, List,
  [], ◌∷◌, ◌++◌, length, ltb, leb, ◌==◌, if◌then◌else◌,
}
use glacialcast.Pairing.Words.{Text}

-- An IPv4 address by its octets, an IPv6 one by its eight groups, with the port and the scope.
pub data SocketAddr : Type 0 where
  v4 : List ℕ → ℕ → SocketAddr
  v6 : List ℕ → ℕ → ℕ → SocketAddr

abbrev Parser : Type 0 → Type 0
Parser A = Text → Option (A × Text)

abbrev and_then : {A B : Type 0} → Option (A × Text) → (A → Parser B) → Option (B × Text)
and_then none next = none
and_then (some (a, rest)) next = next a rest

abbrev or_else : {A : Type 0} → Option A → Option A → Option A
or_else none other = other
or_else (some a) other = some a

-- `read_given_char`.
abbrev given_char : ℕ → Parser (Unit {0})
given_char c [] = none
given_char c (x ∷ xs) = if x == c then some (tt, xs) else none

-- `char::to_digit` for the radix 10 or 16.
abbrev between : ℕ → ℕ → ℕ → Bool
between first last c = leb first c && leb c last

abbrev below : ℕ → ℕ → Option ℕ
below radix d = if ltb d radix then some d else none

abbrev to_digit : ℕ → ℕ → Option ℕ
to_digit radix c =
    if between 0x30 0x39 c
    then below radix (c - 0x30)
    else if between 0x41 0x46 c
    then below radix (c - 0x37)
    else if between 0x61 0x66 c
    then below radix (c - 0x57)
    else none

-- The longest run of digits: its value, how many they are, and the rest.
unfoldable digits : ℕ → ℕ → ℕ → Text → ℕ × ℕ × Text
digits radix value count [] = (value, count, [])
digits radix value count (c ∷ cs) = elim (to_digit radix c) [
  | none ↦ (value, count, c ∷ cs)
  | some d ↦ digits radix (value * radix + d) (suc count) cs
]

abbrev starts_with_zero : Text → Bool
starts_with_zero [] = false
starts_with_zero (c ∷ cs) = c == 0x30

abbrev exceeds : Option ℕ → ℕ → Bool
exceeds none count = false
exceeds (some most) count = ltb most count

-- `read_number` of an unsigned integer with so many values.
unfoldable number : ℕ → ℕ → Option ℕ → Bool → Parser ℕ
unfolding digits
number radix values most leading_zero text =
    let (value, count, rest) = digits radix 0 0 text in
    if count == 0
      || exceeds most count
      || not leading_zero && starts_with_zero text && ltb 1 count
      || leb values value
    then none
    else some (value, rest)

-- `read_separator`: the separator stands before every item but the first.
abbrev separated : {A : Type 0} → ℕ → ℕ → Parser A → Parser A
separated c zero item text = item text
separated c (suc index) item text = and_then (given_char c text) (λ u rest. item rest)

abbrev octet : ℕ → Parser ℕ
octet index = separated 0x2e index (number 10 256 (some 3) false)

-- `read_ipv4_addr`.
unfoldable ipv4 : Parser (List ℕ)
unfolding number
ipv4 text = and_then (octet 0 text) (λ a r. and_then (octet 1 r) (λ b s.
    and_then (octet 2 s) (λ c t. and_then (octet 3 t) (λ d u. some (a ∷ b ∷ c ∷ d ∷ [], u)))))

abbrev port : Parser ℕ
port text = and_then (given_char 0x3a text) (λ u rest. number 10 (2 ^ 16) none true rest)

-- Two groups of an IPv4 address at the end of an IPv6 one.
abbrev embedded : List ℕ → List ℕ
embedded (a ∷ b ∷ c ∷ d ∷ []) = (a * 256 + b) ∷ (c * 256 + d) ∷ []
embedded other = []

-- `read_groups`, of at most so many groups from an index on: the groups, whether they end in an IPv4
-- address, and the rest.
unfoldable groups : ℕ → ℕ → Text → List ℕ × Bool × Text
unfolding ipv4
groups zero index text = ([], false, text)
groups (suc left) index text = elim (if leb 1 left then separated 0x3a index ipv4 text else none) [
  | some (address, rest) ↦ (embedded address, true, rest)
  | none ↦ elim (separated 0x3a index (number 16 (2 ^ 16) (some 4) true) text) [
    | none ↦ ([], false, text)
    | some (group, rest) ↦
        let (more, ipv4_end, after) = groups left (suc index) rest in
        (group ∷ more, ipv4_end, after)
  ]
]

abbrev zeros : ℕ → List ℕ
zeros zero = []
zeros (suc n) = 0 ∷ zeros n

abbrev filled : List ℕ → List ℕ → List ℕ
filled head tail = head ++ (zeros (8 - length head - length tail) ++ tail)

-- `read_ipv6_addr`.
unfoldable ipv6 : Parser (List ℕ)
unfolding groups
ipv6 text =
    let (head, ipv4_end, rest) = groups 8 0 text in
    if length head == 8
    then some (head, rest)
    else if ipv4_end
    then none
    else and_then (given_char 0x3a rest) (λ u after_one.
      and_then (given_char 0x3a after_one) (λ v after_two.
        let (tail, tail_ipv4, after) = groups (7 - length head) 0 after_two in
        some (filled head tail, after)))

-- `read_scope_id`, or 0.
abbrev scope : Text → ℕ × Text
scope text = elim (and_then (given_char 0x25 text) (λ u rest. number 10 (2 ^ 32) none true rest)) [
  | none ↦ (0, text)
  | some found ↦ found
]

unfoldable socket_v4 : Parser SocketAddr
unfolding ipv4
socket_v4 text =
    and_then (ipv4 text) (λ ip rest. and_then (port rest) (λ p after. some (v4 ip p, after)))

unfoldable socket_v6 : Parser SocketAddr
unfolding ipv6
socket_v6 text = and_then (given_char 0x5b text) (λ u opened. and_then (ipv6 opened) (λ ip rest.
    let (scope_id, scoped) = scope rest in
    and_then (given_char 0x5d scoped)
      (λ v closed. and_then (port closed) (λ p after. some (v6 ip p scope_id, after)))))

abbrev whole : {A : Type 0} → Option (A × Text) → Option A
whole none = none
whole (some (a, [])) = some a
whole (some (a, x ∷ xs)) = none

-- `str::parse::<SocketAddr>`.
unfoldable pub parse_socket_addr : Text → Option SocketAddr
unfolding socket_v4 socket_v6
parse_socket_addr text = whole (or_else (socket_v4 text) (socket_v6 text))
