-- ===== src/Net/Http/Url.antt =====
-- `EncodeUrl` and `DecodeUrl` of src/mif/net/http/detail/utility.cpp, in the classic locale. A
-- string is the list of its bytes.
pub mod RoundTrip
mod Tests
use mif.Prelude.{
  ltb, leb, nat_beq, if◌then◌else◌, runtime_error, Result, ok, throws, ◌>>=◌, ℕ, ◌+◌, ◌-◌, ◌*◌, ◌/◌,
  ◌%◌, Bool, ◌&&◌, ◌||◌, Option, none, some, List, [], ◌∷◌, ◌++◌,
}

-- `std::isalnum`; the bytes from 128 on are not letters in the classic locale.
is_alnum : ℕ → Bool
is_alnum c =
    (leb b'0' c && leb c b'9') || ((leb b'A' c && leb c b'Z') || (leb b'a' c && leb c b'z'))

-- The bytes that `EncodeUrl` leaves as they are.
pub is_unreserved : ℕ → Bool
unfolding is_alnum
is_unreserved c =
    is_alnum c || (nat_beq c b'-' || (nat_beq c b'_' || (nat_beq c b'.' || nat_beq c b'~')))

-- One hexadecimal digit of `std::hex` and `std::uppercase`
upper_hex : ℕ → ℕ
upper_hex n = if ltb n 10 then b'0' + n else b'A' + (n - 10)

-- `setw(2)` with the fill '0': a byte has one digit or two.
pub encode_char : ℕ → List ℕ
unfolding upper_hex
encode_char c =
    if is_unreserved c then c ∷ [] else b'%' ∷ upper_hex (c / 16) ∷ upper_hex (c % 16) ∷ []

-- `EncodeUrl`
pub encode_url : List ℕ → List ℕ
encode_url [] = []
encode_url (c ∷ url) = encode_char c ++ encode_url url

-- The value of a hexadecimal digit
digit : ℕ → Option ℕ
digit c =
    if leb b'0' c && leb c b'9'
    then some (c - b'0')
    else (if leb b'A' c && leb c b'F'
        then some (c - b'A' + 10)
        else (if leb b'a' c && leb c b'f' then some (c - b'a' + 10) else none))

-- `std::isspace`
is_space : ℕ → Bool
is_space c = (leb 9 c && leb c 13) || nat_beq c 32

-- The second character after a digit `v` of the character `a`: another digit, the `x` of a prefix
-- `0x` with no digits behind it, which fails, or a character that ends the number.
second : ℕ → ℕ → ℕ → Option ℕ
unfolding digit
second a v b = elim (digit b) [
  | some w ↦ some (16 * v + w)
  | none ↦ if nat_beq a b'0' && (nat_beq b b'x' || nat_beq b b'X') then none else some v
]

-- `is >> std::hex >> value` on two characters, and the cast to `char`: white space is skipped,
-- a sign is taken.
unfoldable pub scan_hex : ℕ → ℕ → Option ℕ
unfolding digit is_space second
scan_hex a b =
    if is_space a || nat_beq a b'+'
    then digit b
    else (if nat_beq a b'-'
        then elim (digit b) [ some v ↦ some ((256 - v) % 256) | none ↦ none ]
        else elim (digit a) [ some v ↦ second a v b | none ↦ none ])

-- `out += c` before what the rest of the loop appends
abbrev pub push : ℕ → Result (List ℕ) → Result (List ℕ)
push c r = r >>= λ s. ok (c ∷ s)

-- A character that begins no escape
abbrev pub plain : ℕ → ℕ
plain c = if nat_beq c b'+' then b' ' else c

-- The escape of two characters, before what the rest of the loop appends
abbrev pub escape : Option ℕ → Result (List ℕ) → Result (List ℕ)
escape none r = throws runtime_error
escape (some v) r = push v r

-- `DecodeUrl`
unfoldable pub decode_url : List ℕ → Result (List ℕ)
decode_url [] = ok []
decode_url (c ∷ []) = if nat_beq c b'%' then throws runtime_error else ok (plain c ∷ [])
decode_url (c ∷ a ∷ []) =
    let next = decode_url (a ∷ []) in
    if nat_beq c b'%' then throws runtime_error else push (plain c) next
decode_url (c ∷ a ∷ b ∷ url) =
    let skip = decode_url url in
    let next = decode_url (a ∷ b ∷ url) in
    if nat_beq c b'%' then escape (scan_hex a b) skip else push (plain c) next
