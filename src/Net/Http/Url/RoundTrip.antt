-- ===== src/Net/Http/Url/RoundTrip.antt =====
-- Decoding what was encoded.
use mif.Prelude.{
  nat_beq, ok, All, ℕ, zero, suc, ◌<◌, ◌≡◌, refl, ap, ◌∙◌, Bool, true, false, not, ◌&&◌, Option,
  none, some, List, [], ◌∷◌, ◌++◌, arith,
}
use mif.Net.Http.Url.{
  is_unreserved, encode_char, encode_url, scan_hex, push, plain, escape, decode_url,
}

abbrev pub IsByte : ℕ → Type 0
IsByte c = c < 256

-- A test of every number below a bound
holds_below : (ℕ → Bool) → ℕ → Bool
holds_below test zero = true
holds_below test (suc m) = holds_below test m && test m

test_below : (test : ℕ → Bool) (m c : ℕ) → c < m → holds_below test m ≡ true → test c ≡ true
unfolding holds_below
test_below test zero c less all = absurd (omega arith)
test_below test (suc m) c less all = ground (arith, test_below test m c)

is_code : ℕ → Option ℕ → Bool
is_code c none = false
is_code c (some v) = nat_beq v c

-- What the encoding of one byte looks like, as a test
encodes : ℕ → List ℕ → Bool
encodes c (x ∷ []) = nat_beq x c && (not (nat_beq c b'%') && not (nat_beq c b'+'))
encodes c (x ∷ a ∷ b ∷ []) = nat_beq x b'%' && is_code c (scan_hex a b)
encodes c _ = false

encodes-encode_char : holds_below (λ c. encodes c (encode_char c)) 256 ≡ true
unfolding holds_below encodes is_code encode_char scan_hex is_unreserved
encodes-encode_char = refl

decode_url-plain :
    (c : ℕ) (url : List ℕ)
    → nat_beq c b'%' ≡ false
    → decode_url (c ∷ url) ≡ push (plain c) (decode_url url)
unfolding decode_url
decode_url-plain c [] h = ground arith
decode_url-plain c (a ∷ []) h = rw h
decode_url-plain c (a ∷ b ∷ url) h = rw h

decode_url-escape :
    (c a b : ℕ) (url : List ℕ)
    → nat_beq c b'%' ≡ true
    → decode_url (c ∷ a ∷ b ∷ url) ≡ escape (scan_hex a b) (decode_url url)
unfolding decode_url
decode_url-escape c a b url h = rw h

is_code_sound : (c : ℕ) (o : Option ℕ) → is_code c o ≡ true → o ≡ some c
unfolding is_code
is_code_sound c none h = cc
is_code_sound c (some v) h = ground arith

decode_url-encodes :
    (c : ℕ) (xs url : List ℕ)
    → encodes c xs ≡ true
    → decode_url (xs ++ url) ≡ push c (decode_url url)
unfolding encodes
decode_url-encodes c (x ∷ []) url h = decode_url-plain x url (ground arith) ∙ ground arith
decode_url-encodes c (x ∷ a ∷ b ∷ []) url h =
    decode_url-escape x a b url (ground arith)
    ∙ ap (λ (o : Option ℕ). escape o (decode_url url))
        (is_code_sound c (scan_hex a b) (ground arith))
decode_url-encodes c [] url h = cc
decode_url-encodes c (x ∷ a ∷ []) url h = cc
decode_url-encodes c (x ∷ a ∷ b ∷ d ∷ e) url h = cc

-- Decoding gives back every string of bytes (numbers below 256) that was encoded, the reserved ones
-- included.
pub decode_url-encode_url : (s : List ℕ) → All IsByte s → decode_url (encode_url s) ≡ ok s
unfolding encode_url decode_url
decode_url-encode_url [] h = refl
decode_url-encode_url (c ∷ s) h =
    decode_url-encodes c (encode_char c) (encode_url s)
      (test_below (λ x. encodes x (encode_char x)) 256 c h.0 encodes-encode_char)
    ∙ rw (decode_url-encode_url s h.1)
