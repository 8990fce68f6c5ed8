-- ===== src/Net/Http/Url/Tests.antt =====
-- Encoding and decoding at concrete inputs.
use mif.Prelude.{runtime_error, ok, throws, ℕ, ◌≡◌, refl, List, [], ◌∷◌, arith}
use mif.Net.Http.Url.{encode_url, decode_url, encode_char, is_unreserved, scan_hex}
use mif.Net.Http.Url.RoundTrip.{decode_url-encode_url}

-- "a b/" and its code
abbrev text : List ℕ
text = b'a' ∷ b' ' ∷ b'/' ∷ 200 ∷ []

encode_text :
    encode_url text ≡ b'a' ∷ b'%' ∷ b'2' ∷ b'0' ∷ b'%' ∷ b'2' ∷ b'F' ∷ b'%' ∷ b'C' ∷ b'8' ∷ []
unfolding encode_url encode_char is_unreserved
encode_text = refl

-- An escape that is cut off is refused; a space and a sign are taken by the stream.
decode_odd :
    (decode_url (b'a' ∷ b'%' ∷ b'2' ∷ []) ≡ throws runtime_error)
    × (decode_url (b'%' ∷ b' ' ∷ b'4' ∷ []) ≡ ok (4 ∷ []))
    × (decode_url (b'%' ∷ b'-' ∷ b'1' ∷ []) ≡ ok (255 ∷ []))
    × (decode_url (b'%' ∷ b'4' ∷ b'G' ∷ []) ≡ ok (4 ∷ []))
unfolding decode_url scan_hex
decode_odd = (refl, refl, refl, refl)

decode_url-encode_url_example : decode_url (encode_url text) ≡ ok text
decode_url-encode_url_example = decode_url-encode_url text (omega arith)
