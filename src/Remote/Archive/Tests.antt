-- ===== src/Remote/Archive/Tests.antt =====
-- An archive of numbers, with and without the check of names, and packets in it.
use mif.Prelude.{
  if◌then◌else◌, ◌==◌, length, take, drop, take-append_left, drop-append_left, bytes_beq_iff, ℕ,
  zero, suc, ◌^◌, ◌≡◌, refl, ◌≢◌, ◌⊎◌, inl, inr, Bool, true, false, not, ◌&&◌, List, [], ◌∷◌, ◌++◌,
  arith, bytes_eq, nat_eq,
}
use mif.Serialization.Json.{Outcome, fails, done, parse_error}
use mif.Remote.Archive.{
  Shape, text, flag, value, El, Entry, Archive, entry, Serializer, serializer, put_params,
  put_exception, get_buffer, Deserializer, deserializer, get_params,
}
use mif.Remote.Archive.RoundTrip.{get_params-get_buffer, get_params-get_buffer_checked}

-- The other type is std::uint32_t.
abbrev Number : Unit {0} → Type 0
Number k = ℕ

abbrev encoded : (s : Shape (Unit {0})) → El Number s → List ℕ
encoded text xs = 0 ∷ length xs ∷ xs
encoded flag b = 1 ∷ (if b then 1 else 0) ∷ []
encoded (value k) n = 2 ∷ n ∷ []

unfoldable write_all : List (Entry Number) → List ℕ
write_all [] = []
write_all (e ∷ es) = length e.name ∷ (e.name ++ (encoded e.shape e.content ++ write_all es))

unfoldable decode : (s : Shape (Unit {0})) → List ℕ → Outcome (El Number s × List ℕ)
decode text (zero ∷ size ∷ stream) = done (take size stream, drop size stream)
decode flag ((suc zero) ∷ b ∷ stream) = done (b == 1, stream)
decode (value k) ((suc (suc zero)) ∷ n ∷ stream) = done (n, stream)
decode s stream = fails parse_error

unfoldable load_named :
    Bool → (s : Shape (Unit {0})) → List ℕ → List ℕ → Outcome (El Number s × List ℕ)
load_named checks s asked [] = fails parse_error
load_named checks s asked (size ∷ stream) =
    if checks && not (take size stream == asked)
    then fails parse_error
    else decode s (drop size stream)

decode-encoded :
    (s : Shape (Unit {0})) (x : El Number s) (rest : List ℕ)
    → decode s (encoded s x ++ rest) ≡ done (x, rest)
unfolding decode
decode-encoded text xs rest = rw (take-append_left xs rest, drop-append_left xs rest) refl
decode-encoded flag true rest = refl
decode-encoded flag false rest = refl
decode-encoded (value k) n rest = refl

load_named-write_all :
    (checks : Bool) (s : Shape (Unit {0})) (name asked : List ℕ) (x : El Number s)
    (es : List (Entry Number))
    → (checks ≡ false) ⊎ (name ≡ asked)
    → load_named checks s asked (write_all (entry s name x ∷ es)) ≡ done (x, write_all es)
unfolding load_named write_all
load_named-write_all checks s name asked x es (inl h) =
    rw (h, drop-append_left name (encoded s x ++ write_all es)) (decode-encoded s x (write_all es))
load_named-write_all checks s name asked x es (inr e) =
    rw
      (
        take-append_left name (encoded s x ++ write_all es),
        drop-append_left name (encoded s x ++ write_all es),
        (bytes_beq_iff name asked).1 e,
        decode-encoded s x (write_all es),
      )
      (ground arith)

load_named-write_all_other :
    (checks : Bool) (s : Shape (Unit {0})) (name asked : List ℕ) (x : El Number s)
    (es : List (Entry Number))
    → checks ≡ true
    → name ≢ asked
    → load_named checks s asked (write_all (entry s name x ∷ es)) ≡ fails parse_error
unfolding load_named write_all
load_named-write_all_other checks s name asked x es h differs =
    rw (h, take-append_left name (encoded s x ++ write_all es))
      (ground (arith, bytes_beq_iff name asked))

abbrev start_of : List ℕ → Outcome (List ℕ)
start_of [] = fails parse_error
start_of (header ∷ stream) = done stream

abbrev archive : Bool → Archive Number
archive checks = record {
  Stream = List ℕ;
  write = λ es. 22 ∷ write_all es;
  opened = write_all;
  start = start_of;
  load = load_named checks;
  checks_names = checks;
  start-write = λ es. refl;
  write_header = λ es. refl;
  load-opened = load_named-write_all checks;
  load-opened_other = load_named-write_all_other checks;
}

-- A request with a text and a number, and a response with an exception
abbrev parts : List (Shape (Unit {0}))
parts = text ∷ value tt ∷ []

abbrev request_packet : Serializer Number
request_packet =
    serializer true (117 ∷ []) (105 ∷ []) (73 ∷ []) (109 ∷ []) parts (65 ∷ 66 ∷ [], (2 ^ 31, tt))

abbrev response_packet : Serializer Number
response_packet = put_exception (33 ∷ []) request_packet

get_params-get_buffer_example :
    (d : Deserializer (archive false)) × (deserializer
        (archive false)
        (get_buffer (archive false) true response_packet)
      ≡ done d)
    × (d.uuid ≡ response_packet.uuid)
    × (d.type ≡ response_packet.type)
    × (d.instance_id ≡ response_packet.instance_id)
    × (d.interface_id ≡ response_packet.interface_id)
    × (d.method_id ≡ response_packet.method_id)
    × (d.exception ≡ response_packet.exception)
    × (get_params (archive false) response_packet.shapes d ≡ done (response_packet.params, []))
unfolding write_all
get_params-get_buffer_example = get_params-get_buffer (archive false) response_packet refl

get_params-get_buffer_checked_example :
    (d : Deserializer (archive true)) × (deserializer
        (archive true)
        (get_buffer (archive true) true (put_params parts (65 ∷ [], (7, tt)) request_packet))
      ≡ done d)
    × (get_params (archive true) parts d ≡ fails parse_error)
get_params-get_buffer_checked_example =
    get_params-get_buffer_checked (archive true) request_packet text (value tt ∷ [])
      (65 ∷ [], (7, tt)) refl
