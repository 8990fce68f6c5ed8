-- ===== src/Serialization/Json/Text.antt =====
-- `Serialize` and `Deserialize` of json.h (828-935): objects as texts, and back.
use mif.Prelude.{if◌then◌else◌, ℕ, ◌≡◌, refl, List, [], ◌∷◌}
use mif.Serialization.Json.{
  is_empty, Json, Members, no_members, Outcome, done, fails, not_object, reparsed, reparsed_members,
  Library, ◌>>=◌,
}
use mif.Serialization.Json.Shapes.{
  Shape, Fields, no_fields, field, reflected, El, Record, default, default_record,
}
use mif.Serialization.Json.Write.{to_json, write_record}
use mif.Serialization.Json.Read.{from_json, read_record, read_bases, null_if_missing}
use mif.Serialization.Json.Storable.{IsLossless, IsStorable}
use mif.Serialization.Json.Records.{Agrees-self, Agrees-AreDisjoint}
use mif.Serialization.Json.RoundTrip.{kept, kept_record}

-- `as_object`, which throws where the value is no object
abbrev as_object : Json → Outcome Members
as_object (Json.object m) = done m
as_object _ = fails not_object

module _ (lib : Library) where
  -- The value that is printed: the object itself, or under the name of the root
  unfoldable pub document : (s : Shape) → El s → List ℕ → Outcome Json
  document s x root_name = to_json lib s x >>= λ j.
      done (if is_empty root_name then j else Json.object (lib.set root_name j no_members))

  unfoldable pub serialize : (s : Shape) → El s → List ℕ → Outcome (List ℕ)
  unfolding document
  serialize s x root_name = document s x root_name >>= λ j. done (lib.print j)

  -- `operator []` adds the name with a null where it is missing.
  unfoldable pub deserialize : (s : Shape) → List ℕ → List ℕ → Outcome (El s)
  deserialize s text root_name = do
    root ← lib.parse text
    j ←
        if is_empty root_name
        then done root
        else as_object root >>= λ m. done (null_if_missing (lib.find root_name m))
    from_json lib s j (default s)

  -- The functions of a reflected type, which take no name
  unfoldable pub reflected_document :
      (bases fields : Fields) → Record bases → Record fields → Outcome Json
  reflected_document bases fields inherited own = do
    root ← write_record lib bases inherited no_members
    whole ← write_record lib fields own root
    done (Json.object whole)

  unfoldable pub serialize_reflected :
      (bases fields : Fields) → Record bases → Record fields → Outcome (List ℕ)
  unfolding reflected_document
  serialize_reflected bases fields inherited own =
      reflected_document bases fields inherited own >>= λ j. done (lib.print j)

  -- Each base and each field asks for the object again; where there are none, nothing is asked.
  abbrev members_for : Fields → Json → Outcome Members
  members_for no_fields j = done no_members
  members_for (field name s fs) j = as_object j

  unfoldable pub deserialize_reflected :
      (bases fields : Fields) → List ℕ → Outcome (Record bases × Record fields)
  deserialize_reflected bases fields text = do
    root ← lib.parse text
    inherited ← members_for bases root >>= λ m. read_bases lib bases m (default_record bases)
    own ← members_for fields root >>= λ m. read_record lib fields m (default_record fields)
    done (inherited, own)

  -- The library reads a printed value back.
  abbrev pub ReadsPrinted : Outcome Json → Type 0
  ReadsPrinted printed = (j : Json) → printed ≡ done j → lib.parse (lib.print j) ≡ done (reparsed j)

  -- An object of a type without loss, its integers within their widths, its texts without zero
  -- bytes, its enumeration values among those reflected and its arrays of their length, is written
  -- as a text, under a name or without one, and this text is read as the same object under that
  -- name, wherever the JSON library reads the printed value back.
  pub deserialize-serialize :
      (s : Shape) (x : El s) (root_name : List ℕ)
      → IsLossless s
      → IsStorable s x
      → ReadsPrinted (document s x root_name)
      → (text : List ℕ) × (serialize s x root_name ≡ done text)
        × (deserialize s text root_name ≡ done x)
  unfolding document serialize deserialize reparsed
  deserialize-serialize s x [] lossless storable printed =
      let (j, wrote, red) = kept lib s x lossless storable in
      (lib.print j, rw wrote, rw (printed j (rw wrote)) red)
  deserialize-serialize s x (b ∷ name) lossless storable printed =
      let (j, wrote, red) = kept lib s x lossless storable in
      let root = lib.set (b ∷ name) j no_members in
      (
        lib.print (Json.object root),
        rw wrote,
        rw
            (
              printed (Json.object root) (rw wrote),
              lib.find-reparsed (b ∷ name) root,
              lib.find-set (b ∷ name) j no_members,
            )
            red,
      )

  members_for-object :
      (fs : Fields) (m : Members) (old : Record fs)
      → ((members_for fs (Json.object m) >>= λ w. read_record lib fs w old)
          ≡ read_record lib fs m old)
        × ((members_for fs (Json.object m) >>= λ w. read_bases lib fs w old)
            ≡ read_bases lib fs m old)
  unfolding from_json
  members_for-object no_fields m old = (refl, refl)
  members_for-object (field name s fs) m old = (refl, refl)

  -- A reflected object whose bases and fields have all different names, of types without loss and
  -- with storable values, is read from the text that is written of it, wherever the JSON library
  -- reads the printed value back.
  pub deserialize_reflected-serialize_reflected :
      (bases fields : Fields) (inherited : Record bases) (own : Record fields)
      → IsLossless (reflected bases fields)
      → IsStorable (reflected bases fields) (inherited, own)
      → ReadsPrinted (reflected_document bases fields inherited own)
      → (text : List ℕ) × (serialize_reflected bases fields inherited own ≡ done text)
        × (deserialize_reflected bases fields text ≡ done (inherited, own))
  unfolding reflected_document serialize_reflected deserialize_reflected reparsed
  deserialize_reflected-serialize_reflected bs fs inherited own (lb, lf, db, df, apart) h printed =
      let above = kept_record lib bs inherited lb db h.0 no_members in
      let below = kept_record lib fs own lf df h.1 above.whole in
      let final = below.whole in
      let shared = Agrees-AreDisjoint lib bs fs final above.whole apart below.kept in
      let seen = reparsed_members final in
      (
        lib.print (Json.object final),
        rw (above.wrote, below.wrote),
        rw
            (
              printed (Json.object final) (rw (above.wrote, below.wrote)),
              (members_for-object bs seen (default_record bs)).1,
              (members_for-object fs seen (default_record fs)).0,
              above.red_bases final shared,
              below.red final (Agrees-self lib fs final),
            )
            refl,
      )
