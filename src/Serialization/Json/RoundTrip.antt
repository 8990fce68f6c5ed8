-- ===== src/Serialization/Json/RoundTrip.antt =====
-- What json.h writes of an object, it reads back.
use mif.Prelude.{length, All, All-map, ℕ, ◌≡◌, refl, sym, ◌∙◌, false, none, some, List, arith}
use mif.Serialization.Json.{
  Json, Items, no_items, item, Members, no_members, done, reparsed, reparsed_items, Library,
}
use mif.Serialization.Json.Shapes.{
  Shape, Shapes, no_shapes, shape, Fields, no_fields, field, boolean, double, string, integer,
  plain_enum, named_enum, smart_pointer, optional, sequence, chars, fixed_array, pair, tuple,
  reflected, El, Els, Record, default, defaults, id_key, value_key,
}
use mif.Serialization.Json.Convert.{value_from, convert_string, convert_bool, convert_double}
use mif.Serialization.Json.Write.{to_json, write_tuple}
use mif.Serialization.Json.Read.{from_json, read_tuple, unless_null}
use mif.Serialization.Json.Storable.{
  IsLossless, AreLossless, AreFields, AreDistinct, IsStorable, AreStorable, IsStorableRecord,
  is_nullable, IsAbsent,
}
use mif.Serialization.Json.Values.{
  convert-value_from, c_str-IsText, string_to_enum-enum_to_string, ComesBack,
  read_items-write_items,
}
use mif.Serialization.Json.Records.{
  to_json-IsPresent, from_json_present, Agrees-self, Agrees-AreDisjoint, RecordComesBack,
}

module _ (lib : Library) where
  abbrev Kept : (s : Shape) → El s → Type 0
  Kept s x = ComesBack (to_json lib s) (λ j. from_json lib s j (default s)) x

  pointer-Kept :
      (s : Shape) (x : El s)
      → is_nullable s ≡ false
      → Kept s x
      → Kept (smart_pointer s) (some x) × Kept (optional s) (some x)
  unfolding to_json default
  pointer-Kept s x h (j, wrote, red) =
      let back =
        from_json_present lib s (reparsed j) none x (to_json-IsPresent lib s x j h wrote) red in
      ((j, wrote, back.0), (j, wrote, back.1))

  sequence-Kept : (s : Shape) (xs : List (El s)) → All (Kept s) xs → Kept (sequence s) xs
  unfolding to_json from_json reparsed default
  sequence-Kept s xs h =
      let (js, wrote, red, red_n) =
        read_items-write_items (to_json lib s) (λ j. from_json lib s j (default s)) xs h in
      (Json.array js, rw wrote, red)

  fixed_array-Kept :
      (n : ℕ) (s : Shape) (xs : List (El s))
      → length xs ≡ n
      → All (Kept s) xs
      → Kept (fixed_array n s) xs
  unfolding to_json from_json reparsed default
  fixed_array-Kept n s xs e h =
      let (js, wrote, red, red_n) =
        read_items-write_items (to_json lib s) (λ j. from_json lib s j (default s)) xs h in
      (Json.array js, rw wrote, rw (sym e) red_n)

  pair-Kept : (s t : Shape) (x : El s) (y : El t) → Kept s x → Kept t y → Kept (pair s t) (x, y)
  unfolding to_json from_json reparsed default
  pair-Kept s t x y (i, wrote_x, red_x) (j, wrote_y, red_y) =
      let first = lib.set id_key i no_members in
      let second = lib.set value_key j first in
      let id_found : lib.find id_key second ≡ some i =
        lib.find-set_other value_key id_key j first (ground arith)
        ∙ lib.find-set id_key i no_members in
      let value_found : lib.find value_key second ≡ some j = lib.find-set value_key j first in
      (
        Json.object second,
        rw (wrote_x, wrote_y),
        rw
            (
              lib.find-reparsed id_key second,
              lib.find-reparsed value_key second,
              id_found,
              value_found,
              red_x,
              red_y,
            )
            refl,
      )

  -- A field more, in front of fields that come back
  field-RecordComesBack :
      (name : List ℕ) (s : Shape) (fs : Fields) (x : El s) (r : Record fs) (root : Members)
      → IsAbsent name fs
      → (back : Kept s x) → RecordComesBack lib fs r (lib.set name back.0 root)
      → RecordComesBack lib (field name s fs) (x, r) root
  unfolding to_json from_json reparsed default
  field-RecordComesBack name s fs x r root absent (j, wrote, red) rest =
      let found : lib.find name rest.whole ≡ some j =
        rest.kept name absent ∙ lib.find-set name j root in
      record {
        whole = rest.whole;
        wrote = rw wrote rest.wrote;
        kept = λ q other. rest.kept q other.1 ∙ lib.find-set_other name q j root other.0;
        red = λ final same.
            rw (lib.find-reparsed name final, same.0, found, red, rest.red final same.1) refl;
        red_bases = λ final same.
            rw (lib.find-reparsed name final, same.0, found, red, rest.red_bases final same.1) refl;
      }

  mutual
    unfolding to_json from_json reparsed default unless_null convert_bool convert_double
        convert_string

    pub kept : (s : Shape) (x : El s) → IsLossless s → IsStorable s x → Kept s x
    kept boolean b l h = (Json.boolean b, refl, refl)
    kept double d l h = (Json.double d, refl, refl)
    kept string text l h = (Json.string text, refl, rw (c_str-IsText text h))
    kept (integer i) n l h = (value_from i n, refl, convert-value_from i n h)
    kept (plain_enum i) n l h = (value_from i n, refl, convert-value_from i n h)
    kept (named_enum items) v l h =
        let (name, wrote, text, red) = string_to_enum-enum_to_string items v l h in
        (Json.string name, rw wrote, rw (c_str-IsText name text) red)
    kept (smart_pointer s) none l h = (Json.null, refl, refl)
    kept (smart_pointer s) (some x) l h = (pointer-Kept s x l.0 (kept s x l.1 h)).0
    kept (optional s) none l h = (Json.null, refl, refl)
    kept (optional s) (some x) l h = (pointer-Kept s x l.0 (kept s x l.1 h)).1
    kept (sequence s) xs l h = sequence-Kept s xs (All-map (λ x. kept s x l) xs h)
    kept chars cs l h = absurd (l tt)
    kept (fixed_array n s) xs l h = fixed_array-Kept n s xs h.0 (All-map (λ x. kept s x l) xs h.1)
    kept (pair s t) (x, y) l h = pair-Kept s t x y (kept s x l.0 h.0) (kept t y l.1 h.1)
    kept (tuple ss) xs l h =
        let (js, wrote, red) = kept_tuple ss xs l h in (Json.array js, rw wrote, red)
    kept (reflected bs fs) (inherited, own) (lb, lf, db, df, apart) h =
        let above = kept_record bs inherited lb db h.0 no_members in
        let below = kept_record fs own lf df h.1 above.whole in
        let final = below.whole in
        (
          Json.object final,
          rw (above.wrote, below.wrote),
          rw
              (
                above.red_bases final
                    (Agrees-AreDisjoint lib bs fs final above.whole apart below.kept),
                below.red final (Agrees-self lib fs final),
              )
              refl,
        )

    kept_tuple :
        (ss : Shapes) (xs : Els ss)
        → AreLossless ss
        → AreStorable ss xs
        → (js : Items) × (write_tuple lib ss xs ≡ done js)
          × (read_tuple lib ss (reparsed_items js) (defaults ss) ≡ done xs)
    kept_tuple no_shapes xs l h = (no_items, refl, refl)
    kept_tuple (shape s ss) (x, xs) l h =
        let (j, wrote, red) = kept s x l.0 h.0 in
        let (js, wrote_all, red_all) = kept_tuple ss xs l.1 h.1 in
        (item j js, rw (wrote, wrote_all), rw (red, red_all))

    pub kept_record :
        (fs : Fields) (r : Record fs)
        → AreFields fs
        → AreDistinct fs
        → IsStorableRecord fs r
        → (root : Members) → RecordComesBack lib fs r root
    kept_record no_fields r l d h root = record {
      whole = root;
      wrote = refl;
      kept = λ q _. refl;
      red = λ _ _. refl;
      red_bases = λ _ _. refl;
    }
    kept_record (field name s fs) (x, r) l d h root =
        let back = kept s x l.0 h.0 in
        field-RecordComesBack name s fs x r root d.0 back
          (kept_record fs r l.1 d.1 h.1 (lib.set name back.0 root))
