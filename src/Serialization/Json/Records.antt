-- ===== src/Serialization/Json/Records.antt =====
-- The members of a written object, and which readers see them.
use mif.Prelude.{ℕ, ◌≡◌, refl, ◌≢◌, false, Option, some, List, arith}
use mif.Serialization.Json.{Json, Members, done, reparsed, reparsed_members, Library}
use mif.Serialization.Json.Shapes.{
  Shape, Fields, no_fields, field, boolean, double, string, integer, plain_enum, named_enum,
  smart_pointer, optional, sequence, chars, fixed_array, pair, tuple, reflected, El, Record,
  default, default_record,
}
use mif.Serialization.Json.Numbers.{
  Integer, int8, uint8, int16, uint16, int32, uint32, int64, uint64,
}
use mif.Serialization.Json.Convert.{value_from}
use mif.Serialization.Json.Write.{to_json, write_record}
use mif.Serialization.Json.Read.{from_json, read_record, read_bases}
use mif.Serialization.Json.Storable.{is_nullable, IsAbsent, AreDisjoint}

abbrev pub IsPresent : Json → Type 0
IsPresent j = reparsed j ≢ Json.null

value_from-IsPresent : (i : Integer) (n : ℕ) → IsPresent (value_from i n)
unfolding value_from reparsed
value_from-IsPresent int8 n = ground arith
value_from-IsPresent uint8 n = ground arith
value_from-IsPresent int16 n = ground arith
value_from-IsPresent uint16 n = ground arith
value_from-IsPresent int32 n = ground arith
value_from-IsPresent uint32 n = ground arith
value_from-IsPresent int64 n = ground arith
value_from-IsPresent uint64 n = ground arith

done-IsPresent : (made j : Json) → IsPresent made → done made ≡ done j → IsPresent j
done-IsPresent made j h p = λ null. h (cc)

module _ (lib : Library) where
  -- A type that is not nullable is never written as a null.
  pub to_json-IsPresent :
      (s : Shape) (x : El s) (j : Json)
      → is_nullable s ≡ false
      → to_json lib s x ≡ done j
      → IsPresent j
  unfolding to_json reparsed
  to_json-IsPresent boolean b j h p = ground arith
  to_json-IsPresent double d j h p = ground arith
  to_json-IsPresent string text j h p = ground arith
  to_json-IsPresent (integer i) n j h p = done-IsPresent _ j (value_from-IsPresent i n) p
  to_json-IsPresent (plain_enum i) n j h p = done-IsPresent _ j (value_from-IsPresent i n) p
  to_json-IsPresent (named_enum items) v j h p = ground arith
  to_json-IsPresent (smart_pointer s) x j h p = cc
  to_json-IsPresent (optional s) x j h p = cc
  to_json-IsPresent (sequence s) xs j h p = ground arith
  to_json-IsPresent chars cs j h p = ground arith
  to_json-IsPresent (fixed_array n s) xs j h p = ground arith
  to_json-IsPresent (pair s t) (x, y) j h p = ground arith
  to_json-IsPresent (tuple ss) xs j h p = ground arith
  to_json-IsPresent (reflected bs fs) (inherited, own) j h p = ground arith

  pub from_json_present :
      (s : Shape) (j : Json) (old : Option (El s)) (x : El s)
      → j ≢ Json.null
      → from_json lib s j (default s) ≡ done x
      → (from_json lib (smart_pointer s) j old ≡ done (some x))
        × (from_json lib (optional s) j old ≡ done (some x))
  unfolding from_json
  from_json_present s Json.null old x h e = absurd (h refl)
  from_json_present s (Json.boolean b) old x h e = (rw e, rw e)
  from_json_present s (Json.int64 n) old x h e = (rw e, rw e)
  from_json_present s (Json.uint64 n) old x h e = (rw e, rw e)
  from_json_present s (Json.double d) old x h e = (rw e, rw e)
  from_json_present s (Json.string text) old x h e = (rw e, rw e)
  from_json_present s (Json.array js) old x h e = (rw e, rw e)
  from_json_present s (Json.object m) old x h e = (rw e, rw e)

  -- The members that the fields name are the same in both.
  abbrev pub Agrees : Fields → Members → Members → Type 0
  Agrees no_fields m w = Unit
  Agrees (field name s fs) m w = (lib.find name m ≡ lib.find name w) × Agrees fs m w

  pub Agrees-self : (fs : Fields) (m : Members) → Agrees fs m m
  Agrees-self no_fields m = tt
  Agrees-self (field name s fs) m = (refl, Agrees-self fs m)

  pub Agrees-AreDisjoint :
      (fs gs : Fields) (m w : Members)
      → AreDisjoint fs gs
      → ((q : List ℕ) → IsAbsent q gs → lib.find q m ≡ lib.find q w)
      → Agrees fs m w
  Agrees-AreDisjoint no_fields gs m w h kept = tt
  Agrees-AreDisjoint (field name s fs) gs m w (absent, h) kept =
      (kept name absent, Agrees-AreDisjoint fs gs m w h kept)

  -- Written fields: the rest of the object is kept, and each object that agrees is read back.
  pub record RecordComesBack (fs : Fields) (r : Record fs) (root : Members) : Type 0 where
    pub whole : Members
    pub wrote : write_record lib fs r root ≡ done whole
    pub kept : (q : List ℕ) → IsAbsent q fs → lib.find q whole ≡ lib.find q root
    pub red :
        (final : Members)
        → Agrees fs final whole
        → read_record lib fs (reparsed_members final) (default_record fs) ≡ done r
    pub red_bases :
        (final : Members)
        → Agrees fs final whole
        → read_bases lib fs (reparsed_members final) (default_record fs) ≡ done r
