-- ===== src/Remote/Call/Headers.antt =====
-- What the five names of a message are, on both ends.
use mif.Prelude.{
  if◌then◌else◌, ℕ, ◌≡◌, ap, ◌∙◌, ◌≢◌, Bool, false, Option, none, some, List, [], ◌∷◌, arith,
}
use mif.Serialization.Json.{
  is_empty, Json, Members, done, reparsed, reparsed_members, reparsed_if, Library,
}
use mif.Serialization.Json.Storable.{IsText}
use mif.Serialization.Json.Values.{c_str-IsText}
use mif.Remote.Packet.{
  uuid_key, type_key, instance_key, interface_key, method_key, exception_key, request, response,
  serializer, get_text, get_buffer, deserializer,
}

-- The names of a request and of its response
pub record Names : Type 0 where
  pub uuid : List ℕ
  pub instance_id : List ℕ
  pub interface_id : List ℕ
  pub method : List ℕ

-- None is empty, and none has a zero byte.
pub record AreNamed (names : Names) : Type 0 where
  pub uuid_text : IsText names.uuid
  pub instance_text : IsText names.instance_id
  pub interface_text : IsText names.interface_id
  pub method_text : IsText names.method
  pub uuid_filled : is_empty names.uuid ≡ false
  pub instance_filled : is_empty names.instance_id ≡ false
  pub interface_filled : is_empty names.interface_id ≡ false
  pub method_filled : is_empty names.method ≡ false

module _ (lib : Library) where
  -- The library prints no empty text of the message, and reads back what it prints.
  abbrev pub ReadsBack : Members → Type 0
  ReadsBack m =
      (is_empty (lib.print (Json.object m)) ≡ false)
      × (lib.parse (lib.print (Json.object m)) ≡ done (reparsed (Json.object m)))

  pub record HasHeader (type : List ℕ) (names : Names) (m : Members) : Type 0 where
    pub uuid_is : lib.find uuid_key m ≡ some (Json.string names.uuid)
    pub type_is : lib.find type_key m ≡ some (Json.string type)
    pub instance_is : lib.find instance_key m ≡ some (Json.string names.instance_id)
    pub interface_is : lib.find interface_key m ≡ some (Json.string names.interface_id)
    pub method_is : lib.find method_key m ≡ some (Json.string names.method)

  abbrev over :
      (k q : List ℕ) (j : Json) (m : Members) {o : Option Json}
      → k ≢ q
      → lib.find q m ≡ o
      → lib.find q (lib.set k j m) ≡ o
  over k q j m h e = lib.find-set_other k q j m h ∙ e

  beyond :
      (k q : List ℕ) (m : Members) {o : Option Json}
      → k ≢ q
      → lib.find q m ≡ o
      → lib.find q (lib.remove k m) ≡ o
  beyond k q m h e = lib.find-remove_other k q m h ∙ e

  pub serializer-HasHeader :
      (is_request : Bool) (names : Names)
      → HasHeader
          (if is_request then request else response)
          names
          (serializer lib is_request names.uuid names.instance_id names.interface_id names.method)
  unfolding serializer
  serializer-HasHeader is_request names = record {
    uuid_is = over method_key uuid_key _ _ (ground arith) (
        over interface_key uuid_key _ _ (ground arith) (
          over instance_key uuid_key _ _ (ground arith)
            (over type_key uuid_key _ _ (ground arith) (lib.find-set _ _ _))));
    type_is = over method_key type_key _ _ (ground arith) (
        over interface_key type_key _ _ (ground arith)
          (over instance_key type_key _ _ (ground arith) (lib.find-set _ _ _)));
    instance_is =
        over method_key instance_key _ _ (ground arith)
          (over interface_key instance_key _ _ (ground arith) (lib.find-set _ _ _));
    interface_is = over method_key interface_key _ _ (ground arith) (lib.find-set _ _ _);
    method_is = lib.find-set _ _ _;
  }

  pub serializer-exception :
      (is_request : Bool) (names : Names)
      → lib.find exception_key
          (serializer lib is_request names.uuid names.instance_id names.interface_id names.method)
        ≡ none
  unfolding serializer
  serializer-exception is_request names = over method_key exception_key _ _ (ground arith) (
      over interface_key exception_key _ _ (ground arith) (
        over instance_key exception_key _ _ (ground arith) (
          over type_key exception_key _ _ (ground arith)
            (over uuid_key exception_key _ _ (ground arith) (lib.find-no_members exception_key)))))

  -- A key that is none of the five
  abbrev IsOther : List ℕ → Type 0
  IsOther k =
      (k ≢ uuid_key) × (k ≢ type_key) × (k ≢ instance_key) × (k ≢ interface_key) × (k ≢ method_key)

  pub set-HasHeader :
      (k : List ℕ) (j : Json) (type : List ℕ) (names : Names) (m : Members)
      → IsOther k
      → HasHeader type names m
      → HasHeader type names (lib.set k j (lib.remove k m))
  set-HasHeader k j type names m (u, t, i, f, n) h = record {
    uuid_is = over k uuid_key j _ u (beyond k uuid_key m u h.uuid_is);
    type_is = over k type_key j _ t (beyond k type_key m t h.type_is);
    instance_is = over k instance_key j _ i (beyond k instance_key m i h.instance_is);
    interface_is = over k interface_key j _ f (beyond k interface_key m f h.interface_is);
    method_is = over k method_key j _ n (beyond k method_key m n h.method_is);
  }

  pub reparsed-HasHeader :
      (type : List ℕ) (names : Names) (m : Members)
      → HasHeader type names m
      → HasHeader type names (reparsed_members m)
  unfolding reparsed
  reparsed-HasHeader type names m h = record {
    uuid_is = lib.find-reparsed uuid_key m ∙ ap reparsed_if h.uuid_is;
    type_is = lib.find-reparsed type_key m ∙ ap reparsed_if h.type_is;
    instance_is = lib.find-reparsed instance_key m ∙ ap reparsed_if h.instance_is;
    interface_is = lib.find-reparsed interface_key m ∙ ap reparsed_if h.interface_is;
    method_is = lib.find-reparsed method_key m ∙ ap reparsed_if h.method_is;
  }

  pub get_text-found :
      (k text : List ℕ) (m : Members)
      → lib.find k m ≡ some (Json.string text)
      → IsText text
      → get_text lib k m ≡ done text
  unfolding get_text
  get_text-found k text m found h = rw (found, get_text) (ap done (c_str-IsText text h))

  pub deserializer-get_buffer :
      (m : Members) → ReadsBack m → deserializer lib (get_buffer lib m) ≡ done (reparsed_members m)
  unfolding deserializer get_buffer reparsed
  deserializer-get_buffer m h = filled (lib.print (Json.object m)) h
    where
      filled :
          (buffer : List ℕ)
          → (is_empty buffer ≡ false) × (lib.parse buffer ≡ done (reparsed (Json.object m)))
          → deserializer lib buffer ≡ done (reparsed_members m)
      filled [] (printed, red) = cc
      filled (b ∷ buffer) (printed, red) = rw (red, deserializer)
