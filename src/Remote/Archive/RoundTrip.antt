-- ===== src/Remote/Archive/RoundTrip.antt =====
-- Packets in archives come back where the last parameter is written first.
use mif.Prelude.{
  ℕ, suc, ◌≡◌, refl, sym, ◌∙◌, inl, inr, Bool, true, false, Option, none, some, List, [], ◌∷◌, ◌++◌,
  append-nil, append_assoc,
}
use mif.Serialization.Json.{Outcome, fails, done, parse_error, ◌>>=◌}
use mif.Remote.Packet.{uuid_key, type_key, instance_key, interface_key, method_key, exception_key}
use mif.Remote.Archive.{
  put_params, Shape, text, flag, El, Els, Entry, Archive, entry, param_name, save_params,
  Serializer, has_exception_key, save_exception, get_buffer, Deserializer, deserializer,
  load_exception, load_params, get_params,
}
use mif.Remote.Archive.Names.{param_name-suc}

module _ {Kind : Type 0} {Value : Kind → Type 0} (archive : Archive Value) where
  module _ (uuid type instance_id interface_id method_id : List ℕ) (es : List (Entry Value)) where
    -- A packet with these texts, and what it is read as
    abbrev packed : Option (List ℕ) → List (Entry Value)
    packed exception =
        entry text uuid_key uuid
        ∷ entry text type_key type
        ∷ entry text instance_key instance_id
        ∷ entry text interface_key interface_id
        ∷ entry text method_key method_id
        ∷ (save_exception exception ++ es)

    abbrev arrives : Option (List ℕ) → Deserializer archive
    arrives exception = record {
      uuid = uuid;
      type = type;
      instance_id = instance_id;
      interface_id = interface_id;
      method_id = method_id;
      exception = exception;
      stream = archive.opened es;
    }

    -- The exception, which comes after the texts
    abbrev exception_read : archive.Stream → Outcome (Deserializer archive)
    exception_read stream = archive.load flag has_exception_key stream >>= λ (has, rest).
        load_exception archive has rest >>= λ (exception, left). done record {
          uuid = uuid;
          type = type;
          instance_id = instance_id;
          interface_id = interface_id;
          method_id = method_id;
          exception = exception;
          stream = left;
        }

    texts_read :
        (exception : Option (List ℕ))
        → deserializer archive (archive.write (packed exception))
          ≡ exception_read (archive.opened (save_exception exception ++ es))
    unfolding deserializer
    texts_read exception =
        let method_left = save_exception exception ++ es in
        let interface_left = entry text method_key method_id ∷ method_left in
        let instance_left = entry text interface_key interface_id ∷ interface_left in
        let type_left = entry text instance_key instance_id ∷ instance_left in
        let uuid_left = entry text type_key type ∷ type_left in
        rw
          (
            archive.start-write (packed exception),
            archive.write_header (packed exception),
            archive.load-opened text uuid_key uuid_key uuid uuid_left (inr refl),
            archive.load-opened text type_key type_key type type_left (inr refl),
            archive.load-opened text instance_key instance_key instance_id instance_left (inr refl),
            archive.load-opened text interface_key interface_key interface_id interface_left
                (inr refl),
            archive.load-opened text method_key method_key method_id method_left (inr refl),
          )
          refl

    deserializer-packed :
        (exception : Option (List ℕ))
        → deserializer archive (archive.write (packed exception)) ≡ done (arrives exception)
    unfolding save_exception
    deserializer-packed none =
        texts_read none
        ∙ rw (archive.load-opened flag has_exception_key has_exception_key false es (inr refl)) refl
    deserializer-packed (some message) =
        let text_left = entry text exception_key message ∷ es in
        texts_read (some message)
        ∙ rw
            (
              archive.load-opened flag has_exception_key has_exception_key true text_left
                  (inr refl),
              archive.load-opened text exception_key exception_key message es (inr refl),
            )
            refl

  load_params-save_params :
      (index : ℕ) (ss : List (Shape Kind)) (xs : Els Value ss) (rest : List (Entry Value))
      → archive.checks_names ≡ false
      → load_params archive (suc index) ss (archive.opened (save_params true index ss xs ++ rest))
        ≡ done (xs, archive.opened rest)
  unfolding load_params save_params
  load_params-save_params index [] xs rest h = refl
  load_params-save_params index (s ∷ ss) (x, xs) rest h =
      rw
        (
          append_assoc (save_params true (suc index) ss xs) (entry s (param_name index) x ∷ [])
              rest,
          load_params-save_params (suc index) ss xs (entry s (param_name index) x ∷ rest) h,
          archive.load-opened s (param_name index) (param_name (suc index)) x rest (inl h),
        )
        refl

  load_params-checked :
      (index : ℕ) (s : Shape Kind) (ss : List (Shape Kind)) (xs : Els Value (s ∷ ss))
      (rest : List (Entry Value))
      → archive.checks_names ≡ true
      → load_params archive
          (suc index)
          (s ∷ ss)
          (archive.opened (save_params true index (s ∷ ss) xs ++ rest))
        ≡ fails parse_error
  unfolding load_params save_params
  load_params-checked index s [] (x, xs) rest h =
      rw
        (archive.load-opened_other s (param_name index) (param_name (suc index)) x rest h
          (param_name-suc index))
        refl
  load_params-checked index s (t ∷ ss) (x, xs) rest h =
      rw
        (
          append_assoc (save_params true (suc index) (t ∷ ss) xs)
              (entry s (param_name index) x ∷ []) rest,
          load_params-checked (suc index) t ss xs (entry s (param_name index) x ∷ rest) h,
        )
        refl

  -- What a packet is read as, up to its parameters
  abbrev pub arrived : Bool → Serializer Value → Deserializer archive
  arrived last_first p =
      arrives p.uuid p.type p.instance_id p.interface_id p.method_id
        (save_params last_first 0 p.shapes p.params) p.exception

  pub deserializer-get_buffer :
      (last_first : Bool) (p : Serializer Value)
      → deserializer archive (get_buffer archive last_first p) ≡ done (arrived last_first p)
  unfolding get_buffer
  deserializer-get_buffer last_first p =
      deserializer-packed p.uuid p.type p.instance_id p.interface_id p.method_id
        (save_params last_first 0 p.shapes p.params) p.exception

  -- Over an archive that does not check the names of its values, and where the compiler evaluates the
  -- last argument of a call first: a packet is read with the id, the type, the instance, the
  -- interface, the method and the exception that it was written with, and then its parameters are read
  -- as they were given, in their order, with nothing left over.
  pub get_params-get_buffer :
      (p : Serializer Value)
      → archive.checks_names ≡ false
      → (d : Deserializer archive) × (deserializer archive (get_buffer archive true p) ≡ done d)
        × (d.uuid ≡ p.uuid)
        × (d.type ≡ p.type)
        × (d.instance_id ≡ p.instance_id)
        × (d.interface_id ≡ p.interface_id)
        × (d.method_id ≡ p.method_id)
        × (d.exception ≡ p.exception)
        × (get_params archive p.shapes d ≡ done (p.params, archive.opened []))
  unfolding get_params
  get_params-get_buffer p h =
      let red = load_params-save_params 0 p.shapes p.params [] h in
      (
        arrived true p,
        deserializer-get_buffer true p,
        refl,
        refl,
        refl,
        refl,
        refl,
        refl,
        rw (sym (append-nil (save_params true 0 p.shapes p.params))) red,
      )

  -- Over an archive that checks the names of its values, such as the one of XML, and where the compiler
  -- evaluates the last argument of a call first: a packet is read,
  -- but its parameters are not, if there are any: each is written under its index, counted from 0,
  -- and asked for under its index counted from 1.
  pub get_params-get_buffer_checked :
      (p : Serializer Value) (s : Shape Kind) (ss : List (Shape Kind)) (xs : Els Value (s ∷ ss))
      → archive.checks_names ≡ true
      → (d : Deserializer archive) × (deserializer archive
            (get_buffer archive true (put_params (s ∷ ss) xs p))
          ≡ done d)
        × (get_params archive (s ∷ ss) d ≡ fails parse_error)
  unfolding get_params put_params
  get_params-get_buffer_checked p s ss xs h =
      let sent = put_params (s ∷ ss) xs p in
      (
        arrived true sent,
        deserializer-get_buffer true sent,
        rw (sym (append-nil (save_params true 0 (s ∷ ss) xs))) (load_params-checked 0 s ss xs [] h),
      )

  -- Where the compiler evaluates the first argument of a call first, two parameters of one type are
  -- read in each other's place, over an archive that does not check names.
  pub get_params-get_buffer_swapped :
      (p : Serializer Value) (s : Shape Kind) (x y : El Value s)
      → archive.checks_names ≡ false
      → (d : Deserializer archive) × (deserializer archive
            (get_buffer archive false (put_params (s ∷ s ∷ []) (x, (y, tt)) p))
          ≡ done d)
        × (get_params archive (s ∷ s ∷ []) d ≡ done ((y, (x, tt)), archive.opened []))
  unfolding get_params put_params save_params load_params
  get_params-get_buffer_swapped p s x y h =
      let sent = put_params (s ∷ s ∷ []) (x, (y, tt)) p in
      (
        arrived false sent,
        deserializer-get_buffer false sent,
        rw
            (
              archive.load-opened s (param_name 0) (param_name 2) x (entry s (param_name 1) y ∷ [])
                  (inl h),
              archive.load-opened s (param_name 1) (param_name 1) y [] (inl h),
            )
            refl,
      )
