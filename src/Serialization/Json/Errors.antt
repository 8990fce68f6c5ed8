-- ===== src/Serialization/Json/Errors.antt =====
-- What json.h does with a field that is missing or a null, and with a container of `char`.
use mif.Prelude.{
  Bool-cases, ℕ, ◌≡◌, refl, sym, ap, ◌∙◌, ◌≢◌, ◌↔◌, ◌⊎◌, inl, inr, true, false, Option, none, some,
  List, arith,
}
use mif.Serialization.Json.{
  Members, Outcome, ◌>>=◌, Json, Failure, done, fails, invalid_value, undefined, reparsed, Library,
}
use mif.Serialization.Json.Shapes.{
  Shape, boolean, double, string, integer, plain_enum, named_enum, smart_pointer, optional,
  sequence, chars, fixed_array, pair, tuple, reflected, El, Fields, no_fields, field, Record,
}
use mif.Serialization.Json.Write.{to_json}
use mif.Serialization.Json.Read.{from_json, unless_null, null_if_missing, read_record}
use mif.Serialization.Json.Storable.{is_nullable}

-- A pair has no check that a null meets.
abbrev pub null_failure : Shape → Failure
null_failure (pair s t) = undefined
null_failure _ = invalid_value

done_injective {ℓ} : {A : Type ℓ} (x y : A) → done x ≡ done y → x ≡ y
done_injective {A = A} x y e = ap value e
  where
    value : Outcome A → A
    value (done z) = z
    value (fails f) = x

fails_injective {ℓ} : {A : Type ℓ} (f g : Failure) → ◌≡◌ {A = Outcome A} (fails f) (fails g) → f ≡ g
fails_injective {A = A} f g e = ap failure e
  where
    failure : Outcome A → Failure
    failure (done z) = f
    failure (fails h) = h

fails-done {ℓ} : {A : Type ℓ} (f : Failure) (y : A) → fails f ≢ done y
fails-done f y e = cc

module _ {A B : Type 0} where
  abbrev joined : Outcome A → Outcome B → Outcome (A × B)
  joined first others = first >>= λ y. others >>= λ ys. done (y, ys)

  pair_iff :
      (first : Outcome A) (others : Outcome B) (x : A) (xs : B)
      → (joined first others ≡ done (x, xs)) ↔ ((first ≡ done x) × (others ≡ done xs))
  pair_iff (fails f) others x xs = (λ e. cc, λ h. cc)
  pair_iff (done y) (fails f) x xs = (λ e. cc, λ h. cc)
  pair_iff (done y) (done ys) x xs = (
    λ e.
        let same = done_injective (y, ys) (x, xs) e in
        (ap (λ (r : A × B). done r.0) same, ap (λ (r : A × B). done r.1) same),
    λ h. rw (done_injective y x h.0, done_injective ys xs h.1) refl,
  )

  fails_iff :
      (first : Outcome A) (others : Outcome B) (f : Failure)
      → (joined first others ≡ fails f)
        ↔ ((first ≡ fails f) ⊎ ((y : A) × (first ≡ done y) × (others ≡ fails f)))
  fails_iff (fails g) others f = (
    λ e. inl (rw (fails_injective g f e) refl),
    λ h. elim h [
      | inl e ↦ rw (fails_injective g f e) refl
      | inr (y, e, k) ↦ absurd (fails-done g y e)
    ],
  )
  fails_iff (done y) (fails g) f = (
    λ e. inr (y, refl, rw (fails_injective g f e) refl),
    λ h. elim h [ inl e ↦ cc | inr (z, e, k) ↦ rw (fails_injective g f k) refl ],
  )
  fails_iff (done y) (done ys) f = (λ e. cc, λ h. elim h [ inl e ↦ cc | inr (z, e, k) ↦ cc ])

module _ (lib : Library) where
  -- A null leaves a pointer and an optional as they were. Every other type refuses it with
  -- std::invalid_argument, but a pair, for which the check follows the null pointer that it has found.
  from_json-null :
      (s : Shape) (old : El s)
      → (is_nullable s ≡ true → from_json lib s Json.null old ≡ done old)
        × (is_nullable s ≡ false → from_json lib s Json.null old ≡ fails (null_failure s))
  unfolding from_json unless_null
  from_json-null boolean old = ground arith
  from_json-null double old = ground arith
  from_json-null string old = ground arith
  from_json-null (integer i) old = ground arith
  from_json-null (plain_enum i) old = ground arith
  from_json-null (named_enum items) old = ground arith
  from_json-null (smart_pointer s) old = ground arith
  from_json-null (optional s) old = ground arith
  from_json-null (sequence s) old = ground arith
  from_json-null chars old = ground arith
  from_json-null (fixed_array n s) old = ground arith
  from_json-null (pair s t) (x, y) = ground arith
  from_json-null (tuple ss) old = ground arith
  from_json-null (reflected bs fs) (x, y) = ground arith

  null_iff :
      (s : Shape) (x y : El s) (f : Failure)
      → ((from_json lib s Json.null x ≡ done y) ↔ ((is_nullable s ≡ true) × (y ≡ x)))
        × ((from_json lib s Json.null x ≡ fails f)
            ↔ ((is_nullable s ≡ false) × (f ≡ null_failure s)))
  null_iff s x y f =
      let both = from_json-null s x in
      elim (Bool-cases (is_nullable s)) [
        | inl null_too ↦
            let kept = both.0 null_too in
            (
              (
                λ e. (null_too, sym (done_injective x y (sym kept ∙ e))),
                λ h. kept ∙ ap done (sym h.1),
              ),
              (λ e. absurd (fails-done f x (sym e ∙ kept)), λ h. cc),
            )
        | inr refused ↦
            let failed = both.1 refused in
            (
              (λ e. absurd (fails-done (null_failure s) y (sym failed ∙ e)), λ h. cc),
              (
                λ e. (refused, sym (fails_injective (null_failure s) f (sym failed ∙ e))),
                λ h. failed ∙ ap fails (sym h.1),
              ),
            )
      ]

  -- How a field with the old value `x` comes to have the value `y`: one that the JSON object lacks, or
  -- has as a null, keeps its value, and may be lacking only if it is a pointer or an optional
  abbrev pub IsRead : (s : Shape) → Option Json → El s → El s → Type 0
  IsRead s none x y = (is_nullable s ≡ true) × (y ≡ x)
  IsRead s (some Json.null) x y = (is_nullable s ≡ true) × (y ≡ x)
  IsRead s (some j) x y = from_json lib s j x ≡ done y

  abbrev pub AreRead : (fs : Fields) → Members → Record fs → Record fs → Type 0
  AreRead no_fields m old now = Unit
  AreRead (field name s fs) m (x, r) (y, q) = IsRead s (lib.find name m) x y × AreRead fs m r q

  -- How a field with the old value `x` stops the reading
  abbrev pub IsRefused : (s : Shape) → Option Json → El s → Failure → Type 0
  IsRefused s none x f = (is_nullable s ≡ false) × (f ≡ null_failure s)
  IsRefused s (some Json.null) x f = (is_nullable s ≡ false) × (f ≡ null_failure s)
  IsRefused s (some j) x f = from_json lib s j x ≡ fails f

  -- The first field that is not read stops it.
  abbrev pub AreRefused : (fs : Fields) → Members → Record fs → Failure → Type 0
  AreRefused no_fields m old f = ⊥
  AreRefused (field name s fs) m (x, r) f =
      IsRefused s (lib.find name m) x f
      ⊎ ((y : El s) × IsRead s (lib.find name m) x y × AreRefused fs m r f)

  IsRead-iff :
      (s : Shape) (found : Option Json) (x y : El s) (f : Failure)
      → ((from_json lib s (null_if_missing found) x ≡ done y) ↔ IsRead s found x y)
        × ((from_json lib s (null_if_missing found) x ≡ fails f) ↔ IsRefused s found x f)
  IsRead-iff s none x y f = null_iff s x y f
  IsRead-iff s (some Json.null) x y f = null_iff s x y f
  IsRead-iff s (some (Json.boolean b)) x y f = ((λ e. e, λ e. e), (λ e. e, λ e. e))
  IsRead-iff s (some (Json.int64 n)) x y f = ((λ e. e, λ e. e), (λ e. e, λ e. e))
  IsRead-iff s (some (Json.uint64 n)) x y f = ((λ e. e, λ e. e), (λ e. e, λ e. e))
  IsRead-iff s (some (Json.double w)) x y f = ((λ e. e, λ e. e), (λ e. e, λ e. e))
  IsRead-iff s (some (Json.string text)) x y f = ((λ e. e, λ e. e), (λ e. e, λ e. e))
  IsRead-iff s (some (Json.array js)) x y f = ((λ e. e, λ e. e), (λ e. e, λ e. e))
  IsRead-iff s (some (Json.object m)) x y f = ((λ e. e, λ e. e), (λ e. e, λ e. e))

  -- All the fields of an object are read exactly if each of them is, and reading fails exactly as
  -- the first one does that is not read. A field that is missing in the JSON object, or is a null
  -- there, keeps the value that it had if it is a pointer or an optional; any other type refuses it
  -- with std::invalid_argument, but a pair, for which the check follows a null pointer (undefined
  -- behaviour). A field that is there gets what its own reader makes of it.
  pub read_record_iff :
      (fs : Fields) (m : Members) (old now : Record fs) (f : Failure)
      → ((read_record lib fs m old ≡ done now) ↔ AreRead fs m old now)
        × ((read_record lib fs m old ≡ fails f) ↔ AreRefused fs m old f)
  unfolding from_json
  read_record_iff no_fields m old now f = ((λ e. tt, λ h. refl), (λ e. cc, λ h. absurd h))
  read_record_iff (field name s fs) m (x, r) (y, q) f =
      let found = lib.find name m in
      let value = from_json lib s (null_if_missing found) x in
      let others = read_record lib fs m r in
      let both = pair_iff value others y q in
      let either = fails_iff value others f in
      let here = λ (z : El s). IsRead-iff s found x z f in
      let rest = read_record_iff fs m r q f in
      (
        (
          λ e. ((here y).0.0 (both.0 e).0, rest.0.0 (both.0 e).1),
          λ h. both.1 ((here y).0.1 h.0, rest.0.1 h.1),
        ),
        (
          λ e. elim (either.0 e) [
            | inl e ↦ inl ((here y).1.0 e)
            | inr (z, e, k) ↦ inr (z, (here z).0.0 e, rest.1.0 k)
          ],
          λ h. either.1 (elim h [
            | inl e ↦ inl ((here y).1.1 e)
            | inr (z, e, k) ↦ inr (z, (here z).0.1 e, rest.1.1 k)
          ]),
        ),
      )

  -- A container of char is written as an array that holds one text, whatever its characters are,
  -- and reading refuses each array with std::invalid_argument: no such container is ever read back.
  pub from_json-to_json_chars :
      (cs old : List ℕ)
      → (j : Json) × (to_json lib chars cs ≡ done j)
        × (from_json lib chars (reparsed j) old ≡ fails invalid_value)
  unfolding to_json from_json reparsed
  from_json-to_json_chars cs old = (_, refl, refl)
