-- ===== src/Net/Http/ParamPack/Missing.antt =====
-- Parameters that a request has, and those that it does not have.
use mif.Prelude.{
  runtime_error, Result, ok, throws, ◌>>=◌, >>=-eq-ok, ℕ, ◌≡◌, refl, ap, ◌↔◌, Option, none, some,
  List, ok-injective, bytes_eq, nat_eq,
}
use mif.Prelude.Map.{lookup}
use mif.Net.Http.ParamPack.{
  Shape, El, Fields, no_fields, required, optional, Pack, Params, convert, get_required,
  get_optional, get_params,
}

-- The text that the request has for a name is converted to this value.
abbrev pub IsRead : (s : Shape) → List ℕ → Params → El s → Type 0
IsRead s name params x =
    (text : List ℕ) × (lookup name params ≡ some text) × (convert s text ≡ ok x)

-- The structure that the parameters are to give
abbrev pub IsGiven : (fs : Fields) → Params → Pack fs → Type 0
IsGiven no_fields params pack = Unit
IsGiven (required name s fs) params (x, pack) = IsRead s name params x × IsGiven fs params pack
IsGiven (optional name s fs) params (none, pack) =
    (lookup name params ≡ none) × IsGiven fs params pack
IsGiven (optional name s fs) params (some x, pack) = IsRead s name params x × IsGiven fs params pack

module _ (s : Shape) where
  required_of :
      (found : Option (List ℕ)) (x : El s)
      → (elim found [ none ↦ throws runtime_error | some text ↦ convert s text ] ≡ ok x)
        ↔ ((text : List ℕ) × (found ≡ some text) × (convert s text ≡ ok x))
  required_of none x = (λ e. cc, λ r. cc)
  required_of (some text) x = (λ e. (text, refl, e), λ r. cc)

  optional_of :
      (found : Option (List ℕ)) (x : Option (El s))
      → (elim found [ none ↦ ok none | some text ↦ convert s text >>= λ y. ok (some y) ] ≡ ok x)
        ↔ elim x [
          | none ↦ found ≡ none
          | some y ↦ (text : List ℕ) × (found ≡ some text) × (convert s text ≡ ok y)
        ]
  optional_of none none = (λ e. refl, λ r. refl)
  optional_of none (some y) = (λ e. cc, λ r. cc)
  optional_of (some text) none =
      (λ e. let (y, c, g) = >>=-eq-ok (convert s text) (λ z. ok (some z)) e in cc, λ r. cc)
  optional_of (some text) (some y) = (
    λ e. let (z, c, g) = >>=-eq-ok (convert s text) (λ w. ok (some w)) e in (text, refl, cc),
    λ r. let c : convert s text ≡ ok y = cc in rw c refl,
  )

-- A field that is read, and then the others
module _ {A B : Type 0} where
  abbrev joined : Result A → Result B → Result (A × B)
  joined first others = first >>= λ y. others >>= λ ys. ok (y, ys)

  pair_of :
      (first : Result A) (others : Result B) (x : A) (xs : B)
      → (joined first others ≡ ok (x, xs)) ↔ ((first ≡ ok x) × (others ≡ ok xs))
  pair_of (throws e) others x xs = (λ e. cc, λ h. cc)
  pair_of (ok y) (throws e) x xs = (λ e. cc, λ h. cc)
  pair_of (ok y) (ok ys) x xs = (
    λ e.
        let same = ok-injective (y, ys) (x, xs) e in
        (ap (λ (r : A × B). ok r.0) same, ap (λ (r : A × B). ok r.1) same),
    λ h. rw (ok-injective y x h.0, ok-injective ys xs h.1) refl,
  )

-- The structure is made exactly if it is the one that the request gives: each required field has a
-- parameter that is converted to it, and so has each optional one that is set, and there is no
-- parameter for an optional one that is not. A required field without a parameter, or one whose text
-- is not converted, leaves no structure.
pub get_params_iff :
    (fs : Fields) (params : Params) (pack : Pack fs)
    → (get_params fs params ≡ ok pack) ↔ IsGiven fs params pack
unfolding get_params get_required get_optional
get_params_iff no_fields params pack = (λ e. tt, λ r. refl)
get_params_iff (required name s fs) params (x, pack) =
    let both = pair_of (get_required s name params) (get_params fs params) x pack in
    let here = required_of s (lookup name params) x in
    let rest = get_params_iff fs params pack in
    (λ e. (here.0 (both.0 e).0, rest.0 (both.0 e).1), λ r. both.1 (here.1 r.0, rest.1 r.1))
get_params_iff (optional name s fs) params (none, pack) =
    let both = pair_of (get_optional s name params) (get_params fs params) none pack in
    let here = optional_of s (lookup name params) none in
    let rest = get_params_iff fs params pack in
    (λ e. (here.0 (both.0 e).0, rest.0 (both.0 e).1), λ r. both.1 (here.1 r.0, rest.1 r.1))
get_params_iff (optional name s fs) params (some x, pack) =
    let both = pair_of (get_optional s name params) (get_params fs params) (some x) pack in
    let here = optional_of s (lookup name params) (some x) in
    let rest = get_params_iff fs params pack in
    (λ e. (here.0 (both.0 e).0, rest.0 (both.0 e).1), λ r. both.1 (here.1 r.0, rest.1 r.1))
