-- ===== src/Net/Http/Routing.antt =====
-- The choice of a handler in `Session::HandleRequest` of src/mif/net/http/detail/session.cpp. A path
-- is the list of its bytes.
pub mod Slashes
pub mod Longest
mod Tests
use mif.Prelude.Map.{lookup}
use mif.Prelude.{
  nat_beq, if◌then◌else◌, length, ℕ, zero, suc, Bool, false, Option, none, some, List, [], ◌∷◌,
  ◌++◌, bytes_eq, nat_eq,
}

abbrev pub UrlPath : Type 0
UrlPath = List ℕ

abbrev pub slash : ℕ
slash = b'/'

-- `url.substr(0, url.find_last_of('/'))`, and `none` for `npos`
pub before_last_slash : UrlPath → Option UrlPath
before_last_slash [] = none
before_last_slash (c ∷ url) = elim (before_last_slash url) [
  | some p ↦ some (c ∷ p)
  | none ↦ if nat_beq c slash then some [] else none
]

-- `url.back() == '/'`, with the answer for the empty url
pub ends_in_slash : UrlPath → Bool
ends_in_slash [] = false
ends_in_slash (c ∷ []) = nat_beq c slash
ends_in_slash (c ∷ d ∷ url) = ends_in_slash (d ∷ url)

-- `url.empty() ? "/" : url`
pub or_root : UrlPath → UrlPath
or_root [] = slash ∷ []
or_root (c ∷ url) = c ∷ url

-- `if (!url.empty() && url.back() != '/') url.append("/")`
pub with_slash : UrlPath → UrlPath
with_slash [] = []
with_slash (c ∷ url) = if ends_in_slash (c ∷ url) then c ∷ url else (c ∷ url) ++ slash ∷ []

module _ {ℓ} {H : Type ℓ} (handlers : List (UrlPath × H)) where
  -- `process` without the call of the handler: the handler of a path, under its path
  unfoldable pub process : UrlPath → Option (UrlPath × H)
  process path = elim (lookup path handlers) [ none ↦ none | some h ↦ some (path, h) ]

  -- The `for` loop. A round makes the url shorter, so its length is enough fuel.
  pub search_up : ℕ → UrlPath → Option (UrlPath × H)
  search_up zero url = none
  search_up (suc fuel) url = elim (before_last_slash url) [
    | none ↦ none
    | some p ↦ elim (process (or_root p)) [ some r ↦ some r | none ↦ search_up fuel p ]
  ]

  -- The handler that is called for a path, under the key that it was found by
  unfoldable pub route : UrlPath → Option (UrlPath × H)
  route url = elim (process url) [
    | some r ↦ some r
    | none ↦ let slashed = with_slash url in search_up (length slashed) slashed
  ]
