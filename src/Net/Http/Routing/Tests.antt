-- ===== src/Net/Http/Routing/Tests.antt =====
-- Routing at concrete inputs.
use mif.Prelude.{ℕ, ◌≡◌, refl, some, List, [], ◌∷◌, ◌++◌, bytes_eq, nat_eq}
use mif.Prelude.Map.{lookup}
use mif.Net.Http.Routing.{
  UrlPath, before_last_slash, ends_in_slash, or_root, with_slash, process, search_up, route,
}
use mif.Net.Http.Routing.Slashes.{Covers}
use mif.Net.Http.Routing.Longest.{Longest, route-Longest}

-- "/", "/api" and "/api/v1", with handlers 0, 1 and 2
abbrev api : UrlPath
api = b'/' ∷ b'a' ∷ b'p' ∷ b'i' ∷ []

abbrev table : List (UrlPath × ℕ)
table = (b'/' ∷ [], 0) ∷ (api, 1) ∷ (api ++ b'/' ∷ b'v' ∷ b'1' ∷ [], 2) ∷ []

-- "/api/v2/x" goes to "/api", and "/other" to "/".
route-table :
    (route table (api ++ b'/' ∷ b'v' ∷ b'2' ∷ b'/' ∷ b'x' ∷ []) ≡ some (api, 1))
    × (route table (b'/' ∷ b'o' ∷ []) ≡ some (b'/' ∷ [], 0))
unfolding route search_up process lookup with_slash ends_in_slash or_root before_last_slash
route-table = (refl, refl)

route-Longest_example :
    Longest table (Covers (api ++ b'/' ∷ b'x' ∷ [])) (route table (api ++ b'/' ∷ b'x' ∷ []))
route-Longest_example = route-Longest table (api ++ b'/' ∷ b'x' ∷ [])
