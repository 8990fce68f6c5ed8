-- ===== src/Net/Http/Target.antt =====
-- `Utility::Target` of src/mif/net/http/detail/utility.cpp: the regular expression
-- `^(^/+.*?(?=[?#]|$))[?#/]*(.*)?$` on a url. A point of a regular expression matches every
-- character but a line end.
mod Tests
use mif.Prelude.{
  nat_beq, Bool-cases, if◌then◌else◌, runtime_error, Result, ok, throws, All, ℕ, ◌≡◌, ◌∙◌, inl, inr,
  Bool, true, false, not, ◌&&◌, ◌||◌, List, [], ◌∷◌, arith,
}
use mif.Net.Http.Routing.{UrlPath}

-- `[?#]`
pub is_mark : ℕ → Bool
is_mark c = nat_beq c b'?' || nat_beq c b'#'

-- `[?#/]`
is_splitter : ℕ → Bool
unfolding is_mark
is_splitter c = is_mark c || nat_beq c b'/'

is_line_end : ℕ → Bool
is_line_end c = nat_beq c 10 || nat_beq c 13

has_line_end : List ℕ → Bool
unfolding is_line_end
has_line_end [] = false
has_line_end (c ∷ s) = is_line_end c || has_line_end s

-- The shortest part with a mark or the end behind it
until_mark : List ℕ → List ℕ
unfolding is_mark
until_mark [] = []
until_mark (c ∷ s) = if is_mark c then [] else c ∷ until_mark s

from_mark : List ℕ → List ℕ
unfolding is_mark
from_mark [] = []
from_mark (c ∷ s) = if is_mark c then c ∷ s else from_mark s

skip_splitters : List ℕ → List ℕ
unfolding is_splitter
skip_splitters [] = []
skip_splitters (c ∷ s) = if is_splitter c then skip_splitters s else c ∷ s

starts_with_slash : List ℕ → Bool
starts_with_slash [] = false
starts_with_slash (c ∷ s) = nat_beq c b'/'

pub record Target : Type 0 where
  pub path : UrlPath
  pub query : List ℕ

-- The constructor
unfoldable pub target : List ℕ → Result Target
unfolding starts_with_slash has_line_end until_mark from_mark skip_splitters
target url =
    if starts_with_slash url && not (has_line_end url)
    then ok (record { path = until_mark url; query = skip_splitters (from_mark url) })
    else throws runtime_error

-- The path begins with a slash and holds no mark.
abbrev pub IsPath : UrlPath → Type 0
IsPath p = (rest : List ℕ) × (p ≡ b'/' ∷ rest) × All (λ c. is_mark c ≡ false) p

until_mark-unmarked : (s : List ℕ) → All (λ c. is_mark c ≡ false) (until_mark s)
unfolding until_mark
until_mark-unmarked [] = tt
until_mark-unmarked (c ∷ s) = elim (Bool-cases (is_mark c)) [
  | inl e ↦ rw e tt
  | inr e ↦ rw e (e, until_mark-unmarked s)
]

target-path :
    (url : List ℕ) {t : Target}
    → target url ≡ ok t
    → (starts_with_slash url ≡ true) × (t.path ≡ until_mark url)
unfolding target
target-path url e = ground arith

until_mark-slash :
    (c : ℕ) (url : List ℕ)
    → starts_with_slash (c ∷ url) ≡ true
    → until_mark (c ∷ url) ≡ b'/' ∷ until_mark url
unfolding starts_with_slash until_mark is_mark
until_mark-slash c url e = ground arith

-- What is taken for the path begins with a slash, and holds neither `?` nor `#`.
pub target-IsPath : (url : List ℕ) {t : Target} → target url ≡ ok t → IsPath t.path
unfolding starts_with_slash
target-IsPath [] e = absurd (cc (target-path [] e).0)
target-IsPath (c ∷ url) e =
    let (slash, path) = target-path (c ∷ url) e in
    (until_mark url, path ∙ until_mark-slash c url slash, rw path (until_mark-unmarked (c ∷ url)))
