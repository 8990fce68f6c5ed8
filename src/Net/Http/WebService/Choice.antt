-- ===== src/Net/Http/WebService/Choice.antt =====
-- Which handler `WebService::OnRequest` of src/mif/net/http/web_service.cpp calls.
use mif.Prelude.{
  ltb, Bool-cases, Option-cases, ◌==◌, All, bytes_beq_iff, ℕ, ◌≤◌, ◌≡◌, refl, ap, ◌⊎◌, inl, inr,
  true, false, ◌&&◌, Option, none, some, List, [], ◌∷◌, arith, bytes_eq, nat_eq,
}
use mathlib.Core.Option.{some-injective}
use mif.Prelude.Map.{lookup}
use mif.Net.Http.Routing.{UrlPath, process}
use mif.Net.Http.WebService.{contains, slashes, visit, search, find_handler}

module _ {ℓ} {H : Type ℓ} (handlers : List (UrlPath × H)) where
  -- A registered key that stands in the path and has a slash
  abbrev pub Fits : UrlPath → UrlPath × H → Type ℓ
  Fits path found =
      (process handlers found.0 ≡ some found)
      × (contains path found.0 ≡ true)
      × (1 ≤ slashes found.0)

  -- The state of the loop
  abbrev Kept : UrlPath → Option (UrlPath × H) × ℕ → Type ℓ
  Kept path st =
      (st.0 ≡ none → st.1 ≡ 0)
      × ((found : UrlPath × H) → st.0 ≡ some found → Fits path found × (st.1 ≡ slashes found.0))

  abbrev IsKey : UrlPath × H → Type ℓ
  IsKey e = (h : H) × (lookup e.0 handlers ≡ some h)

  -- No key that stands in the path has more slashes than `n`.
  abbrev pub AtMost : UrlPath → ℕ → UrlPath × H → Type 0
  AtMost path n e = contains path e.0 ≡ true → slashes e.0 ≤ n

  visit-skips :
      (path i : UrlPath) (st : Option (UrlPath × H) × ℕ)
      → (contains path i && ltb st.1 (slashes i)) ≡ false
      → visit handlers path i st ≡ st
  unfolding visit
  visit-skips path i st e = rw (e, visit)

  visit-takes :
      (path i : UrlPath) (st : Option (UrlPath × H) × ℕ) {h : H}
      → (contains path i && ltb st.1 (slashes i)) ≡ true
      → lookup i handlers ≡ some h
      → visit handlers path i st ≡ (some (i, h), slashes i)
  unfolding visit process
  visit-takes path i st e l = rw (e, visit, l, process)

  process-some :
      (i : UrlPath) {h : H} → lookup i handlers ≡ some h → process handlers i ≡ some (i, h)
  unfolding process
  process-some i l = rw (l, process) refl

  taken :
      (path i : UrlPath) (h : H) (n : ℕ)
      → lookup i handlers ≡ some h
      → (contains path i && ltb n (slashes i)) ≡ true
      → Fits path (i, h)
  taken path i h n l e = (process-some i l, ground arith, ground arith)

  visit-Kept :
      (path i : UrlPath) (st : Option (UrlPath × H) × ℕ) (h : H)
      → lookup i handlers ≡ some h
      → Kept path st
      → Kept path (visit handlers path i st)
        × (st.1 ≤ (visit handlers path i st).1)
        × (contains path i ≡ true → slashes i ≤ (visit handlers path i st).1)
  visit-Kept path i st h l k = elim (Bool-cases (contains path i && ltb st.1 (slashes i))) [
    | inr e ↦ rw (visit-skips path i st e) (k, omega arith, λ c. ground arith)
    | inl e ↦ rw (visit-takes path i st e l) (
      ((λ n. cc), λ found f. holds found (taken path i h st.1 l e) f),
      ground arith,
      λ c. omega arith,
    )
  ]
    where
      holds :
          (found : UrlPath × H)
          → Fits path (i, h)
          → some (i, h) ≡ some found
          → Fits path found × (slashes i ≡ slashes found.0)
      holds found fit f = (
        rw (← some-injective (i, h) found f) fit,
        ap (λ (x : UrlPath × H). slashes x.0) (some-injective (i, h) found f),
      )

  search-Kept :
      (path : UrlPath) (es : List (UrlPath × H)) (st : Option (UrlPath × H) × ℕ)
      → All IsKey es
      → Kept path st
      → Kept path (search handlers path es st)
        × (st.1 ≤ (search handlers path es st).1)
        × All (AtMost path (search handlers path es st).1) es
  unfolding search
  search-Kept path [] st a k = (k, omega arith, tt)
  search-Kept path ((i, g) ∷ es) st a k =
      let here = visit-Kept path i st a.0.0 a.0.1 k in
      let rest = search-Kept path es (visit handlers path i st) a.1 here.0 in
      (rest.0, omega (arith, here.1, rest.1), ((λ c. omega (arith, here.2 c, rest.1)), rest.2))

  -- The handler for a path: that of the path itself; or else, of the keys with a slash that stand
  -- in the path, one with the most slashes; or none, and then there is no such key.
  abbrev pub IsChoice : UrlPath → Option (UrlPath × H) → Type ℓ
  IsChoice path (some found) =
      (process handlers path ≡ some found)
      ⊎ ((process handlers path ≡ none)
          × Fits path found
          × All (AtMost path (slashes found.0)) handlers)
  IsChoice path none = (process handlers path ≡ none) × All (AtMost path 0) handlers

  chosen :
      (path : UrlPath) (st : Option (UrlPath × H) × ℕ)
      → process handlers path ≡ none
      → Kept path st × (0 ≤ st.1) × All (AtMost path st.1) handlers
      → IsChoice path st.0
  chosen path (none, n) e (k, l, a) = (e, (rw (k.0 refl) at a))
  chosen path (some found, n) e (k, l, a) =
      inr (e, (k.1 found refl).0, (rw ((k.1 found refl).1) at a))

keys_of {ℓ} :
    {H : Type ℓ} (e : UrlPath × H) (m es : List (UrlPath × H))
    → All (IsKey m) es
    → All (IsKey (e ∷ m)) es
unfolding lookup
keys_of e m [] a = tt
keys_of e m (d ∷ es) a = (present (Bool-cases (e.0 == d.0)), keys_of e m es a.1)
  where
    present : ((e.0 == d.0) ≡ true) ⊎ ((e.0 == d.0) ≡ false) → IsKey (e ∷ m) d
    present (inl q) = (e.1, rw q refl)
    present (inr q) = (a.0.0, rw q (a.0.1))

All-keys {ℓ} : {H : Type ℓ} (m : List (UrlPath × H)) → All (IsKey m) m
unfolding lookup
All-keys [] = tt
All-keys (e ∷ m) = ((e.1, rw ((bytes_beq_iff e.0 e.0).1 refl) refl), keys_of e m m (All-keys m))

module _ {ℓ} {H : Type ℓ} (handlers : List (UrlPath × H)) where
  -- `OnRequest` calls the handler of the path itself; if there is none, of the keys that have a
  -- slash and stand anywhere in the path, one with the most slashes; and none only where no key
  -- that stands in the path has a slash.
  pub find_handler-IsChoice : (path : UrlPath) → IsChoice handlers path (find_handler handlers path)
  unfolding find_handler
  find_handler-IsChoice path = elim (Option-cases (process handlers path)) [
    | inr (found, e) ↦ rw (e, find_handler) (inl e)
    | inl e ↦
        rw (e, find_handler)
          (chosen handlers path (search handlers path handlers (none, 0)) e (
            search-Kept handlers path handlers (none, 0) (All-keys handlers)
              ((λ n. refl), λ found f. cc)))
  ]
