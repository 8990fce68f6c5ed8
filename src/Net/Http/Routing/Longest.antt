-- ===== src/Net/Http/Routing/Longest.antt =====
-- The handler that is called is the one of the longest registered prefix of the path.
use mif.Prelude.Map.{lookup}
use mif.Prelude.{
  Option-cases, length, length-append, ℕ, zero, suc, ◌≤◌, ◌≡◌, refl, sym, ap, ◌∙◌, ◌≢◌, ◌⊎◌, inl,
  inr, Option, none, some, List, [], ◌∷◌, ◌++◌, append_assoc, arith, bytes_eq, nat_eq,
}
use mif.Net.Http.Routing.{
  UrlPath, slash, before_last_slash, or_root, with_slash, process, search_up, route,
}
use mif.Net.Http.Routing.Slashes.{
  before_last_slash-some, before_last_slash-none, before_last_slash-nil, last_slash_last,
  length-or_root, length-or_root-le, Above-shorter, Covers-with_slash, with_slash-Covers, Above,
  Covers,
}

module _ {ℓ} {H : Type ℓ} (handlers : List (UrlPath × H)) where
  -- No key that a predicate picks is registered.
  abbrev Unregistered : (UrlPath → Type 0) → Type ℓ
  Unregistered picks = (k : UrlPath) → picks k → lookup k handlers ≡ none

  -- The result is a registered key that the predicate picks, with its handler, and no other such
  -- key is longer; there is no result exactly if there is no such key.
  abbrev pub Longest : (UrlPath → Type 0) → Option (UrlPath × H) → Type ℓ
  Longest picks none = Unregistered picks
  Longest picks (some (k, h)) =
      (lookup k handlers ≡ some h)
      × picks k
      × ((k' : UrlPath) → picks k' → lookup k' handlers ≢ none → length k' ≤ length k)

  nothing-Above : (url : UrlPath) → before_last_slash url ≡ none → Unregistered (Above url)
  nothing-Above url n k (p, q, e, _) =
      absurd (before_last_slash-none p q (ap before_last_slash (sym e) ∙ n))

  -- The key at the last slash is registered.
  Longest-here :
      (url p q : UrlPath) {h : H}
      → url ≡ p ++ slash ∷ q
      → before_last_slash q ≡ none
      → lookup (or_root p) handlers ≡ some h
      → Longest (Above url) (some (or_root p, h))
  Longest-here url p q e n found = (found, (p, q, e, refl), longest)
    where
      longest :
          (k' : UrlPath) → Above url k' → lookup k' handlers ≢ none → length k' ≤ length (or_root p)
      longest k' (p', q', e', k) _ = elim (last_slash_last p' q' p q (sym e' ∙ e) n) [
        | inl same ↦ rw (k, same) (omega arith)
        | inr (r, deeper) ↦ rw k (
            length-or_root-le p' _
              (omega (arith, ap length deeper, length-append p' (slash ∷ r), length-or_root p))
              (omega (arith, ap length deeper, length-append p' (slash ∷ r), length-or_root p)))
      ]

  -- Above a url stands the key at the last slash, and what stands above that.
  Above-cases :
      (url p q : UrlPath)
      → url ≡ p ++ slash ∷ q
      → before_last_slash q ≡ none
      → (k : UrlPath) → Above url k
      → (k ≡ or_root p) ⊎ Above p k
  Above-cases url p q e n k (p', q', e', key) = elim (last_slash_last p' q' p q (sym e' ∙ e) n) [
    | inl same ↦ inl (key ∙ ap or_root same)
    | inr (r, deeper) ↦ inr (p', r, deeper, key)
  ]

  Above-up : (url p q k : UrlPath) → url ≡ p ++ slash ∷ q → Above p k → Above url k
  Above-up url p q k e (p', q', e', key) =
      (p', q' ++ slash ∷ q, e ∙ rw e' (append_assoc p' (slash ∷ q') (slash ∷ q)), key)

  -- The key at the last slash is not registered.
  Longest-up :
      (url p q : UrlPath) (r : Option (UrlPath × H))
      → url ≡ p ++ slash ∷ q
      → before_last_slash q ≡ none
      → lookup (or_root p) handlers ≡ none
      → Longest (Above p) r
      → Longest (Above url) r
  Longest-up url p q none e n missing rest = λ k above. elim (Above-cases url p q e n k above) [
    | inl same ↦ rw same missing
    | inr up ↦ rest k up
  ]
  Longest-up url p q (some (k, h)) e n missing (found, up, longest) = (
    found,
    Above-up url p q k e up,
    λ k' above registered. elim (Above-cases url p q e n k' above) [
      | inl same ↦ absurd (registered (rw same missing))
      | inr up' ↦ longest k' up' registered
    ],
  )

  process-some :
      (k : UrlPath) {h : H} → lookup k handlers ≡ some h → process handlers k ≡ some (k, h)
  unfolding process
  process-some k e = rw (e, process)

  process-none : (k : UrlPath) → lookup k handlers ≡ none → process handlers k ≡ none
  unfolding process
  process-none k e = rw (e, process)

  search_up-stop :
      (fuel : ℕ) (url : UrlPath)
      → before_last_slash url ≡ none
      → search_up handlers (suc fuel) url ≡ none
  unfolding search_up
  search_up-stop fuel url e = rw (e, search_up)

  search_up-found :
      (fuel : ℕ) (url p : UrlPath) {h : H}
      → before_last_slash url ≡ some p
      → lookup (or_root p) handlers ≡ some h
      → search_up handlers (suc fuel) url ≡ some (or_root p, h)
  unfolding search_up
  search_up-found fuel url p e found = rw (e, search_up, process-some (or_root p) found)

  search_up-next :
      (fuel : ℕ) (url p : UrlPath)
      → before_last_slash url ≡ some p
      → lookup (or_root p) handlers ≡ none
      → search_up handlers (suc fuel) url ≡ search_up handlers fuel p
  unfolding search_up
  search_up-next fuel url p e missing = rw (e, search_up, process-none (or_root p) missing)

  search_up-nil : (url : UrlPath) → search_up handlers zero url ≡ none
  unfolding search_up
  search_up-nil url = refl

  search_up-Longest :
      (fuel : ℕ) (url : UrlPath)
      → length url ≤ fuel
      → Longest (Above url) (search_up handlers fuel url)
  search_up-Longest zero [] h = rw (search_up-nil []) (nothing-Above [] before_last_slash-nil)
  search_up-Longest zero (c ∷ url) h = absurd (omega arith)
  search_up-Longest (suc fuel) url h = elim (Option-cases (before_last_slash url)) [
    | inl n ↦ rw (search_up-stop fuel url n) (nothing-Above url n)
    | inr (p, s) ↦
        let (q, cut, last) = before_last_slash-some url p s in
        elim (Option-cases (lookup (or_root p) handlers)) [
          | inr (x, found) ↦
              rw (search_up-found fuel url p s found) (Longest-here url p q cut last found)
          | inl missing ↦ rw (search_up-next fuel url p s missing) (
              Longest-up url p q (search_up handlers fuel p) cut last missing (
                search_up-Longest fuel p
                  (omega (arith, ap length cut, length-append p (slash ∷ q)))))
        ]
  ]

  Longest-Covers :
      (path : UrlPath) (r : Option (UrlPath × H))
      → lookup path handlers ≡ none
      → Longest (Above (with_slash path)) r
      → Longest (Covers path) r
  Longest-Covers path none missing rest = λ k c. elim (Covers-with_slash path k c) [
    | inl same ↦ rw same missing
    | inr above ↦ rest k above
  ]
  Longest-Covers path (some (k, h)) missing (found, above, longest) = (
    found,
    with_slash-Covers path k above,
    λ k' c registered. elim (Covers-with_slash path k' c) [
      | inl same ↦ absurd (registered (rw same missing))
      | inr above' ↦ longest k' above' registered
    ],
  )

  route-exact :
      (path : UrlPath) {h : H}
      → lookup path handlers ≡ some h
      → route handlers path ≡ some (path, h)
  unfolding route
  route-exact path found = rw (process-some path found, route)

  route-up :
      (path : UrlPath)
      → lookup path handlers ≡ none
      → route handlers path ≡ search_up handlers (length (with_slash path)) (with_slash path)
  unfolding route
  route-up path missing = rw (process-none path missing, route)

-- For every path, the handler that is called is registered under the path or under a part of it
-- that ends before a slash ("/" for the empty part), and no longer such part is registered. No
-- handler is called exactly if none is registered under any of these.
pub route-Longest {ℓ} :
    {H : Type ℓ} (handlers : List (UrlPath × H)) (path : UrlPath)
    → Longest handlers (Covers path) (route handlers path)
route-Longest handlers path = elim (Option-cases (lookup path handlers)) [
  | inr (h, found) ↦ rw (route-exact handlers path found) (found, inl refl, λ k' c _. longest k' c)
  | inl missing ↦ rw (route-up handlers path missing) (
      Longest-Covers handlers path _ missing
        (search_up-Longest handlers (length (with_slash path)) (with_slash path) (omega arith)))
]
  where
    longest : (k' : UrlPath) → Covers path k' → length k' ≤ length path
    longest k' (inl same) = omega (arith, ap length same)
    longest k' (inr above) = Above-shorter path k' above
