-- ===== src/Net/Http/Servlet/Cleaner.antt =====
-- The cleaner of src/mif/net/http/servlet.cpp.
use mif.Prelude.{
  Bool-cases, All, ℕ, ◌≡◌, inl, inr, false, some, List, [], ◌∷◌, arith, bytes_eq, nat_eq,
}
use mif.Prelude.Map.{lookup}
use mif.Net.Http.ServletSession.{Buffer, Session}
use mif.Net.Http.Servlet.{is_expired, on_cleaner}

module _ {Client : Type 0} (timeout now : ℕ) where
  -- The cleaner takes every session that is to be closed or was not used for the timeout, and keeps
  -- every other under its id.
  pub on_cleaner-lookup :
      (sessions : List (Buffer × Session Client))
      → All (λ e. is_expired timeout now e.1 ≡ false) (on_cleaner timeout now sessions)
        × ((id : Buffer) (s : Session Client)
            → lookup id sessions ≡ some s
            → is_expired timeout now s ≡ false
            → lookup id (on_cleaner timeout now sessions) ≡ some s)
  unfolding on_cleaner lookup
  on_cleaner-lookup [] = (tt, λ id s h. cc)
  on_cleaner-lookup ((j, t) ∷ sessions) =
      let rest = on_cleaner-lookup sessions in
      elim (Bool-cases (is_expired timeout now t)) [
        | inl e ↦ rw e (rest.0, λ id s h a. ground (arith, rest.1 id s))
        | inr e ↦ rw e ((e, rest.0), λ id s h a. ground (arith, rest.1 id s))
      ]
