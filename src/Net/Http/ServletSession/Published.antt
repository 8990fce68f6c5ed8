-- ===== src/Net/Http/ServletSession/Published.antt =====
-- What `Session::OnData` of src/mif/net/http/servlet.cpp returns.
use mif.Prelude.{
  ltb, nat_beq_iff, Option-cases, ok, ℕ, ◌≡◌, refl, ap, ◌∙◌, inl, inr, true, Option, none, some,
  List, [], ◌∷◌, bytes_eq, nat_eq,
}
use mif.Prelude.Map.{lookup, erase, emplace}
use mif.Prelude.Map.Laws.{lookup-erase, lookup-insert, emplace-eq-insert, emplace_present}
use mif.Net.Http.ServletSession.{
  Buffer, Action, publishes, closes, Session, OnData, perform, perform_all, clean_response,
  response_of, finish, prepared, on_data,
}

-- The first buffer that is published
abbrev pub first_published : List Action → Option Buffer
first_published [] = none
first_published (publishes b ∷ actions) = some b
first_published (closes ∷ actions) = first_published actions

abbrev pub or_nothing : Option Buffer → Buffer
or_nothing none = []
or_nothing (some b) = b

abbrev or_else : Option Buffer → Option Buffer → Option Buffer
or_else none o = o
or_else (some b) o = some b

lookup-emplace :
    (k : ℕ) (b : Buffer) (m : List (ℕ × Buffer))
    → lookup k (emplace ltb k b m) ≡ or_else (lookup k m) (some b)
lookup-emplace k b m = elim (Option-cases (lookup k m)) [
  | inl e ↦
      rw (emplace-eq-insert ltb k b m e, lookup-insert ltb k k b m, e, (nat_beq_iff k k).1 refl)
        refl
  | inr (w, e) ↦ rw (emplace_present ltb k b m e, e) refl
]

or_else-none : (o : Option Buffer) → o ≡ or_else o none
or_else-none none = refl
or_else-none (some b) = refl

or_else_twice :
    (o : Option Buffer) (b : Buffer) (p : Option Buffer)
    → or_else (or_else o (some b)) p ≡ or_else o (some b)
or_else_twice none b p = refl
or_else_twice (some c) b p = refl

lookup-erased : {V : Type 0} (thread : ℕ) (m : List (ℕ × V)) → lookup thread (erase thread m) ≡ none
lookup-erased thread m = rw (lookup-erase thread thread m, (nat_beq_iff thread thread).1 refl) refl

module _ {Client : Type 0} (thread : ℕ) where
  lookup-perform_all :
      (actions : List Action) (s : Session Client)
      → lookup thread (perform_all thread actions s).responses
        ≡ or_else (lookup thread s.responses) (first_published actions)
  unfolding perform_all perform
  lookup-perform_all [] s = or_else-none (lookup thread s.responses)
  lookup-perform_all (publishes b ∷ actions) s =
      lookup-perform_all actions (record s { responses = emplace ltb thread b s.responses })
      ∙ ap (λ o. or_else o (first_published actions)) (lookup-emplace thread b s.responses)
      ∙ or_else_twice (lookup thread s.responses) b (first_published actions)
  lookup-perform_all (closes ∷ actions) s =
      lookup-perform_all actions (record s { need_for_close = true })

  response_of-lookup :
      (s : Session Client) {o : Option Buffer}
      → lookup thread s.responses ≡ o
      → response_of thread s ≡ or_nothing o
  unfolding response_of
  response_of-lookup s {o = none} e = rw (e, response_of) refl
  response_of-lookup s {o = some b} e = rw (e, response_of) refl

  lookup-prepared :
      (actions : List Action) (s : Session Client) (c : Client)
      → lookup thread
          (perform_all thread actions (record (prepared thread s) { client = c })).responses
        ≡ first_published actions
  unfolding prepared clean_response
  lookup-prepared actions s c =
      lookup-perform_all actions (record (prepared thread s) { client = c })
      ∙ ap (λ o. or_else o (first_published actions)) (lookup-erased thread s.responses)

  -- Where the client returns, the reply to a request is the first buffer that the client published
  -- while it handled the data, whatever was published before, and nothing if it published none:
  -- what it publishes after the first is lost. Nothing is left for the next request of the thread.
  pub on_data-first_published :
      (client_on_data : OnData Client) (now : ℕ) (buffer : Buffer) (s : Session Client)
      → (client_on_data s.client buffer).2 ≡ ok tt
      → let (after, r) = on_data client_on_data thread now buffer s in
        (r ≡ ok (or_nothing (first_published (client_on_data s.client buffer).1)))
        × (lookup thread after.responses ≡ none)
        × (after.timestamp ≡ now)
  unfolding on_data finish clean_response
  on_data-first_published client_on_data now buffer s e =
      let (c, actions, u) = client_on_data s.client buffer in
      rw (on_data, e)
        (
          ap ok (
              response_of-lookup
                (perform_all thread actions (record (prepared thread s) { client = c }))
                (lookup-prepared actions s c)),
          lookup-erased thread
              (perform_all thread actions (record (prepared thread s) { client = c })).responses,
          refl,
        )
