-- ===== src/Net/Http/ServletSession.antt =====
-- `Session` of src/mif/net/http/servlet.cpp: the session of a client over HTTP requests. Each call
-- is made while no other runs; the maps by thread are kept. Time is in seconds.
pub mod Published
use mif.Prelude.{
  ltb, Exception, non_standard, Result, ok, throws, ℕ, Bool, true, false, Option, none, some, List,
  [], ◌∷◌, bytes_eq, nat_eq,
}
use mif.Prelude.Map.{lookup, erase, insert, emplace}

abbrev pub Buffer : Type 0
Buffer = List ℕ

-- What a client calls on its session while it handles data: `Publish` or `CloseMe`
pub data Action : Type 0 where
  publishes : Buffer → Action
  closes : Action

-- `m_exceptions` may hold a null pointer.
pub record Session (Client : Type 0) : Type 0 where
  pub timestamp : ℕ
  pub need_for_close : Bool
  pub responses : List (ℕ × Buffer)
  pub exceptions : List (ℕ × Option Exception)
  pub client : Client

-- What a client makes of its state at `OnData`, what it calls, and whether it throws
abbrev pub OnData : Type 0 → Type 0
OnData Client = Client → Buffer → Client × List Action × Result (Unit {0})

module _ {Client : Type 0} where
  -- The constructor and `Init`, at a time
  unfoldable pub new_session : ℕ → Client → Session Client
  new_session now client = record {
    timestamp = now;
    need_for_close = false;
    responses = [];
    exceptions = [];
    client = client;
  }

  -- `Publish` and `CloseMe`, called by the thread
  unfoldable pub perform : ℕ → Action → Session Client → Session Client
  perform thread (publishes b) s = record s { responses = emplace ltb thread b s.responses }
  perform thread closes s = record s { need_for_close = true }

  unfoldable pub perform_all : ℕ → List Action → Session Client → Session Client
  perform_all thread [] s = s
  perform_all thread (a ∷ actions) s = perform_all thread actions (perform thread a s)

  -- `cleanResponse`
  unfoldable pub clean_response : ℕ → Session Client → Session Client
  clean_response thread s = record s { responses = erase thread s.responses }

  -- The response of the thread, or nothing
  pub response_of : ℕ → Session Client → Buffer
  response_of thread s = elim (lookup thread s.responses) [ some b ↦ b | none ↦ [] ]

  -- `OnData` after the client returned or threw, without the clean-up at its end
  unfoldable pub finish :
      ℕ → ℕ → Result (Unit {0}) → Session Client → Session Client × Result Buffer
  finish thread now (ok u) s = (record s { timestamp = now }, ok (response_of thread s))
  finish thread now (throws non_standard) s = (s, throws non_standard)
  finish thread now (throws e) s = (
    record s { exceptions = emplace ltb thread (some e) s.exceptions; need_for_close = true },
    ok [],
  )

  -- A session that is about to call its client
  unfoldable pub prepared : ℕ → Session Client → Session Client
  prepared thread s = record (clean_response thread s) { exceptions = erase thread s.exceptions }

  -- `Session::OnData`
  unfoldable pub on_data :
      OnData Client → ℕ → ℕ → Buffer → Session Client → Session Client × Result Buffer
  on_data client_on_data thread now buffer s =
      let (client, actions, thrown) = client_on_data s.client buffer in
      let (after, r) =
        finish thread now thrown
          (perform_all thread actions (record (prepared thread s) { client = client })) in
      (clean_response thread after, r)

  -- `GetException`
  unfoldable pub get_exception : ℕ → Session Client → Option Exception × Session Client
  get_exception thread s = elim (lookup thread s.exceptions) [
    | none ↦ (none, s)
    | some e ↦ (e, record s { exceptions = insert ltb thread none s.exceptions })
  ]
