-- ===== src/Api/Routes/Guarded.antt =====
-- Who is answered by the read endpoints.
use vfobs.Prelude.{String, ◌≡◌, ◌≢◌, ◌⊎◌, inl, inr, refl, ap, ◌∙◌, Option, some, List, [], ◌∷◌, map}
use vfobs.Prelude.Dict.{string_key}
use vfobs.Prelude.Result.{Result, ok, raise, Exception, Result-cases}
use vfobs.Events.Platform.{Platform}
use vfobs.Adapters.Vtf.{Http, validate_token-raise}
use vfobs.Repository.Interface.{EventRepository}
use vfobs.Api.Reads.{EventQuery}
use vfobs.Api.Query.{Pydantic}
use vfobs.Api.ReadAuth.{
  Runtime, Principal, ReadAuth, vtf_token_auth, verify, cache_after, get_read_principal,
}
use vfobs.Api.ReadAuth.Answered.{
  ClientCall, http_at, call_of, IsAnswered, Recently, verify-IsAnswered,
}
use vfobs.Api.Routes.Refused.{IsRefused, verify-IsRefused}
use vfobs.Api.Routes.{Route, prepare, ReadRequest, endpoint, guarded, serve_read, auth_after}

module _ (T : Runtime) (h : Http) (base : String) {P : Platform} (R : EventRepository P)
    (Y : Pydantic) (client : Option String) where
  -- The calls of `verify` among the requests: those whose query is refused do not get that far.
  abbrev calls_if :
      ClientCall T h base
      → Result Exception (Route EventQuery)
      → List (ClientCall T h base)
      → List (ClientCall T h base)
  calls_if c (ok route) calls = c ∷ calls
  calls_if c (raise e) calls = calls

  abbrev pub calls_of : List (R.State × ReadRequest T h base R) → List (ClientCall T h base)
  calls_of [] = []
  calls_of ((s, r) ∷ older) = calls_if r.call (prepare Y r.route) (calls_of older)

  -- `app.state.read_auth` with the cache after calls.
  abbrev auth_of : List (ClientCall T h base) → Option (ReadAuth T)
  auth_of calls = some (vtf_token_auth (cache_after T (map (call_of T h base) calls)))

  -- A new `VtfTokenAuth`.
  abbrev pub fresh : Option (ReadAuth T)
  fresh = some (vtf_token_auth [])

  module _ (s : R.State) (r : ReadRequest T h base R) (auth : Option (ReadAuth T)) where
    serve_read-ok :
        (route : Route EventQuery)
        → prepare Y r.route ≡ ok route
        → serve_read T h base R Y client s r auth ≡ guarded T h base R client s r.call route auth
    unfolding serve_read
    serve_read-ok route e = rw (serve_read, e) refl

    serve_read-raise :
        (x : Exception)
        → prepare Y r.route ≡ raise x
        → serve_read T h base R Y client s r auth ≡ (raise x, auth)
    unfolding serve_read
    serve_read-raise x e = rw (serve_read, e) refl

  calls_of-serve_read :
      (s : R.State) (r : ReadRequest T h base R) (calls : List (ClientCall T h base))
      → (serve_read T h base R Y client s r (auth_of calls)).1
        ≡ auth_of (calls_if r.call (prepare Y r.route) calls)
  unfolding guarded get_read_principal cache_after
  calls_of-serve_read s r calls = elim (Result-cases (prepare Y r.route)) [
    | inl (route, e) ↦ rw (serve_read-ok s r (auth_of calls) route e, e) refl
    | inr (x, e) ↦ rw (serve_read-raise s r (auth_of calls) x e, e) refl
  ]

  abbrev pub auth_now : List (R.State × ReadRequest T h base R) → Option (ReadAuth T)
  auth_now older = auth_after T h base R Y client fresh older

  auth_after-calls_of :
      (older : List (R.State × ReadRequest T h base R)) → auth_now older ≡ auth_of (calls_of older)
  unfolding auth_after cache_after
  auth_after-calls_of [] = refl
  auth_after-calls_of ((s, r) ∷ older) =
      ap (λ a. (serve_read T h base R Y client s r a).1) (auth_after-calls_of older)
      ∙ calls_of-serve_read s r (calls_of older)

  -- The answer of a request, if it is refused before the endpoint: whatever the repository holds and
  -- whichever resource it is about.
  abbrev pub IsTurnedAway :
      R.State → ReadRequest T h base R → Option (ReadAuth T) → Exception → Type 0
  IsTurnedAway s r auth x =
      ((serve_read T h base R Y client s r auth).0 ≡ raise x)
      × ((s' : R.State) (route : Route EventQuery)
          → (guarded T h base R client s' r.call route auth).0 ≡ raise x)

  -- The answer of a request that is let in as a principal, which vtaskforge has vouched for: the one of
  -- its endpoint.
  abbrev pub IsLetIn :
      R.State
      → ReadRequest T h base R
      → Option (ReadAuth T)
      → List (ClientCall T h base)
      → Route EventQuery
      → Type 0
  IsLetIn s r auth calls route =
      (p : Principal) × (token : String) × (r.call.token ≡ some token)
      × (token ≢ "")
      × (IsAnswered T h base r.call (T.hash_prefix token) p
          ⊎ Recently T h base r.call.now (T.hash_prefix token) p calls)
      × ((serve_read T h base R Y client s r auth).0 ≡ endpoint T h base R client s r.call route)

  guarded-raise :
      (s : R.State) (c : ClientCall T h base) (route : Route EventQuery)
      (calls : List (ClientCall T h base)) (x : Exception)
      → (verify T (call_of T h base c) (cache_after T (map (call_of T h base) calls))).0 ≡ raise x
      → (guarded T h base R client s c route (auth_of calls)).0 ≡ raise x
  unfolding guarded get_read_principal
  guarded-raise s c route calls x e = rw e refl

  guarded-ok :
      (s : R.State) (c : ClientCall T h base) (route : Route EventQuery)
      (calls : List (ClientCall T h base)) (p : Principal)
      → (verify T (call_of T h base c) (cache_after T (map (call_of T h base) calls))).0 ≡ ok p
      → (guarded T h base R client s c route (auth_of calls)).0
        ≡ endpoint T h base R client s c route
  unfolding guarded get_read_principal
  guarded-ok s c route calls p e = rw e refl

  -- The answers after some calls of `verify`.
  served_after :
      (calls : List (ClientCall T h base)) (s : R.State) (r : ReadRequest T h base R)
      (route : Route EventQuery)
      → prepare Y r.route ≡ ok route
      → ((x : Exception) × IsRefused T (call_of T h base r.call) x
          × IsTurnedAway s r (auth_of calls) x)
        ⊎ IsLetIn s r (auth_of calls) calls route
  served_after calls s r route e =
      let there = ap (λ a. a.0) (serve_read-ok s r (auth_of calls) route e) in
      elim (Result-cases
        (verify T (call_of T h base r.call) (cache_after T (map (call_of T h base) calls))).0) [
          | inr (x, f) ↦ inl (
            x,
            verify-IsRefused T (call_of T h base r.call)
                (cache_after T (map (call_of T h base) calls))
                (validate_token-raise (http_at T h base r.call) base) x f,
            (
              there ∙ guarded-raise s r.call route calls x f,
              λ s' route'. guarded-raise s' r.call route' calls x f,
            ),
          )
          | inl (p, f) ↦
              let (token, asked, filled, from) = verify-IsAnswered T h base calls r.call p f in
              inr (p, token, asked, filled, from, there ∙ guarded-ok s r.call route calls p f)
        ]

  -- After any history of read requests to a new application with vtaskforge configured, a read request
  -- comes to one of three: its parameters are refused, and the authentication stays as it was; or it
  -- gets a 401, since its token is missing or empty, or since the client's validation refuses it now,
  -- and the same 401 whatever the repository holds and whichever resource it asks for; or it gets the
  -- answer of its endpoint, and its token is not empty, and vtaskforge answers the client's GET by 200
  -- and a principal, now about that token, or in an earlier request within the time to live about a
  -- token with the same hash prefix.
  pub serve_read-IsGuarded :
      (older : List (R.State × ReadRequest T h base R)) (s : R.State) (r : ReadRequest T h base R)
      → ((x : Exception) × (prepare Y r.route ≡ raise x)
          × (serve_read T h base R Y client s r (auth_now older) ≡ (raise x, auth_now older)))
        ⊎ ((x : Exception) × IsRefused T (call_of T h base r.call) x
            × IsTurnedAway s r (auth_now older) x)
        ⊎ ((route : Route EventQuery) × (prepare Y r.route ≡ ok route)
            × IsLetIn s r (auth_now older) (calls_of older) route)
  serve_read-IsGuarded older s r = elim (Result-cases (prepare Y r.route)) [
    | inr (x, e) ↦ inl (x, e, serve_read-raise s r (auth_now older) x e)
    | inl (route, e) ↦ inr (
        rw (auth_after-calls_of older) (elim (served_after (calls_of older) s r route e) [
          | inl away ↦ inl away
          | inr let_in ↦ inr (route, e, let_in)
        ]))
  ]
