-- ===== src/Api/ReadAuth/Answered.antt =====
-- `VtfTokenAuth` over `VtfClient`: src/vfobs/api/read_auth.py with src/vfobs/adapters/vtf.py.
use Prim.Native.String.{◌++◌ as str_append}
use vfobs.Prelude.{String, ◌≡◌, ◌≢◌, ◌⊎◌, inl, inr, true, Option, some, List, [], ◌∷◌, map}
use vfobs.Prelude.Result.{ok}
use vfobs.Adapters.Dto.{VtfPrincipal}
use vfobs.Adapters.Vtf.{Http, Outcome, response, validate_token, validate_token_lem}
use vfobs.Api.ReadAuth.{Runtime, Call, Principal, principal_of, verify, cache_after}
use vfobs.Api.ReadAuth.Vouched.{Vouched, Earlier, verify-Vouched}

module _ (T : Runtime) (h : Http) (base : String) where
  -- A call of `verify` whose strategy has a `VtfClient`, with the GETs as the server answers them at
  -- that time.
  pub record ClientCall : Type 0 where
    pub token : Option String
    pub now : T.Seconds
    pub get : String → String → Outcome h.Json

  abbrev pub http_at : ClientCall → Http
  http_at c = record h { http_get = c.get }

  -- The call, where `self._vtf` is the client.
  abbrev pub call_of : ClientCall → Call T
  call_of c = record {
    token = c.token;
    now = c.now;
    validate_token = λ token. validate_token (http_at c) base token;
  }

  -- At the time of the call the server answers a GET of the validation endpoint, with the call's token,
  -- by 200 and a body that is this principal.
  pub record IsAnswered (c : ClientCall) (key : String) (p : Principal) : Type 0 where
    pub token : String
    pub asked : c.token ≡ some token
    pub hashed : T.hash_prefix token ≡ key
    pub json : h.Json
    pub answer :
        c.get (str_append base "/v2/auth/validate/") (str_append "Token " token)
        ≡ response 200 (some json)
    pub who : VtfPrincipal
    pub valid : h.validate_principal json ≡ some who
    pub principal : p ≡ principal_of T who

  Vouched-IsAnswered :
      (c : ClientCall) (key : String) (p : Principal)
      → Vouched T (call_of c) key p
      → IsAnswered c key p
  Vouched-IsAnswered c key p v =
      let (json, answer, valid) =
        (validate_token_lem (http_at c) base v.token v.who).0.0 v.answered in
      record {
        token = v.token;
        asked = v.asked;
        hashed = v.hashed;
        json = json;
        answer = answer;
        who = v.who;
        valid = valid;
        principal = v.principal;
      }

  -- It holds of one of the calls, within the time to live.
  abbrev pub Recently : T.Seconds → String → Principal → List ClientCall → Type 0
  Recently now key p [] = ⊥
  Recently now key p (b ∷ older) =
      (IsAnswered b key p × (T.within_ttl now b.now ≡ true)) ⊎ Recently now key p older

  Earlier-Recently :
      (now : T.Seconds) (key : String) (p : Principal) (older : List ClientCall)
      → Earlier T (λ b. Vouched T b key p × (T.within_ttl now b.now ≡ true)) (map call_of older)
      → Recently now key p older
  Earlier-Recently now key p [] e = e
  Earlier-Recently now key p (b ∷ older) (inl (v, fresh)) =
      inl (Vouched-IsAnswered b key p v, fresh)
  Earlier-Recently now key p (b ∷ older) (inr e) = inr (Earlier-Recently now key p older e)

  -- With `VtfClient` behind the cache, whatever its server answers at each time and after any history
  -- of calls: a caller is let in as a principal only with a token that is not empty, and only if
  -- vtaskforge answers the client's GET of the validation endpoint by 200 and that principal, now
  -- about the caller's token, or in an earlier call no longer ago than the time to live about a token
  -- with the same hash prefix.
  pub verify-IsAnswered :
      (older : List ClientCall) (c : ClientCall) (p : Principal)
      → (verify T (call_of c) (cache_after T (map call_of older))).0 ≡ ok p
      → (token : String) × (c.token ≡ some token)
        × (token ≢ "")
        × (IsAnswered c (T.hash_prefix token) p ⊎ Recently c.now (T.hash_prefix token) p older)
  verify-IsAnswered older c p e =
      let (token, asked, filled, from) = verify-Vouched T (map call_of older) (call_of c) p e in
      (
        token,
        asked,
        filled,
        elim from [
          | inl v ↦ inl (Vouched-IsAnswered c (T.hash_prefix token) p v)
          | inr v ↦ inr (Earlier-Recently c.now (T.hash_prefix token) p older v)
        ],
      )
