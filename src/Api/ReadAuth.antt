-- ===== src/Api/ReadAuth.antt =====
-- `VtfTokenAuth` with its cache, and `get_read_principal`: src/vfobs/api/read_auth.py.
pub mod Vouched
pub mod Answered
pub mod Interleaved
use mathlib.Core.Option
use vfobs.Prelude.{
  ℕ, String, str_eq, ◌≡◌, ◌≢◌, ◌⊎◌, inl, inr, refl, Bool, true, false, Option, none, some, List, [],
  ◌∷◌, arith, Bool-cases, Option-cases, if◌then◌else◌,
}
use vfobs.Prelude.Dict
use vfobs.Prelude.Dict.{string_key}
use vfobs.Prelude.Int.{ℤ}
use vfobs.Prelude.Result.{
  Result, ok, raise, Exception, validation_error, value_error, type_error, key_error,
  vtf_auth_error, read_unavailable, http_exception, Result-cases,
}
use vfobs.Adapters.Dto.{VtfPrincipal, ResourceId, number, text}

pub record Principal : Type 0 where
  pub user_id : String
  pub display_name : Option String

-- What the strategy takes from Python: the first 16 hex digits of a text's SHA-256, the text of an
-- integer, the clock's readings, and `now - then < ttl` on them.
pub record Runtime : Type 1 where
  pub hash_prefix : String → String
  pub str_int : ℤ → String
  pub Seconds : Type 0
  pub within_ttl : Seconds → Seconds → Bool

module _ (T : Runtime) where
  -- `_cache`
  abbrev pub Cache : Type 0
  Cache = List (String × (Principal × T.Seconds))

  -- One call of `verify`: its token, the clock's reading, and what vtaskforge answers about a token
  -- at that time.
  pub record Call : Type 0 where
    pub token : Option String
    pub now : T.Seconds
    pub validate_token : String → Result Exception VtfPrincipal

  abbrev str_id : ResourceId → String
  str_id (number i) = T.str_int i
  str_id (text s) = s

  abbrev pub principal_of : VtfPrincipal → Principal
  principal_of who = record { user_id = str_id who.user_id; display_name = who.username }

  -- `cached is not None and (now - cached[1]) < self._ttl`
  abbrev pub usable : T.Seconds → Option (Principal × T.Seconds) → Option Principal
  usable now none = none
  usable now (some cached) = if T.within_ttl now cached.1 then some cached.0 else none

  -- The exception handler around the validation.
  unfoldable pub refused : Exception → Exception
  refused vtf_auth_error = http_exception 401 "Invalid token"
  refused other = other

  -- The validation, and the end of `verify`.
  unfoldable pub validate_and_keep :
      String
      → T.Seconds
      → Cache
      → Result Exception VtfPrincipal
      → Result Exception Principal × Cache
  unfolding refused
  validate_and_keep key now cache (raise e) = (raise (refused e), cache)
  validate_and_keep key now cache (ok who) =
      (ok (principal_of who), Dict.set key (principal_of who, now) cache)

  unfoldable pub verify_token : Call → String → Cache → Result Exception Principal × Cache
  unfolding validate_and_keep
  verify_token c token cache = elim (usable c.now (Dict.get (T.hash_prefix token) cache)) [
    | some principal ↦ (ok principal, cache)
    | none ↦ validate_and_keep (T.hash_prefix token) c.now cache (c.validate_token token)
  ]

  -- `VtfTokenAuth.verify`
  unfoldable pub verify : Call → Cache → Result Exception Principal × Cache
  unfolding verify_token
  verify c cache = elim c.token [
    | none ↦ (raise (http_exception 401 "Missing bearer token"), cache)
    | some token ↦
        if str_eq token ""
        then (raise (http_exception 401 "Missing bearer token"), cache)
        else verify_token c token cache
  ]

  -- The strategies that `app.state.read_auth` may hold.
  pub data ReadAuth : Type 0 where
    vtf_token_auth : Cache → ReadAuth
    static_principal_auth : Principal → ReadAuth

  -- `get_read_principal`
  unfoldable pub get_read_principal :
      Option ReadAuth → Call → Result Exception Principal × Option ReadAuth
  unfolding verify
  get_read_principal none c =
      (raise (http_exception 503 "read API not configured (VFOBS_VTASKFORGE_URL unset)"), none)
  get_read_principal (some (vtf_token_auth cache)) c =
      let (result, cache') = verify c cache in (result, some (vtf_token_auth cache'))
  get_read_principal (some (static_principal_auth p)) c = (ok p, some (static_principal_auth p))

  -- The cache after a history of calls, the latest of them first.
  unfoldable pub cache_after : List Call → Cache
  unfolding verify
  cache_after [] = []
  cache_after (c ∷ older) = (verify c (cache_after older)).1
