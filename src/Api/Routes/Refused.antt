-- ===== src/Api/Routes/Refused.antt =====
-- Whom `VtfTokenAuth.verify` refuses: src/vfobs/api/read_auth.py.
use vfobs.Prelude.{
  Option-cases, Bool-cases, str_eq, eq_iff, String, ◌≡◌, ◌⊎◌, inl, inr, refl, sym, ap, ◌∙◌, Option,
  none, some,
}
use vfobs.Prelude.Dict
use vfobs.Prelude.Dict.{string_key}
use vfobs.Prelude.Result.{Result, ok, raise, Exception, http_exception, vtf_auth_error}
use vfobs.Adapters.Dto.{VtfPrincipal}
use vfobs.Api.ReadAuth.{
  Runtime, Principal, Call, Cache, usable, refused, verify_token, validate_and_keep, verify,
}

abbrev missing_token : Exception
missing_token = http_exception 401 "Missing bearer token"

raise-injective :
    {A : Type 0} {x y : Exception} → Path (Result Exception A) (raise x) (raise y) → x ≡ y
raise-injective e = cc e

module _ (T : Runtime) where
  -- A call without a token, or with one that vtaskforge is asked about and refuses.
  abbrev WithoutToken : Call T → Exception → Type 0
  WithoutToken c x = ((c.token ≡ none) ⊎ (c.token ≡ some "")) × (x ≡ missing_token)

  abbrev WithBadToken : Call T → Exception → Type 0
  WithBadToken c x =
      (token : String) × (c.token ≡ some token)
      × (c.validate_token token ≡ raise vtf_auth_error)
      × (x ≡ http_exception 401 "Invalid token")

  abbrev pub IsRefused : Call T → Exception → Type 0
  IsRefused c x = WithoutToken c x ⊎ WithBadToken c x

  module _ (c : Call T) (cache : Cache T)
      (only : (token : String) (e : Exception)
        → c.validate_token token ≡ raise e
        → e ≡ vtf_auth_error) where
    kept-WithBadToken :
        (token key : String) (x : Exception) (answer : Result Exception VtfPrincipal)
        → c.token ≡ some token
        → c.validate_token token ≡ answer
        → (validate_and_keep T key c.now cache answer).0 ≡ raise x
        → WithBadToken c x
    unfolding validate_and_keep
    kept-WithBadToken token key x (ok who) asked a e = absurd (cc e)
    kept-WithBadToken token key x (raise y) asked a e =
        let same : y ≡ vtf_auth_error = only token y a in
        (
          token,
          asked,
          a ∙ ap raise same,
          raise-injective (sym e ∙ ap (λ z. raise (refused T z)) same),
        )

    found-WithBadToken :
        (token : String) (x : Exception) (found : Option Principal)
        → c.token ≡ some token
        → (elim found as (λ _. Result Exception Principal × Cache T) [
          | some principal ↦ (ok principal, cache)
          | none ↦ validate_and_keep T (T.hash_prefix token) c.now cache (c.validate_token token)
        ]).0
          ≡ raise x
        → WithBadToken c x
    found-WithBadToken token x (some p) asked e = absurd (cc e)
    found-WithBadToken token x none asked e =
        kept-WithBadToken token (T.hash_prefix token) x (c.validate_token token) asked refl e

    pub verify-IsRefused : (x : Exception) → (verify T c cache).0 ≡ raise x → IsRefused c x
    unfolding verify verify_token
    verify-IsRefused x e = elim (Option-cases c.token) [
      | inl n ↦
          let f : Path (Result Exception Principal) (raise missing_token) (raise x) = rw n at e in
          inl (inl n, sym (raise-injective f))
      | inr (token, asked) ↦ elim (Bool-cases (str_eq token "")) [
        | inl z ↦
            let f : Path (Result Exception Principal) (raise missing_token) (raise x) =
              rw (asked, z) at e in
            inl (inr (asked ∙ ap some ((eq_iff token "").0 z)), sym (raise-injective f))
        | inr z ↦ inr (
            found-WithBadToken token x (usable T c.now (Dict.get (T.hash_prefix token) cache)) asked
              (rw (asked, z) at e))
      ]
    ]
