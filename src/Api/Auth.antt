-- ===== src/Api/Auth.antt =====
-- `StaticTokenAuth` of src/vfobs/api/auth.py.
use mathlib.Core.Option.{some-injective}
use Prim.Native.Char.{code}
use vfobs.Prelude.{
  String, str_eq, eq_iff, ◌≡◌, ◌≢◌, ◌↔◌, ◌⊎◌, inl, inr, refl, ap, Bool, true, false, not, ◌&&◌,
  Option, none, some, arith, ltb, Bool-cases, if◌then◌else◌,
}
use vfobs.Prelude.Result.{Result, ok, raise, Exception, type_error, http_exception}

-- `s.isascii()`
unfoldable pub is_ascii : String → Bool
is_ascii String.[] = true
is_ascii (String.◌∷◌ c s) = let rest = is_ascii s in ltb (code c) 128 && rest

-- `hmac.compare_digest` on texts.
pub record Hmac : Type 0 where
  pub compare_digest : String → String → Result Exception Bool

-- Documented: it compares ASCII texts, and raises TypeError where one of them has another character.
pub record HmacLaws (h : Hmac) : Type 0 where
  pub compares :
      (a b : String)
      → is_ascii a ≡ true
      → is_ascii b ≡ true
      → h.compare_digest a b ≡ ok (str_eq a b)
  pub refuses :
      (a b : String) → (is_ascii a && is_ascii b) ≡ false → h.compare_digest a b ≡ raise type_error

-- The two refusals.
abbrev pub missing_token : Exception
missing_token = http_exception 401 "Missing bearer token"

abbrev pub invalid_token : Exception
invalid_token = http_exception 401 "Invalid bearer token"

-- The end of `verify`, after the comparison.
unfoldable pub decided : Result Exception Bool → Result Exception String
decided (raise e) = raise e
decided (ok same) = if not same then raise invalid_token else ok "controller"

-- `StaticTokenAuth.verify`, where `expected` is the configured token.
unfoldable pub verify : Hmac → String → Option String → Result Exception String
unfolding decided
verify h expected none = raise missing_token
verify h expected (some token) =
    if str_eq token "" then raise missing_token else decided (h.compare_digest token expected)

module _ (h : Hmac) (laws : HmacLaws h) where
  compared :
      (token expected : String)
      → is_ascii expected ≡ true
      → ((is_ascii token ≡ true) × (h.compare_digest token expected ≡ ok (str_eq token expected)))
        ⊎ ((is_ascii token ≡ false) × (h.compare_digest token expected ≡ raise type_error))
  compared token expected e = elim (Bool-cases (is_ascii token)) [
    | inl t ↦ inl (t, laws.compares token expected t e)
    | inr t ↦ inr (t, laws.refuses token expected (ground (arith, t)))
  ]

  -- With an ASCII token configured, a caller is let in, as "controller", exactly if it sends that
  -- token and the token is not empty. A refusal is HTTP 401, except that a token with a character
  -- outside ASCII makes the comparison raise TypeError.
  pub verify_lem :
      (expected : String) (token : Option String)
      → is_ascii expected ≡ true
      → ((verify h expected token ≡ ok "controller") ↔ ((token ≡ some expected) × (expected ≢ "")))
        × ((e : Exception)
            → verify h expected token ≡ raise e
            → (e ≡ missing_token)
              ⊎ (e ≡ invalid_token)
              ⊎ ((e ≡ type_error) × (t : String) × (token ≡ some t) × (is_ascii t ≡ false)))
  unfolding verify
  verify_lem expected none a = ((λ e. cc e, λ (e, _). cc e), λ e q. inl (cc q))
  verify_lem expected (some t) a = elim (compared t expected a) [
    | inl (ascii, q) ↦ (
      (
        λ e. ground (arith, e, q, eq_iff t "", eq_iff t expected),
        λ (e, ne).
            ground (arith, some-injective t expected e, ne, q, eq_iff t "", eq_iff t expected),
      ),
      λ e r. ground (arith, r, q),
    )
    | inr (strange, q) ↦ (
      (
        λ e. ground (arith, e, q),
        λ (e, ne). ground (arith, ap is_ascii (some-injective t expected e), a, strange),
      ),
      λ e r. elim (Bool-cases (str_eq t "")) [
        | inl z ↦ inl (ground (arith, r, z))
        | inr z ↦ inr (inr (ground (arith, r, z, q), t, refl, strange))
      ],
    )
  ]

-- Whoever is let in is the controller.
pub verify-controller :
    (h : Hmac) (expected : String) (token : Option String) (principal : String)
    → verify h expected token ≡ ok principal
    → verify h expected token ≡ ok "controller"
unfolding verify
verify-controller h expected none principal e = absurd (cc e)
verify-controller h expected (some t) principal e = ground (arith, e)
