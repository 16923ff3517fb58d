-- ===== src/Api/ReadAuth/Vouched.antt =====
-- Whom `VtfTokenAuth.verify` lets in, after any history of calls.
use mathlib.Core.Path.{subst}
use vfobs.Prelude.{
  String, str_eq, ◌≡◌, ◌≢◌, ◌⊎◌, inl, inr, refl, ap, true, Option, none, some, List, [], ◌∷◌, arith,
  Bool-cases, Option-cases, if◌then◌else◌, eq_iff,
}
use vfobs.Prelude.Dict
use vfobs.Prelude.Dict.{string_key}
use vfobs.Prelude.Result.{Result, ok, raise, Exception, Result-cases, http_exception}
use vfobs.Adapters.Dto.{VtfPrincipal}
use vfobs.Api.ReadAuth.{
  Runtime, Cache, Principal, Call, principal_of, usable, refused, validate_and_keep, verify_token,
  verify, cache_after,
}

abbrev fst : {A B : Type 0} → A × B → A
fst p = p.0

abbrev snd : {A B : Type 0} → A × B → B
snd p = p.1

module _ (T : Runtime) where
  -- At the time of the call vtaskforge answers for the principal, about the call's own token.
  pub record Vouched (b : Call T) (key : String) (p : Principal) : Type 0 where
    pub token : String
    pub asked : b.token ≡ some token
    pub hashed : T.hash_prefix token ≡ key
    pub who : VtfPrincipal
    pub answered : b.validate_token token ≡ ok who
    pub principal : p ≡ principal_of T who

  -- It holds of one of the calls.
  abbrev pub Earlier : (Call T → Type 0) → List (Call T) → Type 0
  Earlier Q [] = ⊥
  Earlier Q (b ∷ calls) = Q b ⊎ Earlier Q calls

  Earlier-map :
      {Q Q' : Call T → Type 0}
      → ((b : Call T) → Q b → Q' b)
      → (calls : List (Call T)) → Earlier Q calls
      → Earlier Q' calls
  Earlier-map f [] e = e
  Earlier-map f (b ∷ calls) (inl q) = inl (f b q)
  Earlier-map f (b ∷ calls) (inr e) = inr (Earlier-map f calls e)

  -- The answer comes from the cache, or vtaskforge is asked and answers for the principal.
  abbrev FromCache : Call T → Cache T → String → Result Exception Principal × Cache T → Type 0
  FromCache c cache token result =
      (p : Principal) × (at : T.Seconds) × (Dict.get (T.hash_prefix token) cache ≡ some (p, at))
      × (T.within_ttl c.now at ≡ true)
      × (result ≡ (ok p, cache))

  abbrev FromVtf : Call T → Cache T → String → Result Exception Principal × Cache T → Type 0
  FromVtf c cache token result =
      (who : VtfPrincipal) × (c.validate_token token ≡ ok who)
      × (result ≡ (
        ok (principal_of T who),
        Dict.set (T.hash_prefix token) (principal_of T who, c.now) cache,
      ))

  abbrev Fails : Cache T → Result Exception Principal × Cache T → Type 0
  Fails cache result = (e : Exception) × (result ≡ (raise e, cache))

  module _ (c : Call T) (cache : Cache T) where
    entry_cases :
        (o : Option (Principal × T.Seconds))
        → ((p : Principal) × (at : T.Seconds) × (o ≡ some (p, at))
            × (T.within_ttl c.now at ≡ true)
            × (usable T c.now o ≡ some p))
          ⊎ (usable T c.now o ≡ none)
    entry_cases none = inr refl
    entry_cases (some (p, at)) = elim (Bool-cases (T.within_ttl c.now at)) [
      | inl e ↦ inl (p, at, refl, e, rw e)
      | inr e ↦ inr (rw e)
    ]

    verify_token_cases :
        (token : String)
        → FromCache c cache token (verify_token T c token cache)
          ⊎ FromVtf c cache token (verify_token T c token cache)
          ⊎ Fails cache (verify_token T c token cache)
    unfolding verify_token validate_and_keep
    verify_token_cases token = elim (entry_cases (Dict.get (T.hash_prefix token) cache)) [
      | inl (p, at, e, fresh, u) ↦ inl (p, at, e, fresh, rw (verify_token, u))
      | inr u ↦ elim (Result-cases (c.validate_token token)) [
        | inl (who, a) ↦ inr (inl (who, a, rw (verify_token, u, a)))
        | inr (x, a) ↦ inr (inr (refused T x, rw (verify_token, u, a)))
      ]
    ]

    verify_cases :
        ((token : String) × (c.token ≡ some token)
          × (token ≢ "")
          × (FromCache c cache token (verify T c cache) ⊎ FromVtf c cache token (verify T c cache)))
        ⊎ Fails cache (verify T c cache)
    unfolding verify
    verify_cases = elim (Option-cases c.token) [
      | inl e ↦ inr (http_exception 401 "Missing bearer token", rw e)
      | inr (token, e) ↦ elim (Bool-cases (str_eq token "")) [
        | inl z ↦ inr (http_exception 401 "Missing bearer token", rw (e, z))
        | inr z ↦ elim (verify_token_cases token) [
          | inl (p, at, g, fresh, v) ↦ inl (
            token,
            e,
            (λ x. ground (arith, z, eq_iff token "", x)),
            inl (p, at, g, fresh, rw (e, z) v),
          )
          | inr (inl (who, a, v)) ↦
              inl
                (token, e, (λ x. ground (arith, z, eq_iff token "", x)), inr (who, a, rw (e, z) v))
          | inr (inr (x, v)) ↦ inr (x, rw (e, z) v)
        ]
      ]
    ]

  -- An entry of a cache with one more principal is the new one, or was there before.
  set-Vouched :
      (c : Call T) (cache : Cache T) (token key : String) (who : VtfPrincipal) (p : Principal)
      (at : T.Seconds) {Before : Type 0}
      → c.token ≡ some token
      → c.validate_token token ≡ ok who
      → (Dict.get key cache ≡ some (p, at) → Before)
      → Dict.get key (Dict.set (T.hash_prefix token) (principal_of T who, c.now) cache)
        ≡ some (p, at)
      → (Vouched c key p × (c.now ≡ at)) ⊎ Before
  set-Vouched c cache token key who p at asked a before g =
      elim (Bool-cases (str_eq (T.hash_prefix token) key)) [
        | inl same ↦
            let e : entry ≡ some (p, at) = ground (arith, same, g, law) in
            inl (
              record {
                token = token;
                asked = asked;
                hashed = (eq_iff (T.hash_prefix token) key).0 same;
                who = who;
                answered = a;
                principal = cc e;
              },
              cc e,
            )
        | inr other ↦ inr (before (ground (arith, other, g, law)))
      ]
    where
      entry : Option (Principal × T.Seconds)
      entry = some (principal_of T who, c.now)

      law :
          Dict.get key (Dict.set (T.hash_prefix token) (principal_of T who, c.now) cache)
          ≡ (if str_eq (T.hash_prefix token) key then entry else Dict.get key cache)
      law = Dict.get-set (T.hash_prefix token) key (principal_of T who, c.now) cache

  -- An entry of the cache was put there by a call that vtaskforge answered, at its time.
  cache_after-Vouched :
      (calls : List (Call T)) (key : String) (p : Principal) (at : T.Seconds)
      → Dict.get key (cache_after T calls) ≡ some (p, at)
      → Earlier (λ b. Vouched b key p × (b.now ≡ at)) calls
  unfolding cache_after Dict.get
  cache_after-Vouched [] key p at e = cc e
  cache_after-Vouched (c ∷ calls) key p at e =
      let older = cache_after-Vouched calls key p at in
      elim (verify_cases c (cache_after T calls)) [
        | inl (token, asked, ne, inl (q, t, g, fresh, v)) ↦ inr (older (rw (ap snd v) at e))
        | inl (token, asked, ne, inr (who, a, v)) ↦
            set-Vouched c (cache_after T calls) token key who p at asked a older
              (rw (ap snd v) at e)
        | inr (x, v) ↦ inr (older (rw (ap snd v) at e))
      ]

  -- After any history of calls, and whatever vtaskforge answers at each time: a caller is let in as
  -- a principal only with a token that is not empty, and only if vtaskforge vouches for the
  -- principal now, about that token, or did so in an earlier call about a token with the same hash
  -- prefix, no longer ago than the time to live.
  pub verify-Vouched :
      (older : List (Call T)) (c : Call T) (p : Principal)
      → (verify T c (cache_after T older)).0 ≡ ok p
      → (token : String) × (c.token ≡ some token)
        × (token ≢ "")
        × (Vouched c (T.hash_prefix token) p
            ⊎ Earlier
                (λ b. Vouched b (T.hash_prefix token) p × (T.within_ttl c.now b.now ≡ true))
                older)
  verify-Vouched older c p e = elim (verify_cases c (cache_after T older)) [
    | inl (token, asked, ne, inl (q, t, g, fresh, v)) ↦
        let same : q ≡ p = cc (rw (ap fst v) at e) in
        (
          token,
          asked,
          ne,
          inr (
              Earlier-map
                (λ b (here, when).
                  (subst (Vouched b (T.hash_prefix token)) same here, rw when fresh))
                older (cache_after-Vouched older (T.hash_prefix token) q t g)),
        )
    | inl (token, asked, ne, inr (who, a, v)) ↦ (
      token,
      asked,
      ne,
      inl (record {
        token = token;
        asked = asked;
        hashed = refl;
        who = who;
        answered = a;
        principal = cc (rw (ap fst v) at e);
      }),
    )
    | inr (x, v) ↦ absurd (cc (rw (ap fst v) at e))
  ]
