-- ===== src/Api/ReadAuth/Interleaved.antt =====
-- Calls of `VtfTokenAuth.verify` that run at the same time: src/vfobs/api/read_auth.py. The event
-- loop can turn to another call only where `verify` awaits `validate_token`; the clock is read before.
pub mod Evidence
pub mod Granted
use vfobs.Prelude.{
  ℕ, String, str_eq, ◌≡◌, refl, Bool, true, false, Option, none, some, List, [], ◌∷◌, Bool-cases,
  inl, inr, Option-cases, if◌then◌else◌,
}
use vfobs.Prelude.Dict
use vfobs.Prelude.Dict.{string_key, nat_key}
use vfobs.Prelude.Result.{Result, ok, raise, Exception, http_exception}
use vfobs.Adapters.Dto.{VtfPrincipal}
use vfobs.Api.ReadAuth.{
  Runtime, Cache, Principal, Call, usable, validate_and_keep, verify_token, verify,
}

module _ (T : Runtime) where
  -- Where a call is: it awaits the answer about its token, with the time that it has read, or it
  -- has returned.
  pub data Phase : Type 0 where
    asking : String → T.Seconds → Phase
    returned : Result Exception Principal → Phase

  asks_or_hits : String → T.Seconds → Option Principal → Phase
  asks_or_hits token now none = asking token now
  asks_or_hits token now (some principal) = returned (ok principal)

  -- `verify` up to the `await`.
  unfoldable pub begin_verify : Option String → T.Seconds → Cache T → Phase
  unfolding asks_or_hits
  begin_verify none now cache = returned (raise (http_exception 401 "Missing bearer token"))
  begin_verify (some token) now cache =
      if str_eq token ""
      then returned (raise (http_exception 401 "Missing bearer token"))
      else asks_or_hits token now (usable T now (Dict.get (T.hash_prefix token) cache))

  -- `verify` from the answer on.
  unfoldable pub end_verify : Phase → Result Exception VtfPrincipal → Cache T → Phase × Cache T
  unfolding validate_and_keep
  end_verify (returned result) answer cache = (returned result, cache)
  end_verify (asking token now) answer cache =
      let (result, cache') = validate_and_keep T (T.hash_prefix token) now cache answer in
      (returned result, cache')

  -- The cache, and the calls by their numbers.
  pub record Auth : Type 0 where
    pub cache : Cache T
    pub calls : List (ℕ × Phase)

  -- A call begins with a token at a time, or its answer from vtaskforge comes.
  pub data Input : Type 0 where
    begins : ℕ → Option String → T.Seconds → Input
    answered : ℕ → Result Exception VtfPrincipal → Input

  answer_to : ℕ → Result Exception VtfPrincipal → Option Phase → Auth → Auth
  unfolding end_verify
  answer_to i answer none s = s
  answer_to i answer (some phase) s =
      let (phase', cache') = end_verify phase answer s.cache in
      record { cache = cache'; calls = Dict.set i phase' s.calls }

  unfoldable pub take_input : Input → Auth → Auth
  unfolding begin_verify answer_to
  take_input (begins i token now) s = record s {
    calls = Dict.set i (begin_verify token now s.cache) s.calls;
  }
  take_input (answered i answer) s = answer_to i answer (Dict.get i s.calls) s

  -- After any interleaving, the latest input first.
  unfoldable pub after : List Input → Auth
  unfolding take_input
  after [] = record { cache = []; calls = [] }
  after (i ∷ older) = take_input i (after older)

  -- The end of a call that is not interrupted.
  unfoldable pub result_of : Phase × Cache T → Option (Result Exception Principal × Cache T)
  result_of (returned result, cache) = some (result, cache)
  result_of (asking token now, cache) = none

  -- The answer that a call awaits.
  unfoldable pub answer_for : Call T → Phase → Result Exception VtfPrincipal
  answer_for c (asking token now) = c.validate_token token
  answer_for c (returned result) = raise Exception.vtf_auth_error

  -- A call that no other interrupts does what `verify` does in one go.
  pub end_verify-begin_verify :
      (c : Call T) (cache : Cache T)
      → result_of (
          end_verify
            (begin_verify c.token c.now cache)
            (answer_for c (begin_verify c.token c.now cache))
            cache)
        ≡ some (verify T c cache)
  unfolding end_verify begin_verify result_of answer_for verify verify_token
  end_verify-begin_verify c cache = elim (Option-cases c.token) [
    | inl e ↦ rw e
    | inr (token, e) ↦ elim (Bool-cases (str_eq token "")) [
      | inl z ↦ rw (e, z)
      | inr z ↦ elim (Option-cases (usable T c.now (Dict.get (T.hash_prefix token) cache))) [
        | inl u ↦ rw (verify_token, e, z, u)
        | inr (p, u) ↦ rw (verify_token, e, z, u)
      ]
    ]
  ]
