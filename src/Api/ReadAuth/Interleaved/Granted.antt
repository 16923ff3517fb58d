-- ===== src/Api/ReadAuth/Interleaved/Granted.antt =====
-- Whom `VtfTokenAuth.verify` lets in, however its calls are interleaved.
use mathlib.Core.Option.{some-injective}
use mathlib.Core.Path.{subst}
use vfobs.Prelude.{
  ℕ, String, str_eq, eq_iff, ◌≡◌, ◌∙◌, ◌==◌, inl, inr, refl, sym, true, Option, none, some, List,
  [], ◌∷◌, arith, Bool-cases, Option-cases,
}
use vfobs.Prelude.Dict
use vfobs.Prelude.Dict.{string_key, nat_key, nat_beq_iff}
use vfobs.Prelude.Result.{Result, ok, raise, Exception}
use vfobs.Adapters.Dto.{VtfPrincipal}
use vfobs.Api.ReadAuth.{Runtime, Principal, principal_of, usable, validate_and_keep}
use vfobs.Api.ReadAuth.Interleaved.{
  Phase, asking, returned, Input, begins, answered, take_input, after, begin_verify, end_verify,
}
use vfobs.Api.ReadAuth.Interleaved.Evidence.{
  Cached, IsGranted, PhaseLaw, Inv, PhaseLaw-later, Cached-later,
}

module _ (T : Runtime) where
  usable-some :
      (now : T.Seconds) (o : Option (Principal × T.Seconds)) (p : Principal)
      → usable T now o ≡ some p
      → (at : T.Seconds) × (o ≡ some (p, at)) × (T.within_ttl now at ≡ true)
  usable-some now none p e = cc
  usable-some now (some (q, at)) p e = (at, ground (arith, e), ground (arith, e))

  begin-PhaseLaw :
      (i : ℕ) (token : Option String) (now : T.Seconds) (older : List (Input T))
      → Inv T older
      → PhaseLaw T (begins i token now ∷ older) i (begin_verify T token now (after T older).cache)
  unfolding begin_verify
  begin-PhaseLaw i none now older inv = tt
  begin-PhaseLaw i (some token) now older inv = elim (Bool-cases (str_eq token "")) [
    | inl z ↦ rw z tt
    | inr z ↦
        elim (Option-cases (usable T now (Dict.get (T.hash_prefix token) (after T older).cache))) [
          | inl u ↦ rw (z, u) (inl refl, λ x. ground (arith, z, eq_iff token "", x))
          | inr (p, u) ↦
              let (at, entry, fresh) =
                usable-some now (Dict.get (T.hash_prefix token) (after T older).cache) p u in
              let (about, hashed, vouched) = inv.cached (T.hash_prefix token) p at entry in
              rw (z, u)
                (record {
                  token = token;
                  now = now;
                  began = inl refl;
                  filled = λ x. ground (arith, z, eq_iff token "", x);
                  about = about;
                  asked_at = at;
                  vouched = inr vouched;
                  hashed = hashed;
                  fresh = inr fresh;
                })
        ]
  ]

  end-PhaseLaw :
      (i : ℕ) (f : Phase T) (answer : Result Exception VtfPrincipal) (older : List (Input T))
      → Inv T older
      → Dict.get i (after T older).calls ≡ some f
      → PhaseLaw T (answered i answer ∷ older) i (end_verify T f answer (after T older).cache).0
  unfolding end_verify
  end-PhaseLaw i (returned result) answer older inv e =
      PhaseLaw-later T (answered i answer) older i (returned result)
        (inv.phase i (returned result) e)
  end-PhaseLaw i (asking token now) (raise x) older inv e = tt
  end-PhaseLaw i (asking token now) (ok who) older inv e =
      let (began, filled) = inv.phase i (asking token now) e in
      record {
        token = token;
        now = now;
        began = inr began;
        filled = filled;
        about = token;
        asked_at = now;
        vouched = inl (e, refl);
        hashed = refl;
        fresh = inl (refl, refl);
      }

  end-Cached :
      (i : ℕ) (f : Phase T) (answer : Result Exception VtfPrincipal) (older : List (Input T))
      → Inv T older
      → Dict.get i (after T older).calls ≡ some f
      → (key : String) (p : Principal) (at : T.Seconds)
      → Dict.get key (end_verify T f answer (after T older).cache).1 ≡ some (p, at)
      → Cached T (answered i answer ∷ older) key p at
  unfolding end_verify validate_and_keep
  end-Cached i (returned result) answer older inv e key p at g =
      Cached-later T (answered i answer) older key p at (inv.cached key p at g)
  end-Cached i (asking token now) (raise x) older inv e key p at g =
      Cached-later T (answered i (raise x)) older key p at (inv.cached key p at g)
  end-Cached i (asking token now) (ok who) older inv e key p at g =
      let set_law =
        Dict.get-set (T.hash_prefix token) key (principal_of T who, now) (after T older).cache in
      elim (Bool-cases (str_eq (T.hash_prefix token) key)) [
        | inl same ↦
            let entry : some (principal_of T who, now) ≡ some (p, at) =
              sym (rw same at set_law) ∙ g in
            let when : now ≡ at = cc entry in
            (token, (eq_iff (T.hash_prefix token) key).0 same, inl (rw⁻¹ when e, cc entry))
        | inr other ↦
            Cached-later T (answered i (ok who)) older key p at
              (inv.cached key p at (sym (rw other at set_law) ∙ g))
      ]

  set-PhaseLaw :
      (input : Input T) (older : List (Input T)) (i : ℕ) (f : Phase T)
      → Inv T older
      → PhaseLaw T (input ∷ older) i f
      → (j : ℕ) (g : Phase T) → Dict.get j (Dict.set i f (after T older).calls) ≡ some g
      → PhaseLaw T (input ∷ older) j g
  set-PhaseLaw input older i f inv law j g e =
      let set_law = Dict.get-set i j f (after T older).calls in
      elim (Bool-cases (i == j)) [
        | inl same ↦
            let fg : f ≡ g = some-injective f g (sym (rw same at set_law) ∙ e) in
            subst (PhaseLaw T (input ∷ older) j) fg
              (subst (λ k. PhaseLaw T (input ∷ older) k f) ((nat_beq_iff i j).0 same) law)
        | inr other ↦
            PhaseLaw-later T input older j g (inv.phase j g (sym (rw other at set_law) ∙ e))
      ]

  take_input-Inv : (input : Input T) (older : List (Input T)) → Inv T older → Inv T (input ∷ older)
  unfolding after take_input
  take_input-Inv (begins i token now) older inv = record {
    cached =
        λ key p at e. Cached-later T (begins i token now) older key p at (inv.cached key p at e);
    phase =
        set-PhaseLaw (begins i token now) older i (begin_verify T token now (after T older).cache)
          inv (begin-PhaseLaw i token now older inv);
  }
  take_input-Inv (answered i answer) older inv =
      elim (Option-cases (Dict.get i (after T older).calls)) [
        | inl e ↦ record {
          cached = λ key p at.
              rw e (λ g. Cached-later T (answered i answer) older key p at (inv.cached key p at g));
          phase =
              λ j f. rw e (λ g. PhaseLaw-later T (answered i answer) older j f (inv.phase j f g));
        }
        | inr (f, e) ↦ record {
          cached = λ key p at. rw e (end-Cached i f answer older inv e key p at);
          phase = λ j g. rw e (
              set-PhaseLaw (answered i answer) older i
                (end_verify T f answer (after T older).cache).0 inv
                (end-PhaseLaw i f answer older inv e) j g);
        }
      ]

  after-Inv : (history : List (Input T)) → Inv T history
  unfolding after Dict.get
  after-Inv [] = record { cached = λ key p at e. absurd (cc e); phase = λ i f e. absurd (cc e) }
  after-Inv (input ∷ older) = take_input-Inv input older (after-Inv older)

  -- However the calls of `verify` are interleaved, and whatever vtaskforge answers to each: a call
  -- that has been let in as a principal began with a token that is not empty, and vtaskforge answered
  -- for that principal, either to this call about its token, or to a call that had asked about a token
  -- with the same hash prefix, no longer before this call than the time to live.
  pub after-IsGranted :
      (history : List (Input T)) (i : ℕ) (p : Principal)
      → Dict.get i (after T history).calls ≡ some (returned (ok p))
      → IsGranted T history i p
  after-IsGranted history i p e = (after-Inv history).phase i (returned (ok p)) e
