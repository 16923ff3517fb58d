-- ===== src/Api/ReadAuth/Interleaved/Evidence.antt =====
-- What the inputs of an interleaving of `VtfTokenAuth.verify` tell of a call, and that later inputs
-- take nothing of it away.
use vfobs.Prelude.{ℕ, String, ◌≡◌, ◌≢◌, ◌⊎◌, inr, true, some, List, [], ◌∷◌}
use vfobs.Prelude.Dict
use vfobs.Prelude.Dict.{string_key, nat_key, nat_beq_iff}
use vfobs.Prelude.Result.{ok, raise}
use vfobs.Api.ReadAuth.{Runtime, Principal, principal_of}
use vfobs.Api.ReadAuth.Interleaved.{Phase, asking, returned, Input, begins, answered, after}

module _ (T : Runtime) where
  -- In the history a call with this number began, with this token at this time.
  abbrev pub Began : List (Input T) → ℕ → String → T.Seconds → Type 0
  Began [] i token now = ⊥
  Began (input ∷ older) i token now = (input ≡ begins i (some token) now) ⊎ Began older i token now

  -- The input is vtaskforge's answer for the principal, to a call that asked about the token and had
  -- read this time.
  abbrev Answers : Input T → List (Input T) → String → Principal → T.Seconds → Type 0
  Answers (answered j (ok who)) older token p now =
      (Dict.get j (after T older).calls ≡ some (asking token now)) × (p ≡ principal_of T who)
  Answers _ older token p now = ⊥

  -- There is such an input in the history.
  abbrev pub Vouched : List (Input T) → String → Principal → T.Seconds → Type 0
  Vouched [] token p now = ⊥
  Vouched (input ∷ older) token p now = Answers input older token p now ⊎ Vouched older token p now

  -- Vouched for under a hash prefix.
  abbrev pub Cached : List (Input T) → String → Principal → T.Seconds → Type 0
  Cached history key p now =
      (token : String) × (T.hash_prefix token ≡ key) × Vouched history token p now

  -- A call that was let in: it began with a token that is not empty, and vtaskforge answered for the
  -- principal, either the call itself or one that had asked about a token with the same hash prefix
  -- no longer ago than the time to live.
  pub record IsGranted (history : List (Input T)) (i : ℕ) (p : Principal) : Type 0 where
    pub token : String
    pub now : T.Seconds
    pub began : Began history i token now
    pub filled : token ≢ ""
    pub about : String
    pub asked_at : T.Seconds
    pub vouched : Vouched history about p asked_at
    pub hashed : T.hash_prefix about ≡ T.hash_prefix token
    pub fresh : ((about ≡ token) × (asked_at ≡ now)) ⊎ (T.within_ttl now asked_at ≡ true)

  -- What a phase tells of its call.
  abbrev pub PhaseLaw : List (Input T) → ℕ → Phase T → Type 0
  PhaseLaw history i (asking token now) = Began history i token now × (token ≢ "")
  PhaseLaw history i (returned (ok p)) = IsGranted history i p
  PhaseLaw history i (returned (raise e)) = Unit

  -- The invariant of every history.
  pub record Inv (history : List (Input T)) : Type 0 where
    pub cached :
        (key : String) (p : Principal) (at : T.Seconds)
        → Dict.get key (after T history).cache ≡ some (p, at)
        → Cached history key p at
    pub phase :
        (i : ℕ) (f : Phase T) → Dict.get i (after T history).calls ≡ some f → PhaseLaw history i f

  -- A later input takes nothing away.
  pub PhaseLaw-later :
      (input : Input T) (older : List (Input T)) (i : ℕ) (f : Phase T)
      → PhaseLaw older i f
      → PhaseLaw (input ∷ older) i f
  PhaseLaw-later input older i (asking token now) (began, filled) = (inr began, filled)
  PhaseLaw-later input older i (returned (ok p)) g = record {
    token = g.token;
    now = g.now;
    began = inr g.began;
    filled = g.filled;
    about = g.about;
    asked_at = g.asked_at;
    vouched = inr g.vouched;
    hashed = g.hashed;
    fresh = g.fresh;
  }
  PhaseLaw-later input older i (returned (raise e)) g = tt

  pub Cached-later :
      (input : Input T) (older : List (Input T)) (key : String) (p : Principal) (at : T.Seconds)
      → Cached older key p at
      → Cached (input ∷ older) key p at
  Cached-later input older key p at (token, hashed, vouched) = (token, hashed, inr vouched)
