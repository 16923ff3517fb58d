-- ===== src/App/Wired.antt =====
-- What the application has once it has started.
use vfobs.Prelude.{
  ◌≡◌, refl, true, ◌||◌, Option, none, some, Option-cases, inl, inr, is_some, get_or,
}
use vfobs.Prelude.Result.{ok}
use vfobs.App.{Parts, AppState, resolve_client, start}

-- What was injected stays.
abbrev pub Kept : {B : Type 0} → Option B → Option B → Type 0
Kept none now = Unit
Kept (some b) now = now ≡ some b

Kept-get_or : {B : Type 0} (o : Option B) (b : B) → Kept o (some (get_or o b))
Kept-get_or none b = tt
Kept-get_or (some x) b = refl

Kept-refl : {B : Type 0} (o : Option B) → Kept o o
Kept-refl none = tt
Kept-refl (some x) = refl

module _ {A : Parts} where
  -- The state that `start` makes of another: a repository and ingest authentication in any case, and
  -- read authentication where vtaskforge is configured or it was injected.
  pub record IsWired (engine : A.Engine) (url : Option A.Url) (given s : AppState A) : Type 0 where
    pub repository : is_some s.event_repo ≡ true
    pub ingest : is_some s.ingest_auth ≡ true
    pub reads : is_some s.read_auth ≡ (is_some url || is_some given.read_auth)
    pub client : is_some s.vtf_client ≡ (is_some url || is_some given.vtf_client)
    pub kept_repository : Kept given.event_repo s.event_repo
    pub kept_ingest : Kept given.ingest_auth s.ingest_auth
    pub kept_reads : Kept given.read_auth s.read_auth
    pub kept_client : Kept given.vtf_client s.vtf_client
    pub stable : start A engine url s ≡ ok s

  with_client :
      (engine : A.Engine) (url : A.Url) (given : AppState A) (client : A.Client)
      → Kept given.vtf_client (some client)
      → resolve_client A (some url) given.vtf_client ≡ ok client
      → (s : AppState A) × (start A engine (some url) given ≡ ok s)
        × IsWired engine (some url) given s
  unfolding start resolve_client
  with_client engine url given client kept made = (
    record {
      event_repo = some (get_or given.event_repo (A.postgres engine));
      ingest_auth = some (get_or given.ingest_auth A.static_token);
      read_auth = some (get_or given.read_auth (A.token_auth client));
      vtf_client = some client;
    },
    rw made refl,
    record {
      repository = refl;
      ingest = refl;
      reads = refl;
      client = refl;
      kept_repository = Kept-get_or given.event_repo (A.postgres engine);
      kept_ingest = Kept-get_or given.ingest_auth A.static_token;
      kept_reads = Kept-get_or given.read_auth (A.token_auth client);
      kept_client = kept;
      stable = refl;
    },
  )

  without_client :
      (engine : A.Engine) (given : AppState A)
      → (s : AppState A) × (start A engine none given ≡ ok s) × IsWired engine none given s
  unfolding start
  without_client engine given = (
    record given {
      event_repo = some (get_or given.event_repo (A.postgres engine));
      ingest_auth = some (get_or given.ingest_auth A.static_token);
    },
    refl,
    record {
      repository = refl;
      ingest = refl;
      reads = refl;
      client = refl;
      kept_repository = Kept-get_or given.event_repo (A.postgres engine);
      kept_ingest = Kept-get_or given.ingest_auth A.static_token;
      kept_reads = Kept-refl given.read_auth;
      kept_client = Kept-refl given.vtf_client;
      stable = refl;
    },
  )

  -- The application starts whether or not vtaskforge is configured. It then has a repository and
  -- ingest authentication; it has read authentication and a client exactly where vtaskforge is
  -- configured or they were injected; whatever was injected is kept; and a second start changes nothing.
  pub start-IsWired :
      (engine : A.Engine) (url : Option A.Url) (given : AppState A)
      → (s : AppState A) × (start A engine url given ≡ ok s) × IsWired engine url given s
  unfolding resolve_client
  start-IsWired engine none given = without_client engine given
  start-IsWired engine (some url) given = elim (Option-cases given.vtf_client) [
    | inl e ↦ with_client engine url given (A.connect url) (rw e tt) (rw e refl)
    | inr (c, e) ↦ with_client engine url given c (rw e refl) (rw e refl)
  ]
