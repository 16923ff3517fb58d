-- ===== src/App.antt =====
-- The wiring of the application: `create_app` and `_lifespan` of src/vfobs/main.py.
pub mod Wired
use vfobs.Prelude.{Option, none, some, List, [], ◌∷◌, ◌++◌, get_or}
use vfobs.Prelude.Result.{Result, ok, raise, Exception, value_error, ◌>>=◌}

-- The parts that are put together, and how the source makes them: `PostgresEventRepository(engine)`,
-- `StaticTokenAuth(settings)`, `VtfTokenAuth(client)`, and the client of an address.
pub record Parts : Type 1 where
  pub Url : Type 0
  pub Engine : Type 0
  pub Repository : Type 0
  pub IngestAuth : Type 0
  pub ReadAuth : Type 0
  pub Client : Type 0
  pub postgres : Engine → Repository
  pub static_token : IngestAuth
  pub token_auth : Client → ReadAuth
  pub connect : Url → Client

-- `app.state`, but for the settings.
pub record AppState (A : Parts) : Type 0 where
  pub event_repo : Option A.Repository
  pub ingest_auth : Option A.IngestAuth
  pub read_auth : Option A.ReadAuth
  pub vtf_client : Option A.Client

-- What `_lifespan` does at its end.
pub data Closing (A : Parts) : Type 0 where
  closed : A.Client → Closing A
  disposed : A.Engine → Closing A

module _ (A : Parts) where
  -- `create_app`
  unfoldable pub create_app :
      Option A.Repository → Option A.IngestAuth → Option A.ReadAuth → Option A.Client → AppState A
  create_app event_repo ingest_auth read_auth vtf_client = record {
    event_repo = event_repo;
    ingest_auth = ingest_auth;
    read_auth = read_auth;
    vtf_client = vtf_client;
  }

  -- `VtfClient.__init__`
  unfoldable pub vtf_client_init : Option A.Url → Result Exception A.Client
  vtf_client_init none = raise value_error
  vtf_client_init (some url) = ok (A.connect url)

  -- `if app.state.vtf_client is None: app.state.vtf_client = VtfClient(app.state.settings)`
  unfoldable pub resolve_client : Option A.Url → Option A.Client → Result Exception A.Client
  unfolding vtf_client_init
  resolve_client url none = vtf_client_init url
  resolve_client url (some client) = ok client

  -- `if app.state.settings.vtaskforge_url is not None:`
  unfoldable pub resolve_reads : Option A.Url → AppState A → Result Exception (AppState A)
  unfolding resolve_client
  resolve_reads none a = ok a
  resolve_reads (some url) a = do
    client ← resolve_client (some url) a.vtf_client
    ok (record a {
      vtf_client = some client;
      read_auth = some (get_or a.read_auth (A.token_auth client));
    })

  -- `_lifespan` up to its `yield`.
  unfoldable pub start : A.Engine → Option A.Url → AppState A → Result Exception (AppState A)
  unfolding resolve_reads
  start engine url a = resolve_reads url (record a {
    event_repo = some (get_or a.event_repo (A.postgres engine));
    ingest_auth = some (get_or a.ingest_auth A.static_token);
  })

  close_client : Option A.Client → List (Closing A)
  close_client none = []
  close_client (some client) = closed client ∷ []

  -- The `finally` of `_lifespan`.
  unfoldable pub stop : A.Engine → AppState A → List (Closing A)
  unfolding close_client
  stop engine a = close_client a.vtf_client ++ disposed engine ∷ []
