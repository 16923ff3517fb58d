-- ===== src/Api/Events.antt =====
-- The ingest endpoint and its pipeline: src/vfobs/api/events.py.
use vfobs.Prelude.{ℕ, ◌≡◌, refl, ap, ◌∙◌, Option, none, some, List, [], ◌∷◌, ◌++◌, get_or, String}
use vfobs.Prelude.Dict
use vfobs.Prelude.Dict.{nat_key}
use vfobs.Prelude.Result.{Result, ok, raise, Exception, key_error}
use vfobs.Events.Platform.{Platform}
use vfobs.Events.Base.{Event}
use mathlib.Core.Path.{subst}
use vfobs.Repository.Log.{Ascends, get-snoc}
use vfobs.Repository.Interface.{EventRepository, View, Contract}

module _ {P : Platform} (R : EventRepository P) where
  -- `context`: the repository with its state, the principal, and the id once there is one.
  pub record Context : Type 0 where
    pub repo : R.State
    pub principal : String
    pub id : Option ℕ

  -- A node gives the event to go on with, and changes the context.
  abbrev pub PipelineNode : Type 0
  PipelineNode = Event P → Context → Event P × Context

  unfoldable pub enricher : PipelineNode
  enricher event context = (event, context)

  unfoldable pub storer : PipelineNode
  storer event context =
      let (repo, eid) = R.store context.repo event in
      (event, record context { repo = repo; id = some eid })

  -- `PIPELINE`
  abbrev pub default_pipeline : List PipelineNode
  default_pipeline = enricher ∷ storer ∷ []

  -- The loop of `run_pipeline`.
  unfoldable pub run_nodes : List PipelineNode → PipelineNode
  run_nodes [] current context = (current, context)
  run_nodes (node ∷ nodes) current context =
      let (current', context') = node current context in run_nodes nodes current' context'

  -- `int(context["id"])`
  id_of : Option ℕ → Result Exception ℕ
  id_of none = raise key_error
  id_of (some eid) = ok eid

  unfoldable pub run_pipeline :
      Event P → Context → Option (List PipelineNode) → Result Exception ℕ × Context
  unfolding run_nodes enricher storer id_of
  run_pipeline event context pipeline =
      let (last, context') = run_nodes (get_or pipeline default_pipeline) event context in
      (id_of context'.id, context')

  -- `post_events`: the id of the answer, and the repository behind it.
  unfoldable pub post_events : R.State → String → Event P → Result Exception ℕ × R.State
  unfolding run_pipeline
  post_events s principal body =
      let (eid, context) =
        run_pipeline body (record { repo = s; principal = principal; id = none }) none in
      (eid, context.repo)

module _ {P : Platform} {R : EventRepository P} {V : View R} (C : Contract R V) where
  -- Over a valid repository a posted event is answered with an id, whatever the principal; under
  -- that id nothing was found before and the event is found afterwards, the log has grown by that
  -- one item at its end, and the repository is valid again.
  pub post_events_lem :
      (s : R.State) (principal : String) (body : Event P)
      → V.Valid s
      → (eid : ℕ) × ((post_events R s principal body).0 ≡ ok eid)
        × (V.log (post_events R s principal body).1 ≡ V.log s ++ (eid, body) ∷ [])
        × V.Valid (post_events R s principal body).1
        × (R.get_by_id s eid ≡ none)
        × (R.get_by_id (post_events R s principal body).1 eid ≡ some body)
  unfolding post_events run_pipeline run_nodes enricher storer id_of
  post_events_lem s principal body v =
      let valid = C.store_valid s body v in
      let grown = C.log-store s body v in
      let ends = get-snoc 1 (V.bound (R.store s body).0) (R.store s body).1 body (V.log s) (
        subst (Ascends 1 (V.bound (R.store s body).0)) grown
          (C.log_ascends (R.store s body).0 valid)) in
      (
        (R.store s body).1,
        refl,
        grown,
        valid,
        C.get_by_id_law s (R.store s body).1 v ∙ ends.0,
        C.get_by_id_law (R.store s body).0 (R.store s body).1 valid
            ∙ ap (Dict.get (R.store s body).1) grown
            ∙ ends.1,
      )
