-- ===== src/Adapters/Stub.antt =====
-- The vtaskforge stub of scripts/scenario/vtfstub/app.py, and `VtfClient` against it.
use Prim.Native.String.{◌++◌ as str_append}
use text.Mathlib.TextPositions.{starts_with-append}
use text.Mathlib.TextLemmas.{append_cancel_left, append-eq-nil_iff}
use vfobs.Prelude.{
  String, str_eq, eq_iff, ◌≡◌, ◌≢◌, sym, ◌∙◌, Bool, true, false, not, ◌||◌, Option, none, some,
  arith, Bool-cases, inl, inr, if◌then◌else◌,
}
use vfobs.Prelude.Int.{pos}
use vfobs.Prelude.Result.{ok, raise, vtf_auth_error}
use vfobs.Events.Platform.{Platform}
use vfobs.Events.Json.{Json, str, int, bool, array, object, no_items, done, member}
use vfobs.Events.Fields.{ScalarLaws, as_object, get_member, required, defaulted, nullable}
use vfobs.Adapters.Dto.{ResourceId}
use text.Mathlib.Text.{starts_with}
use vfobs.Adapters.Vtf.{Http, Outcome, response, validate_token, get_task, get_workgraph}
use vfobs.Adapters.Validate.{
  DtoScalars, DtoLaws, validate_principal, validate_workgraph, validate_task,
}

-- `_authed`
unfoldable pub authed : Option String → Bool
authed none = false
authed (some authorization) =
    if str_eq authorization "" || not (starts_with authorization "Token ")
    then false
    else not (str_eq authorization "Token bad")

module _ {P : Platform} where
  abbrev invalid : Outcome (Json P)
  invalid = response 401 (some (object (member "detail" (str "Invalid token.") done)))

  -- The three routes: `validate`, `get_task` and `get_milestone`, of the header `Authorization`.
  unfoldable pub stub_validate : String → Outcome (Json P)
  stub_validate authorization =
      if not (authed (some authorization))
      then invalid
      else response 200 (
          some (
            object (
              member "user_id" (int (pos 1)) (
                member "username" (str "stub-operator") (
                  member "user_type" (str "human")
                    (member "is_staff" (bool false) (member "projects" (array no_items) done)))))))

  unfoldable pub stub_task : String → String → Outcome (Json P)
  stub_task task_id authorization =
      if not (authed (some authorization))
      then invalid
      else response 200 (
          some (
            object (
              member "id" (str task_id)
                (member "title" (str "Stub Task") (member "status" (str "doing") done)))))

  unfoldable pub stub_milestone : String → String → Outcome (Json P)
  stub_milestone milestone_id authorization =
      if not (authed (some authorization))
      then invalid
      else response 200 (
          some (
            object (
              member "id" (str milestone_id) (
                member "name" (str "Stub Milestone")
                  (member "status" (str "doing") (member "order" (int (pos 0)) done))))))

-- What `VtfClient` sends with a token is accepted, unless the token is "bad".
authed-header :
    (token : String) → authed (some (str_append "Token " token)) ≡ not (str_eq token "bad")
unfolding authed
authed-header token =
    let nonempty : str_eq (str_append "Token " token) "" ≡ false =
      elim (Bool-cases (str_eq (str_append "Token " token) "")) [
        | inl e ↦ absurd (
            cc (
              (eq_iff "Token " "").1
                (append-eq-nil_iff.0 ((eq_iff (str_append "Token " token) "").0 e)).0))
        | inr e ↦ e
      ] in
    let same : str_eq (str_append "Token " token) "Token bad" ≡ str_eq token "bad" =
      elim (Bool-cases (str_eq token "bad")) [
        | inl e ↦ rw ((eq_iff token "bad").0 e)
        | inr e ↦ elim (Bool-cases (str_eq (str_append "Token " token) "Token bad")) [
          | inl q ↦ absurd (
              ground (
                arith,
                e,
                eq_iff token "bad",
                append_cancel_left "Token " token "bad"
                    ((eq_iff (str_append "Token " token) "Token bad").0 q),
              ))
          | inr q ↦ q ∙ sym e
        ]
      ] in
    rw (nonempty, starts_with-append "Token " token, same)

module _ {P : Platform} (D : DtoScalars P) (base : String) where
  -- `VtfClient`'s libraries, with a server behind the GETs.
  abbrev pub http_of : (String → String → Outcome (Json P)) → Http
  http_of get = record {
    Json = Json P;
    http_get = get;
    is_dict = λ j. is_object j;
    validate_principal = validate_principal D;
    validate_workgraph = validate_workgraph D;
    validate_task = validate_task D;
  }
    where
      is_object : Json P → Bool
      is_object (object m) = true
      is_object _ = false

  -- The server is the stub under the base URL, for the paths that `VtfClient` asks with a token and
  -- about this task or workgraph: FastAPI finds the route and hands over the header as it was sent.
  pub record ServesStub (get : String → String → Outcome (Json P)) (token id : String)
      : Type 0 where
    pub at_validate :
        get (str_append base "/v2/auth/validate/") (str_append "Token " token)
        ≡ stub_validate (str_append "Token " token)
    pub at_task :
        get
          (str_append base (str_append "/v2/tasks/" (str_append id "/")))
          (str_append "Token " token)
        ≡ stub_task id (str_append "Token " token)
    pub at_milestone :
        get
          (str_append base (str_append "/v2/milestones/" (str_append id "/")))
          (str_append "Token " token)
        ≡ stub_milestone id (str_append "Token " token)

  pub record IsGranted (h : Http) (token id : String) : Type 0 where
    pub principal :
        validate_token h base token
        ≡ ok (record {
          user_id = ResourceId.number (pos 1);
          username = some "stub-operator";
          user_type = some "human";
          is_staff = false;
        })
    pub task :
        get_task h base id token
        ≡ some (record {
          id = ResourceId.text id;
          title = some "Stub Task";
          status = some "doing";
          description = none;
        })
    pub workgraph :
        get_workgraph h base id token
        ≡ some (record {
          id = ResourceId.text id;
          name = some "Stub Milestone";
          status = some "doing";
          description = none;
          order = some (pos 0);
          workplan = none;
        })

  pub record IsDenied (h : Http) (token id : String) : Type 0 where
    pub principal : validate_token h base token ≡ raise vtf_auth_error
    pub task : get_task h base id token ≡ none
    pub workgraph : get_workgraph h base id token ≡ none

  module _ (scalars : ScalarLaws D.scalars) (dtos : DtoLaws D) where
    -- `VtfClient` against the stub: with any token but "bad" the caller is the operator of the stub
    -- and every task and workgraph has the stub's metadata, under the id that was asked for; with
    -- the token "bad" the caller is refused and there is no metadata.
    pub stub_lem :
        (get : String → String → Outcome (Json P)) (token id : String)
        → ServesStub get token id
        → (token ≢ "bad" → IsGranted (http_of get) token id)
          × (token ≡ "bad" → IsDenied (http_of get) token id)
    unfolding validate_token get_task get_workgraph stub_validate stub_task stub_milestone
        validate_principal validate_workgraph validate_task as_object get_member required defaulted
        nullable
    stub_lem get token id serves = (
      λ good.
          let accepted : authed (some (str_append "Token " token)) ≡ true =
            ground (arith, good, eq_iff token "bad", authed-header token) in
          record {
            principal =
                rw (serves.at_validate, accepted)
                  (simp (dtos.as_bool-bool, dtos.as_id-int, scalars.as_str-str));
            task = rw (serves.at_task, accepted) (simp (dtos.as_id-str, scalars.as_str-str));
            workgraph =
                rw (serves.at_milestone, accepted)
                  (simp (dtos.as_id-str, scalars.as_str-str, scalars.as_int-int));
          },
      λ bad.
          let refused : authed (some (str_append "Token " token)) ≡ false =
            ground (arith, bad, eq_iff token "bad", authed-header token) in
          record {
            principal = rw (serves.at_validate, refused);
            task = rw (serves.at_task, refused);
            workgraph = rw (serves.at_milestone, refused);
          },
    )
