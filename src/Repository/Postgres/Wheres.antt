-- ===== src/Repository/Postgres/Wheres.antt =====
-- What `where_workgraph`, `where_task` and `where_filtered` select.
use vfobs.Prelude.{
  ℕ, ◌≡◌, refl, ap, ◌∙◌, String, str_eq, Bool, true, false, ◌&&◌, ◌||◌, Option, none, some, List,
  [], ◌∷◌, arith,
}
use vfobs.Prelude.Dict
use vfobs.Prelude.Dict.{string_key}
use vfobs.Prelude.Int.{ℤ, pos}
use vfobs.Events.Platform.{Platform}
use vfobs.Repository.Model.{EventFilter, clamp_limit, page_size, clamp_limit_bounds}
use vfobs.Repository.Postgres.Sql.{
  Row, Param, text, number, Params, Clause, always, equals, at_least, namespace, Column, test,
  param_of, in_bigint,
}
use vfobs.Repository.Postgres.{Where, and_text, cursor, where_workgraph, where_task, where_filtered}
use vfobs.Repository.Postgres.Conditions.{Means, and_clause-Means}

limit_lem : (limit : ℤ) → number (clamp_limit limit) ≡ number (pos (page_size limit))
limit_lem limit = ap number (clamp_limit_bounds limit).0

-- None of the names is bound yet.
abbrev pub Fresh : List String → Params → Type 0
Fresh [] params = Unit
Fresh (k ∷ ks) params = (Dict.get k params ≡ none) × Fresh ks params

abbrev has_name : String → List String → Bool
has_name k [] = false
has_name k (j ∷ ks) = str_eq k j || has_name k ks

Fresh-set :
    (k : String) (v : Param) (params : Params) (ks : List String)
    → has_name k ks ≡ false
    → Fresh ks params
    → Fresh ks (Dict.set k v params)
Fresh-set k v params [] h f = tt
Fresh-set k v params (j ∷ ks) h f =
    let other : str_eq k j ≡ false = ground (arith, h) in
    let rest : has_name k ks ≡ false = ground (arith, h) in
    (Dict.get-set k j v params ∙ rw other f.0, Fresh-set k v params ks rest f.1)

abbrev pub opt_encodes : (String → Bool) → Option String → Bool
opt_encodes encodes none = true
opt_encodes encodes (some s) = encodes s

abbrev pub opt_bigint : Option ℤ → Bool
opt_bigint none = true
opt_bigint (some i) = in_bigint i

-- The driver takes each text of the filter.
pub record TakesFilter (encodes : String → Bool) (f : EventFilter) : Type 0 where
  pub workgraph_id : opt_encodes encodes f.workgraph_id ≡ true
  pub task_id : opt_encodes encodes f.task_id ≡ true
  pub agent_id : opt_encodes encodes f.agent_id ≡ true
  pub org_id : opt_encodes encodes f.org_id ≡ true
  pub type_ : opt_encodes encodes f.type_ ≡ true
  pub type_namespace : opt_encodes encodes f.type_namespace ≡ true

limit_taken : (limit : ℤ) → in_bigint (clamp_limit limit) ≡ true
limit_taken limit =
    let (e, low, high) = clamp_limit_bounds limit in rw e (ground (arith, low, high))

module _ {P : Platform} {Json : Type 0} (encodes : String → Bool) where
  -- The test that `and_text` adds.
  abbrev pub text_test : Clause → Option String → ℕ × Row P Json → Bool
  text_test c none x = true
  text_test c (some s) x = test c (text s) x

  abbrev pub cursor_test : Option ℤ → ℕ × Row P Json → Bool
  cursor_test none x = true
  cursor_test (some i) x = test (at_least "from_id") (number i) x

  Means-true :
      (q : Where) (n : ℕ) (p : ℕ × Row P Json → Bool)
      → Means encodes q n p
      → Means encodes q n (λ x. p x && true)
  Means-true q n p m = record {
    bound = m.bound;
    taken = m.taken;
    limit = m.limit;
    meaning = λ x. ground (arith, m.meaning x);
  }

  and_text-Means :
      (c : Clause) (k : String) (o : Option String) (q : Where) (n : ℕ) (ks : List String)
      (p : ℕ × Row P Json → Bool)
      → param_of c ≡ some k
      → has_name k ks ≡ false
      → opt_encodes encodes o ≡ true
      → Means encodes q n p × Fresh (k ∷ ks) q.params
      → Means encodes (and_text c k o q) n (λ x. p x && text_test c o x)
        × Fresh ks (and_text c k o q).params
  and_text-Means c k none q n ks p named other fits (m, f) = (Means-true q n p m, f.1)
  and_text-Means c k (some s) q n ks p named other fits (m, f) = (
    and_clause-Means encodes c k (text s) q n p named f.0 fits m,
    Fresh-set k (text s) q.params ks other f.1,
  )

  cursor-Means :
      (from_id : Option ℤ) (q : Where) (n : ℕ) (p : ℕ × Row P Json → Bool)
      → opt_bigint from_id ≡ true
      → Means encodes q n p × Fresh ("from_id" ∷ []) q.params
      → Means encodes (cursor from_id q) n (λ x. p x && cursor_test from_id x)
  unfolding cursor
  cursor-Means none q n p fits (m, f) = Means-true q n p m
  cursor-Means (some i) q n p fits (m, f) =
      and_clause-Means encodes (at_least "from_id") "from_id" (number i) q n p refl f.0 fits m

  pub where_workgraph-Means :
      (workgraph_id : String) (from_id : Option ℤ) (limit : ℤ)
      → encodes workgraph_id ≡ true
      → opt_bigint from_id ≡ true
      → Means encodes (where_workgraph workgraph_id from_id limit) (page_size limit) (λ x.
        text_test (equals Column.workgraph_id "workgraph_id") (some workgraph_id) x
        && cursor_test from_id x)
  unfolding where_workgraph Dict.get
  where_workgraph-Means workgraph_id from_id limit fits at =
      cursor-Means from_id _ (page_size limit) _ at (
        record {
          bound = refl;
          taken = ground (arith, fits, limit_taken limit);
          limit = ap some (limit_lem limit);
          meaning = λ x. ground arith;
        },
        (refl, tt),
      )

  pub where_task-Means :
      (task_id : String) (from_id : Option ℤ) (limit : ℤ)
      → encodes task_id ≡ true
      → opt_bigint from_id ≡ true
      → Means encodes (where_task task_id from_id limit) (page_size limit) (λ x.
        text_test (equals Column.task_id "task_id") (some task_id) x && cursor_test from_id x)
  unfolding where_task Dict.get
  where_task-Means task_id from_id limit fits at = cursor-Means from_id _ (page_size limit) _ at (
    record {
      bound = refl;
      taken = ground (arith, fits, limit_taken limit);
      limit = ap some (limit_lem limit);
      meaning = λ x. ground arith;
    },
    (refl, tt),
  )

  -- The conjunction of the seven optional tests, in the order of the clauses.
  abbrev pub filtered_test : EventFilter → Option ℤ → ℕ × Row P Json → Bool
  filtered_test f from_id x =
      ((((((true && text_test (equals Column.workgraph_id "workgraph_id") f.workgraph_id x)
                && text_test (equals Column.task_id "task_id") f.task_id x)
              && text_test (equals Column.agent_id "agent_id") f.agent_id x)
            && text_test (equals Column.org_id "org_id") f.org_id x)
          && text_test (equals Column.type_ "type_") f.type_ x)
        && text_test (namespace "type_namespace") f.type_namespace x)
      && cursor_test from_id x

  pub where_filtered-Means :
      (f : EventFilter) (from_id : Option ℤ) (limit : ℤ)
      → TakesFilter encodes f
      → opt_bigint from_id ≡ true
      → Means encodes (where_filtered f from_id limit) (page_size limit) (filtered_test f from_id)
  unfolding where_filtered Dict.get
  where_filtered-Means f from_id limit fits at =
      let n = page_size limit in
      let start : Where = record {
        clauses = always ∷ [];
        params = ("limit", number (clamp_limit limit)) ∷ [];
      } in
      cursor-Means from_id _ n _ at (
        and_text-Means (namespace "type_namespace") "type_namespace" f.type_namespace _ n
          ("from_id" ∷ []) _ refl refl fits.type_namespace
          (and_text-Means (equals Column.type_ "type_") "type_" f.type_ _ n
            ("type_namespace" ∷ "from_id" ∷ []) _ refl refl fits.type_
            (and_text-Means (equals Column.org_id "org_id") "org_id" f.org_id _ n
              ("type_" ∷ "type_namespace" ∷ "from_id" ∷ []) _ refl refl fits.org_id
              (and_text-Means (equals Column.agent_id "agent_id") "agent_id" f.agent_id _ n
                ("org_id" ∷ "type_" ∷ "type_namespace" ∷ "from_id" ∷ []) _ refl refl fits.agent_id
                (and_text-Means (equals Column.task_id "task_id") "task_id" f.task_id _ n
                  ("agent_id" ∷ "org_id" ∷ "type_" ∷ "type_namespace" ∷ "from_id" ∷ []) _ refl refl
                  fits.task_id
                  (and_text-Means (equals Column.workgraph_id "workgraph_id") "workgraph_id"
                    f.workgraph_id start n
                    ("task_id" ∷ "agent_id" ∷ "org_id" ∷ "type_" ∷ "type_namespace" ∷ "from_id"
                      ∷ [])
                    (λ x. true) refl refl fits.workgraph_id
                    (
                      record {
                        bound = refl;
                        taken = ground (arith, limit_taken limit);
                        limit = ap some (limit_lem limit);
                        meaning = λ x. refl;
                      },
                      (refl, (refl, (refl, (refl, (refl, (refl, (refl, tt))))))),
                    )))))))
