-- ===== src/Api/Reads/Resources.antt =====
-- The endpoints of one workgraph and of one task in src/vfobs/api/reads.py, told by the log.
use mathlib.Core.Option
use vfobs.Prelude.{
  String, ◌≡◌, ◌≢◌, ◌⊎◌, inl, inr, refl, Option, none, some, List, [], ◌∷◌, arith, length, last?,
  ◌&&◌, ◌==◌, true, false,
}
use vfobs.Prelude.Int.{pos}
use vfobs.Prelude.Result.{ok, raise, http_exception}
use vfobs.Events.Platform.{Platform}
use vfobs.Adapters.Dto.{WorkgraphMetadata, TaskMetadata}
use vfobs.Repository.Log.{of_task, of_workgraph, hits}
use vfobs.Repository.Interface.{EventRepository, View, Contract}
use vfobs.Api.Dto.{build_part, workgraph_part, task_part}
use vfobs.Api.Reads.{Lookup, ask, is_none, get_workgraph, get_task}

-- Nothing is there, on either side, or something is.
lookup-cases :
    {A B : Type 0} (o : Option A) (l : List B)
    → ((o ≡ none) × (l ≡ []) × ((is_none o && length l == 0) ≡ true))
      ⊎ (((o ≢ none) ⊎ (l ≢ [])) × ((is_none o && length l == 0) ≡ false))
lookup-cases none [] = inl (refl, refl, refl)
lookup-cases none (x ∷ l) = inr (inr (λ e. cc e), ground arith)
lookup-cases (some a) l = inr (inl (λ e. cc e), refl)

module _ {P : Platform} {R : EventRepository P} {V : View R} (C : Contract R V) where
  -- Over a valid repository the request for a task is answered 404 exactly if vtaskforge gives no
  -- metadata and no event of the task is stored. Otherwise it is answered with the part that there
  -- is: the metadata, the number of the task's events, and the last of them.
  pub get_task_presence :
      (vtf : Option (Lookup TaskMetadata)) (s : R.State) (task_id token : String)
      → V.Valid s
      → ((ask vtf task_id token ≡ none)
          × (hits (of_task task_id) none (V.log s) ≡ [])
          × (get_task R vtf s task_id token ≡ raise (http_exception 404 "task not found")))
        ⊎ (((ask vtf task_id token ≢ none) ⊎ (hits (of_task task_id) none (V.log s) ≢ []))
            × (get_task R vtf s task_id token
                ≡ ok (record {
                  v = pos 1;
                  task_id = task_id;
                  vtf = Option.map task_part (ask vtf task_id token);
                  vfobs_part =
                      build_part
                        (length (hits (of_task task_id) none (V.log s)))
                        (last? (hits (of_task task_id) none (V.log s)));
                })))
  unfolding get_task
  get_task_presence vtf s task_id token v =
      elim (lookup-cases (ask vtf task_id token) (hits (of_task task_id) none (V.log s))) [
        | inl (a, b, c) ↦ inl (a, b, rw (C.count_by_task_law s task_id v, c))
        | inr (a, c) ↦
            inr (a, rw (C.count_by_task_law s task_id v, c, C.find_last_by_task_law s task_id v))
      ]

  -- The same of the request for a workgraph.
  pub get_workgraph_presence :
      (vtf : Option (Lookup WorkgraphMetadata)) (s : R.State) (workgraph_id token : String)
      → V.Valid s
      → ((ask vtf workgraph_id token ≡ none)
          × (hits (of_workgraph workgraph_id) none (V.log s) ≡ [])
          × (get_workgraph R vtf s workgraph_id token
              ≡ raise (http_exception 404 "workgraph not found")))
        ⊎ (((ask vtf workgraph_id token ≢ none)
              ⊎ (hits (of_workgraph workgraph_id) none (V.log s) ≢ []))
            × (get_workgraph R vtf s workgraph_id token
                ≡ ok (record {
                  v = pos 1;
                  workgraph_id = workgraph_id;
                  vtf = Option.map workgraph_part (ask vtf workgraph_id token);
                  vfobs_part =
                      build_part
                        (length (hits (of_workgraph workgraph_id) none (V.log s)))
                        (last? (hits (of_workgraph workgraph_id) none (V.log s)));
                })))
  unfolding get_workgraph
  get_workgraph_presence vtf s workgraph_id token v =
      elim (lookup-cases (ask vtf workgraph_id token)
        (hits (of_workgraph workgraph_id) none (V.log s))) [
          | inl (a, b, c) ↦ inl (a, b, rw (C.count_by_workgraph_law s workgraph_id v, c))
          | inr (a, c) ↦ inr (
            a,
            rw (
              C.count_by_workgraph_law s workgraph_id v,
              c,
              C.find_last_by_workgraph_law s workgraph_id v,
            ),
          )
        ]
