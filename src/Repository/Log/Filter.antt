-- ===== src/Repository/Log/Filter.antt =====
-- What a caller of `find_filtered` asks for.
use vfobs.Prelude.{
  ◌≡◌, refl, ◌↔◌, String, str_eq, Bool, true, ◌&&◌, Option, none, some, arith, eq_iff, opt_eq,
}
use vfobs.Events.Platform.{Platform}
use vfobs.Events.Base.{Event, event_type}
use vfobs.Events.Classes.{before_dot}
use vfobs.Repository.Model.{EventFilter}

-- The value is the wanted one, if one is wanted.
abbrev pub agrees : Option String → String → Bool
agrees none actual = true
agrees (some wanted) actual = str_eq actual wanted

abbrev pub opt_agrees : Option String → Option String → Bool
opt_agrees none actual = true
opt_agrees (some wanted) actual = opt_eq actual wanted

agrees_iff :
    (wanted : Option String) (actual : String)
    → (agrees wanted actual ≡ true) ↔ ((s : String) → wanted ≡ some s → actual ≡ s)
agrees_iff none actual = (λ _ s h. cc, λ _. refl)
agrees_iff (some w) actual =
    (λ e s h. ground (arith, eq_iff actual w), λ h. ground (arith, eq_iff actual w, h w refl))

opt_agrees_iff :
    (wanted actual : Option String)
    → (opt_agrees wanted actual ≡ true) ↔ ((s : String) → wanted ≡ some s → actual ≡ some s)
opt_agrees_iff none actual = (λ _ s h. cc, λ _. refl)
opt_agrees_iff (some w) none = (λ e s h. cc, λ h. cc (h w refl))
opt_agrees_iff (some w) (some a) =
    (λ e s h. ground (arith, eq_iff a w), λ h. ground (arith, eq_iff a w, h w refl))

module _ {P : Platform} where
  unfoldable pub satisfies : EventFilter → Event P → Bool
  satisfies f ev =
      agrees f.workgraph_id ev.workgraph_id
      && (opt_agrees f.task_id ev.task_id
          && (opt_agrees f.agent_id ev.agent_id
              && (agrees f.org_id ev.org_id
                  && (agrees f.type_ (event_type ev)
                      && agrees f.type_namespace (before_dot (event_type ev))))))

  -- Each field that is given is the event's.
  pub record Satisfies (f : EventFilter) (ev : Event P) : Type 0 where
    pub by_workgraph_id : (s : String) → f.workgraph_id ≡ some s → ev.workgraph_id ≡ s
    pub by_task_id : (s : String) → f.task_id ≡ some s → ev.task_id ≡ some s
    pub by_agent_id : (s : String) → f.agent_id ≡ some s → ev.agent_id ≡ some s
    pub by_org_id : (s : String) → f.org_id ≡ some s → ev.org_id ≡ s
    pub by_type : (s : String) → f.type_ ≡ some s → event_type ev ≡ s
    pub by_namespace : (s : String) → f.type_namespace ≡ some s → before_dot (event_type ev) ≡ s

  abbrev Tests : EventFilter → Event P → Type 0
  Tests f ev =
      (agrees f.workgraph_id ev.workgraph_id ≡ true)
      × (opt_agrees f.task_id ev.task_id ≡ true)
      × (opt_agrees f.agent_id ev.agent_id ≡ true)
      × (agrees f.org_id ev.org_id ≡ true)
      × (agrees f.type_ (event_type ev) ≡ true)
      × (agrees f.type_namespace (before_dot (event_type ev)) ≡ true)

  Tests-iff : (f : EventFilter) (ev : Event P) → (satisfies f ev ≡ true) ↔ Tests f ev
  unfolding satisfies
  Tests-iff f ev = (λ h. ground arith, λ t. ground arith)

  pub satisfies_iff : (f : EventFilter) (ev : Event P) → (satisfies f ev ≡ true) ↔ Satisfies f ev
  satisfies_iff f ev = (there, back)
    where
      there : satisfies f ev ≡ true → Satisfies f ev
      there h =
          let t = (Tests-iff f ev).0 h in
          record {
            by_workgraph_id = (agrees_iff f.workgraph_id ev.workgraph_id).0 t.0;
            by_task_id = (opt_agrees_iff f.task_id ev.task_id).0 t.1;
            by_agent_id = (opt_agrees_iff f.agent_id ev.agent_id).0 t.2;
            by_org_id = (agrees_iff f.org_id ev.org_id).0 t.3;
            by_type = (agrees_iff f.type_ (event_type ev)).0 t.4;
            by_namespace = (agrees_iff f.type_namespace (before_dot (event_type ev))).0 t.5;
          }

      back : Satisfies f ev → satisfies f ev ≡ true
      back s = (Tests-iff f ev).1 (
        (agrees_iff f.workgraph_id ev.workgraph_id).1 s.by_workgraph_id,
        (opt_agrees_iff f.task_id ev.task_id).1 s.by_task_id,
        (opt_agrees_iff f.agent_id ev.agent_id).1 s.by_agent_id,
        (agrees_iff f.org_id ev.org_id).1 s.by_org_id,
        (agrees_iff f.type_ (event_type ev)).1 s.by_type,
        (agrees_iff f.type_namespace (before_dot (event_type ev))).1 s.by_namespace,
      )
