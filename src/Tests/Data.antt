-- ===== src/Tests/Data.antt =====
-- A platform on numbers, two events of a task, and an in-memory repository that holds them.
use vfobs.Prelude.{ℕ, ◌+◌, none, some, [], ◌∷◌, arith}
use vfobs.Prelude.Int.{pos}
use vfobs.Events.Platform.{Platform}
use vfobs.Events.Namespaces.{Payload, task_claimed, task_state_changed}
use vfobs.Events.Base.{Event, internal}
use vfobs.Repository.Memory.{Repo}
use vfobs.Repository.Memory.Sorted.{IsWf}
use vfobs.Repository.Interface.{EventRepository, Contract}
use vfobs.Repository.Memory.Contract.{memory_repository, memory_view, memory_repository-Contract}

abbrev pub platform : Platform
platform = record {
  Float = ℕ;
  float_zero = 0;
  float_add = λ a b. a + b;
  Datetime = ℕ;
  strip = λ s. s;
}

abbrev pub claim_data : Payload platform
claim_data = task_claimed (record { claimed_by_agent_id = "a1" })

abbrev pub done_data : Payload platform
done_data = task_state_changed (record {
  from_status = "doing";
  to_status = "done";
  execution_summary =
      some (record { num_turns = some (pos 4); total_tokens = some (pos 900); cost_usd = some 7 });
})

abbrev pub event_at : ℕ → Payload platform → Event platform
event_at at payload = record {
  v = pos 1;
  workgraph_id = "w1";
  task_id = some "t1";
  agent_id = some "a1";
  trace_id = none;
  source = "controller";
  timestamp = at;
  classification = internal;
  org_id = "viloforge";
  cluster_id = "vafi-dev";
  payload = payload;
}

abbrev pub claim : Event platform
claim = event_at 10 claim_data

abbrev pub done : Event platform
done = event_at 60 done_data

abbrev pub repo : Repo platform
repo = record { events = (1, claim) ∷ (2, done) ∷ []; next_id = 3 }

pub repo-IsWf : IsWf repo
repo-IsWf = record { ascends = (omega arith, (omega arith, omega arith)) }

-- The repository behind the interface.
abbrev pub R : EventRepository platform
R = memory_repository platform

pub contract : Contract R (memory_view platform)
contract = memory_repository-Contract platform
