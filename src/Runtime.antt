-- ===== src/Runtime.antt =====
-- packages/runtime/src/runtime/engine.py: `InMemoryRuntimeController`, which holds the contexts of
-- the waiting runs. The dictionaries keep the context by value.
pub mod Views
pub mod Pause
use governed_agent_platform.Prelude.{Option, none, some, [], Uuid, id_eq, ◌==◌}
use governed_agent_platform.Prelude.Dict.{Dict, lookup, insert, remove, keys_where, remove_all}
use governed_agent_platform.Orchestrator.Models.{RunContext, RunState}

pub record InMemoryRuntimeController : Type 0 where
  pub waiting_contexts : Dict Uuid RunContext
  pub approval_to_run : Dict Uuid Uuid

-- `__init__`
abbrev pub new_controller : InMemoryRuntimeController
new_controller = record { waiting_contexts = []; approval_to_run = [] }

-- `store_waiting_context`, by the approval request of the context.
store_under : Option Uuid → RunContext → InMemoryRuntimeController → InMemoryRuntimeController
store_under none context r = r
store_under (some approval_request_id) context r = record {
  waiting_contexts = insert context.task.run_id context r.waiting_contexts;
  approval_to_run = insert approval_request_id context.task.run_id r.approval_to_run;
}

unfoldable pub store_waiting_context :
    RunContext → InMemoryRuntimeController → InMemoryRuntimeController
unfolding store_under
store_waiting_context context r = store_under context.approval_request_id context r

unfoldable pub on_waiting_for_approval :
    Uuid → Uuid → InMemoryRuntimeController → InMemoryRuntimeController
on_waiting_for_approval run_id approval_request_id r = record r {
  approval_to_run = insert approval_request_id run_id r.approval_to_run;
}

unfoldable pub on_run_resumed : Uuid → InMemoryRuntimeController → InMemoryRuntimeController
on_run_resumed run_id r = record r { waiting_contexts = remove run_id r.waiting_contexts }

unfoldable pub on_run_completed :
    Uuid → RunState → InMemoryRuntimeController → InMemoryRuntimeController
on_run_completed run_id state r = record {
  waiting_contexts = remove run_id r.waiting_contexts;
  approval_to_run =
      remove_all (keys_where (λ stored_run_id. stored_run_id == run_id) r.approval_to_run)
        r.approval_to_run;
}

unfoldable pub get_waiting_context : Uuid → InMemoryRuntimeController → Option RunContext
get_waiting_context run_id r = lookup run_id r.waiting_contexts

unfoldable pub get_run_id_for_approval : Uuid → InMemoryRuntimeController → Option Uuid
get_run_id_for_approval approval_request_id r = lookup approval_request_id r.approval_to_run
