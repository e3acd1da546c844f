-- ===== src/Runtime/Views.antt =====
-- runtime/engine.py: what the two queries answer after each operation.
use governed_agent_platform.Prelude.{
  ◌≡◌, Option, none, some, if◌then◌else◌, ◌==◌, id_eq, Uuid, List, [], ◌∷◌, ◌∙◌, ap,
}
use governed_agent_platform.Prelude.Dict.{
  lookup, IsDict, lookup-insert, lookup-remove, lookup-remove_keys_where, insert-IsDict,
  remove-IsDict, remove_all-IsDict,
}
use governed_agent_platform.Orchestrator.Models.{RunContext, RunState}
use governed_agent_platform.Runtime.{
  InMemoryRuntimeController, new_controller, store_under, store_waiting_context,
  on_waiting_for_approval, on_run_resumed, on_run_completed, get_waiting_context,
  get_run_id_for_approval,
}

-- Both dictionaries hold each key once.
pub record IsController (r : InMemoryRuntimeController) : Type 0 where
  pub contexts_dict : IsDict r.waiting_contexts
  pub approvals_dict : IsDict r.approval_to_run

-- The calls that the engine makes of its runtime hooks.
pub data Hook : Type 0 where
  store : RunContext → Hook
  wait : Uuid → Uuid → Hook
  resume : Uuid → Hook
  complete : Uuid → RunState → Hook

abbrev pub apply : Hook → InMemoryRuntimeController → InMemoryRuntimeController
apply (store x) r = store_waiting_context x r
apply (wait run_id approval_id) r = on_waiting_for_approval run_id approval_id r
apply (resume run_id) r = on_run_resumed run_id r
apply (complete run_id state) r = on_run_completed run_id state r

-- The controller after a history of calls, the first one first.
abbrev pub after : InMemoryRuntimeController → List Hook → InMemoryRuntimeController
after r [] = r
after r (h ∷ hs) = after (apply h r) hs

store-IsController :
    (o : Option Uuid) (x : RunContext) (r : InMemoryRuntimeController)
    → IsController r
    → IsController (store_under o x r)
unfolding store_under
store-IsController none x r h = h
store-IsController (some a) x r h = record {
  contexts_dict = insert-IsDict x.task.run_id x r.waiting_contexts h.contexts_dict;
  approvals_dict = insert-IsDict a x.task.run_id r.approval_to_run h.approvals_dict;
}

apply-IsController :
    (k : Hook) (r : InMemoryRuntimeController) → IsController r → IsController (apply k r)
unfolding store_waiting_context on_waiting_for_approval on_run_resumed on_run_completed
apply-IsController (store x) r h = store-IsController x.approval_request_id x r h
apply-IsController (wait run_id a) r h = record {
  contexts_dict = h.contexts_dict;
  approvals_dict = insert-IsDict a run_id r.approval_to_run h.approvals_dict;
}
apply-IsController (resume run_id) r h = record {
  contexts_dict = remove-IsDict run_id r.waiting_contexts h.contexts_dict;
  approvals_dict = h.approvals_dict;
}
apply-IsController (complete run_id s) r h = record {
  contexts_dict = remove-IsDict run_id r.waiting_contexts h.contexts_dict;
  approvals_dict = remove_all-IsDict _ r.approval_to_run h.approvals_dict;
}

after-IsController :
    (hs : List Hook) (r : InMemoryRuntimeController) → IsController r → IsController (after r hs)
after-IsController [] r h = h
after-IsController (k ∷ hs) r h = after-IsController hs (apply k r) (apply-IsController k r h)

-- Storing a context with an approval request sets the answers for its run and for its request,
-- and changes no other answer.
pub store_waiting_context_views :
    (x : RunContext) (a : Uuid) (r : InMemoryRuntimeController)
    → x.approval_request_id ≡ some a
    → ((i : Uuid)
        → get_waiting_context i (store_waiting_context x r)
          ≡ (if x.task.run_id == i then some x else get_waiting_context i r))
      × ((j : Uuid)
          → get_run_id_for_approval j (store_waiting_context x r)
            ≡ (if a == j then some x.task.run_id else get_run_id_for_approval j r))
unfolding store_waiting_context get_waiting_context get_run_id_for_approval
store_waiting_context_views x a r given = (
  λ i.
      ap (λ o. lookup i (store_under o x r).waiting_contexts) given
      ∙ lookup-insert x.task.run_id i x r.waiting_contexts,
  λ j.
      ap (λ o. lookup j (store_under o x r).approval_to_run) given
      ∙ lookup-insert a j x.task.run_id r.approval_to_run,
)

-- The answer for an approval with the run forgotten.
abbrev pub without_run : Uuid → Option Uuid → Option Uuid
without_run run_id none = none
without_run run_id (some stored) = if stored == run_id then none else some stored

-- After any history of calls from a new controller, the end of a run clears its context and every
-- approval that led to it, and changes no answer for another run.
pub on_run_completed_clears :
    (hs : List Hook) (run_id : Uuid) (state : RunState)
    → let r = after new_controller hs in
      ((i : Uuid)
        → get_waiting_context i (on_run_completed run_id state r)
          ≡ (if run_id == i then none else get_waiting_context i r))
      × ((j : Uuid)
          → get_run_id_for_approval j (on_run_completed run_id state r)
            ≡ without_run run_id (get_run_id_for_approval j r))
unfolding on_run_completed get_waiting_context get_run_id_for_approval
on_run_completed_clears hs run_id state =
    let h : IsController (after new_controller hs) =
      after-IsController hs new_controller (record { contexts_dict = tt; approvals_dict = tt }) in
    (
      λ i. lookup-remove run_id i (after new_controller hs).waiting_contexts,
      λ j.
          lookup-remove_keys_where (λ stored. stored == run_id) j
            (after new_controller hs).approval_to_run h.approvals_dict,
    )
