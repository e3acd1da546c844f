-- ===== src/App/Platform/Started.antt =====
-- apps/api/app/demo.py: what `start_run` answers, over the engine and the repositories.
use governed_agent_platform.Prelude.{
  ◌≡◌, refl, ap, sym, ◌∙◌, String, true, Option, none, some, some-injective, Option-cases, inl, inr,
  [], ◌∷◌, ◌++◌, find, find_append_lem, id_eq, Uuid, Value, none-ne-some,
}
use governed_agent_platform.Prelude.Exec.{Result, ok, raised}
use governed_agent_platform.Orchestrator.Errors.{Error}
use governed_agent_platform.Orchestrator.Models.{RunState, state_value, RunContext, AgentTask}
use governed_agent_platform.Orchestrator.Interfaces.{Collaborators}
use governed_agent_platform.Orchestrator.Engine.{Outcome, start_run}
use governed_agent_platform.Orchestrator.Engine.Lifecycle.{is_settled, Settles, start_run-Settles}
use governed_agent_platform.Orchestrator.Engine.Store.{
  StatusView, OutcomeSynced, start_run-IsSynced, is_known,
}
use governed_agent_platform.Runtime.Pause.{Place, with_runtime}
use governed_agent_platform.Db.Enums.{RunStatus, run_status_value}
use governed_agent_platform.Db.Session.{Run, Session, IsSession, flush_lem}
use governed_agent_platform.Db.Runs.{is_run, get_run, create_run, add_run}
use governed_agent_platform.Db.Stores.Status.{
  status_in, status_text, same_status, LeaveRuns, row_view, id_lem,
}
use governed_agent_platform.App.Platform.{
  RunCreateRequest, RunResponse, engine, run_response, respond, get_run_response, finish_start,
  task_of, start_created, start_run_response,
}

module _ {W : Type 0} (s : Session W) (p : Place W) (c : Collaborators W)
    (repr : Value → String) where
  -- How a started run is answered: the response is about the run, with the status of its row, which is
  -- that of a run that waits, is completed or has failed; or an exception, and the row has failed.
  abbrev pub Reported : Uuid → Option (Result Error RunResponse × W) → Type 0
  Reported id none = ⊥
  Reported id (some (raised e, w)) = status_in s id w ≡ some "FAILED"
  Reported id (some (ok r, w)) =
      (r.run_id ≡ id)
      × ((status_in s id w ≡ some r.status)
          × ((state : RunState) × ((is_settled state ≡ true) × (r.status ≡ state_value state))))

  module _ (laws : IsSession s) (leave : LeaveRuns s (with_runtime p c)) where
    abbrev view : StatusView (engine s p c repr)
    view = row_view s laws (with_runtime p c) leave

    answered_lem :
        (id : Uuid) (x : RunContext) (w : W)
        → is_settled x.state ≡ true
        → status_in s id w ≡ some (state_value x.state)
        → Reported id (some (get_run_response s p c repr id (some x) w))
    unfolding get_run_response respond run_response
    answered_lem id x w settled h = elim (Option-cases (get_run s id w)) [
      | inl missing ↦ absurd (none-ne-some _ (sym (ap status_text missing) ∙ h))
      | inr (r, found) ↦
          let same : run_status_value r.status ≡ state_value x.state =
            some-injective _ _ (sym (ap status_text found) ∙ h) in
          rw found (id_lem s laws id w r found, (ap status_text found, (x.state, (settled, same))))
    ]

    finished_lem :
        (id : Uuid) (o : Outcome W)
        → OutcomeSynced (engine s p c repr) view id o
        → Settles o
        → Reported id (finish_start s p c repr id o)
    unfolding finish_start row_view
    finished_lem id none h k = h
    finished_lem id (some (raised e, m)) h k = h.1 ∙ ap (λ x. some (state_value x)) k
    finished_lem id (some (ok _, m)) h k = rw (laws.commit_returns m.world) (
        answered_lem id m.context (s.commit m.world).1 k (
          same_status s id m.world (s.commit m.world).1
            (ap (λ t. t.runs) (laws.commit_keeps m.world))
          ∙ h.1))

    -- A created run is there, pending.
    created_lem :
        (run : Run) (w : W)
        → find (is_run run.id) (s.tables w).runs ≡ none
        → get_run s run.id (s.flush (add_run s run w)).1 ≡ some run
    unfolding get_run
    created_lem run w fresh =
        ap (λ t. find (is_run run.id) t.runs)
          (laws.writes (λ t. record t { runs = t.runs ++ run ∷ [] }) w)
        ∙ find_append_lem (is_run run.id) (s.tables w).runs run fresh
            ((id_eq.decides run.id run.id).1 refl)

    -- Where the session does not fail, the new id is fresh and no collaborator but the repositories
    -- writes rows of runs, `start_run` ends. If it returns, the response is about the new run and its
    -- status is that of the run's row, which waits for approval, is completed or has failed; if it
    -- raises, the row has failed.
    pub start_run_response-Reported :
        (request : RunCreateRequest) (w : W)
        → find (is_run (s.uuid4 w)) (s.tables w).runs ≡ none
        → Reported (s.uuid4 w) (start_run_response s p c repr request w)
    unfolding start_run_response create_run start_created row_view
    start_run_response-Reported request w fresh =
        let run : Run = record {
          id = s.uuid4 w;
          status = RunStatus.pending;
          workflow_key = request.workflow_key;
          requested_by = request.requested_by;
          input_payload = some (
              ("user_input", Value.str request.user_input)
              ∷ ("tenant_id", Value.str request.tenant_id)
              ∷ []);
          last_error = none;
          started_at = none;
          completed_at = none;
        } in
        let w' : W = (s.flush (add_run s run w)).1 in
        let task : AgentTask = task_of s p c repr request run in
        let there : is_known (status_in s run.id w') ≡ true =
          ap (λ o. is_known (status_text o)) (created_lem run w fresh) in
        rw (flush_lem laws run (add_run s run w)) (
          finished_lem run.id (start_run (engine s p c repr) task w')
            (start_run-IsSynced (engine s p c repr) view run.id task w' refl there)
            (start_run-Settles (engine s p c repr) task w'))
