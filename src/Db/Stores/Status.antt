-- ===== src/Db/Stores/Status.antt =====
-- The status of a run in its row, where the repositories are the stores of the engine.
use governed_agent_platform.Prelude.{
  ℕ, ◌≡◌, refl, ap, sym, ◌∙◌, subst, String, true, Option, none, some, Option-cases, inl, inr, [],
  ◌∷◌, ◌++◌, find, update, changed, find_update_lem, find_true_lem, id_eq, arith, Uuid, Payload,
}
use governed_agent_platform.Prelude.Exec.{Result, ok, raised, continue, pure}
use governed_agent_platform.Tracing.{record_event, normalized_payload}
use governed_agent_platform.Orchestrator.Errors.{Error}
use governed_agent_platform.Orchestrator.Models.{RunState, state_value, AgentTask, RunContext}
use governed_agent_platform.Orchestrator.Interfaces.{Collaborators}
use governed_agent_platform.Orchestrator.Engine.Store.{StatusView, is_known}
use governed_agent_platform.Db.Enums.{RunStatus, ApprovalStatus, run_status_value, run_status_of}
use governed_agent_platform.Db.Session.{
  Run, RunEvent, ApprovalRequest, Tables, Session, IsSession, flush_lem,
}
use governed_agent_platform.Db.Runs.{
  is_run, with_status, get_run, set_status, update_found, update_run_status, add_event,
  append_run_event, next_sequence,
}
use governed_agent_platform.Db.Approvals.{create_approval_request, add_approval}
use governed_agent_platform.Db.Stores.{with_repositories, event_store, approval_store}

abbrev pub status_text : Option Run → Option String
status_text none = none
status_text (some r) = some (run_status_value r.status)

-- The status that is stored for a state.
abbrev stored : RunState → RunStatus
stored RunState.pending = RunStatus.pending
stored RunState.in_progress = RunStatus.in_progress
stored RunState.waiting_for_approval = RunStatus.waiting_for_approval
stored RunState.completed = RunStatus.completed
stored RunState.failed = RunStatus.failed
stored RunState.canceled = RunStatus.canceled

stored_lem : (x : RunState) → run_status_of (state_value x) ≡ some (stored x)
unfolding run_status_of
stored_lem RunState.pending = refl
stored_lem _ = refl

value_lem :
    (x : RunState) (e : Option String) (now : ℕ) (r : Run)
    → status_text (some (with_status (stored x) e now r)) ≡ some (state_value x)
unfolding with_status
value_lem RunState.pending e now r = refl
value_lem _ e now r = refl

kept_id :
    (status : RunStatus) (e : Option String) (now : ℕ) (id : Uuid) (r : Run)
    → is_run id r ≡ true
    → is_run id (with_status status e now r) ≡ true
unfolding with_status
kept_id status e now id r h = h

module _ {W : Type 0} (s : Session W) where
  -- The value of the status in the row of a run.
  abbrev pub status_in : Uuid → W → Option String
  status_in id w = status_text (get_run s id w)

  -- A call leaves the rows of the runs.
  abbrev pub KeepsRuns : {A : Type 0} → (W → A × W) → Type 0
  KeepsRuns call = (w : W) → (s.tables (call w).1).runs ≡ (s.tables w).runs

  -- The collaborators that are no repositories leave the rows of the runs.
  pub record LeaveRuns (c : Collaborators W) : Type 0 where
    pub classify : (t : AgentTask) → KeepsRuns (c.ai_gateway.classify t)
    pub generate_response : (x : RunContext) → KeepsRuns (c.ai_gateway.generate_response x)
    pub describe_route :
        (f : _) (x : RunContext) → c.ai_gateway.describe_route ≡ some f → KeepsRuns (f x)
    pub retrieve : (t : AgentTask) (q : String) → KeepsRuns (c.retrieval_service.retrieve t q)
    pub plan_tools : (x : RunContext) → KeepsRuns (c.tool_executor.plan_tools x)
    pub execute_tools : (x : RunContext) → KeepsRuns (c.tool_executor.execute_tools x)
    pub store_waiting_context :
        (x : RunContext) → KeepsRuns (c.runtime_hooks.store_waiting_context x)
    pub on_waiting_for_approval :
        (i a : Uuid) → KeepsRuns (c.runtime_hooks.on_waiting_for_approval i a)
    pub on_run_completed :
        (i : Uuid) (q : RunState) → KeepsRuns (c.runtime_hooks.on_run_completed i q)

  pub same_status :
      (id : Uuid) (w w' : W)
      → (s.tables w').runs ≡ (s.tables w).runs
      → status_in id w' ≡ status_in id w
  unfolding get_run
  same_status id w w' h = ap (λ rs. status_text (find (is_run id) rs)) h

  module _ (laws : IsSession s) where
    -- The world after the row of a run was changed.
    abbrev written : (Run → Run) → Uuid → W → W
    written change id w =
        (s.flush (s.write (λ t. record t { runs = update (is_run id) change t.runs }) w)).1

    rows_lem :
        (change : Run → Run) (id : Uuid) (w : W)
        → (s.tables (written change id w)).runs ≡ update (is_run id) change (s.tables w).runs
    rows_lem change id w =
        let g = (λ (t : Tables). record t { runs = update (is_run id) change t.runs }) in
        ap (λ t. t.runs) (laws.writes g w)

    found_lem :
        (change : Run → Run) (id : Uuid) (w : W)
        → ((r : Run) → is_run id r ≡ true → is_run id (change r) ≡ true)
        → get_run s id (written change id w) ≡ changed change (get_run s id w)
    unfolding get_run
    found_lem change id w keeps =
        ap (find (is_run id)) (rows_lem change id w)
        ∙ find_update_lem (is_run id) change keeps (s.tables w).runs

    pub id_lem : (id : Uuid) (w : W) (r : Run) → get_run s id w ≡ some r → r.id ≡ id
    unfolding get_run
    id_lem id w r h = (id_eq.decides r.id id).0 (find_true_lem (is_run id) (s.tables w).runs r h)

    set_lem :
        (r : Run) (text : String) (e : Option String) (status : RunStatus) (w : W)
        → set_status s r text e (some status) w ≡ (
          ok (some (with_status status e (s.now w) r)),
          written (with_status status e (s.now w)) r.id w,
        )
    unfolding set_status
    set_lem r text e status w =
        let change = with_status status e (s.now w) in
        flush_lem laws (some (change r))
          (s.write (λ t. record t { runs = update (is_run r.id) change t.runs }) w)

    -- What a call of `update_run_status` does for a run that is there.
    abbrev pub Updated : RunState → Uuid → Result Error (Option Run) × W → Type 0
    Updated x id (ok r, w) = status_in id w ≡ some (state_value x)
    Updated x id (raised e, w) = ⊥

    pub updated_lem :
        (x : RunState) (id : Uuid) (e : Option String) (w : W)
        → is_known (status_in id w) ≡ true
        → Updated x id (update_run_status s id (state_value x) e w)
    unfolding update_run_status update_found
    updated_lem x id e w known = elim (Option-cases (get_run s id w)) [
      | inl missing ↦
          absurd (ground (arith, sym known ∙ ap (λ o. is_known (status_text o)) missing))
      | inr (r, found) ↦
          let change = with_status (stored x) e (s.now w) in
          rw (found, stored_lem x, set_lem r (state_value x) e (stored x) w)
            (subst (λ i. status_text (get_run s id (written change i w)) ≡ some (state_value x))
              (sym (id_lem id w r found))
              (ap status_text (
                  found_lem change id w (kept_id (stored x) e (s.now w) id)
                  ∙ ap (changed change) found)
                ∙ value_lem x e (s.now w) r))
    ]

    pub done_lem :
        (x : RunState) (id : Uuid) (q : Result Error (Option Run) × W)
        → Updated x id q
        → ((continue q.0 (λ _. pure tt) q.1).0 ≡ ok tt)
          × (status_in id (continue {A = Option Run} {B = Unit} q.0 (λ _. pure tt) q.1).1
              ≡ some (state_value x))
    done_lem x id (ok r, w) h = (refl, h)
    done_lem x id (raised e, w) h = absurd h

    -- A change of other tables.
    aside_lem :
        (g : Tables → Tables) (w : W)
        → ((t : Tables) → (g t).runs ≡ t.runs)
        → (s.tables (s.flush (s.write g w)).1).runs ≡ (s.tables w).runs
    aside_lem g w keeps = ap (λ t. t.runs) (laws.writes g w) ∙ keeps (s.tables w)

    pub appended_lem :
        (i : Uuid) (event_type : String) (payload : Option Payload) (w : W)
        → (s.tables ((event_store s).append_run_event i event_type payload w).1).runs
          ≡ (s.tables w).runs
    unfolding append_run_event
    appended_lem i event_type payload w =
        let e : RunEvent = record {
          id = s.uuid4 w;
          run_id = i;
          sequence = next_sequence s i w;
          event_type = event_type;
          payload = payload;
          created_at = s.now w;
        } in
        rw (flush_lem laws e (add_event s e w))
          (aside_lem (λ t. record t { run_events = t.run_events ++ e ∷ [] }) w (λ t. refl))

    pub requested_lem :
        (i : Uuid) (reason : String) (p : Option Payload) (t : Option Uuid) (w : W)
        → (s.tables ((approval_store s).create_approval_request i reason p t w).1).runs
          ≡ (s.tables w).runs
    unfolding create_approval_request
    requested_lem i reason p t w =
        let r : ApprovalRequest = record {
          id = s.uuid4 w;
          run_id = i;
          tool_invocation_id = t;
          status = ApprovalStatus.pending;
          reason = reason;
          action_preview = p;
          requested_at = s.now w;
          decision_comment = none;
          expires_at = none;
          resolved_at = none;
        } in
        rw (flush_lem laws r (add_approval s r w)) (
          aside_lem (λ q. record q { approval_requests = q.approval_requests ++ r ∷ [] }) w
            (λ q. refl))

    -- The row of a run as the view of its status.
    unfoldable pub row_view :
        (c : Collaborators W) → LeaveRuns c → StatusView (with_repositories s c)
    unfolding record_event
    row_view c leave = record {
      status = status_in;
      update_run_status = λ x id e w known. done_lem x id _ (updated_lem x id e w known);
      create_approval_request = λ id i q p t w. same_status id w _ (requested_lem i q p t w);
      classify = λ id t w. same_status id w _ (leave.classify t w);
      generate_response = λ id x w. same_status id w _ (leave.generate_response x w);
      describe_route = λ id f x w h. same_status id w _ (leave.describe_route f x h w);
      retrieve = λ id t q w. same_status id w _ (leave.retrieve t q w);
      plan_tools = λ id x w. same_status id w _ (leave.plan_tools x w);
      execute_tools = λ id x w. same_status id w _ (leave.execute_tools x w);
      record_event = λ id i q p w. same_status id w _ (appended_lem i q (normalized_payload p) w);
      store_waiting_context = λ id x w. same_status id w _ (leave.store_waiting_context x w);
      on_waiting_for_approval =
          λ id i a w. same_status id w _ (leave.on_waiting_for_approval i a w);
      on_run_completed = λ id i q w. same_status id w _ (leave.on_run_completed i q w);
    }
