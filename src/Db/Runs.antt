-- ===== src/Db/Runs.antt =====
-- packages/db/src/db/repositories/run_repository.py: `RunRepository`.
pub mod Events
use governed_agent_platform.Prelude.{
  ℕ, ◌+◌, max, String, ◌<>◌, Bool, true, false, Option, none, some, List, [], ◌∷◌, ◌++◌, find,
  update, keep, ltb, if◌then◌else◌, ◌==◌, ◌&&◌, ◌||◌, id_eq, Uuid, Payload,
}
use governed_agent_platform.Prelude.Exec.{Result, ok, raised, ◌>>=◌, ◌>>◌, pure}
use governed_agent_platform.Prelude.Sorting.{sort}
use governed_agent_platform.Orchestrator.Errors.{Error, value_error}
use governed_agent_platform.Orchestrator.Interfaces.{Call}
use governed_agent_platform.Db.Enums.{RunStatus, in_progress, run_status_of, run_status_eq}
use governed_agent_platform.Db.Session.{Run, RunEvent, Tables, Session}

-- The assignments of `update_run_status` to a run, at a time.
unfoldable pub with_status : RunStatus → Option String → ℕ → Run → Run
with_status status last_error now run = record run {
  status = status;
  last_error = last_error;
  started_at =
      if status == in_progress
      then elim run.started_at [ none ↦ some now | some t ↦ some t ]
      else run.started_at;
  completed_at =
      if (status == RunStatus.completed)
        || ((status == RunStatus.failed) || (status == RunStatus.canceled))
      then some now
      else run.completed_at;
}

abbrev pub is_run : Uuid → Run → Bool
is_run id r = r.id == id

abbrev pub is_event_of : Uuid → RunEvent → Bool
is_event_of run_id e = e.run_id == run_id

-- `coalesce(max(sequence), 0)`
unfoldable pub max_sequence : List RunEvent → ℕ
max_sequence [] = 0
max_sequence (e ∷ events) = max e.sequence (max_sequence events)

abbrev pub earlier : RunEvent → RunEvent → Bool
earlier a b = ltb a.sequence b.sequence

module _ {W : Type 0} (s : Session W) where
  abbrev pub add_run : Run → W → W
  add_run run = s.write (λ t. record t { runs = t.runs ++ run ∷ [] })

  abbrev pub add_event : RunEvent → W → W
  add_event event = s.write (λ t. record t { run_events = t.run_events ++ event ∷ [] })

  unfoldable pub create_run : String → Option String → Option Payload → RunStatus → Call W Run
  create_run workflow_key requested_by input_payload status w =
      let run : Run = record {
        id = s.uuid4 w;
        status = status;
        workflow_key = workflow_key;
        requested_by = requested_by;
        input_payload = input_payload;
        last_error = none;
        started_at = if status == in_progress then some (s.now w) else none;
        completed_at = none;
      } in
      (s.flush >> pure run) (add_run run w)

  -- `session.get(Run, run_id)`
  unfoldable pub get_run : Uuid → W → Option Run
  get_run run_id w = find (is_run run_id) (s.tables w).runs

  -- The rest of `update_run_status`, with what `RunStatus(status)` gave.
  unfoldable pub set_status : Run → String → Option String → Option RunStatus → Call W (Option Run)
  unfolding with_status
  set_status run text last_error none w =
      (raised (value_error ("'" <> text <> "' is not a valid RunStatus")), w)
  set_status run text last_error (some status) w =
      let change = with_status status last_error (s.now w) in
      (s.flush >> pure (some (change run)))
        (s.write (λ t. record t { runs = update (is_run run.id) change t.runs }) w)

  unfoldable pub update_found : Option Run → String → Option String → Call W (Option Run)
  unfolding set_status
  update_found none status last_error = pure none
  update_found (some run) status last_error =
      set_status run status last_error (run_status_of status)

  unfoldable pub update_run_status : Uuid → String → Option String → Call W (Option Run)
  unfolding update_found
  update_run_status run_id status last_error w = update_found (get_run run_id w) status last_error w

  -- `_next_sequence`
  unfoldable pub next_sequence : Uuid → W → ℕ
  next_sequence run_id w = max_sequence (keep (is_event_of run_id) (s.tables w).run_events) + 1

  unfoldable pub append_run_event : Uuid → String → Option Payload → Call W RunEvent
  unfolding next_sequence
  append_run_event run_id event_type payload w =
      let event : RunEvent = record {
        id = s.uuid4 w;
        run_id = run_id;
        sequence = next_sequence run_id w;
        event_type = event_type;
        payload = payload;
        created_at = s.now w;
      } in
      (s.flush >> pure event) (add_event event w)

  unfoldable pub list_run_events : Uuid → W → List RunEvent
  list_run_events run_id w = sort earlier (keep (is_event_of run_id) (s.tables w).run_events)
