-- ===== src/Db/ToolInvocations.antt =====
-- packages/db/src/db/repositories/tool_invocation_repository.py: `ToolInvocationRepository`.
use governed_agent_platform.Prelude.{
  String, Bool, Option, none, some, List, [], ◌∷◌, ◌++◌, find, update, keep, ltb, ◌==◌, id_eq, Uuid,
  Payload,
}
use governed_agent_platform.Prelude.Exec.{ok, ◌>>◌, pure}
use governed_agent_platform.Prelude.Sorting.{sort}
use governed_agent_platform.Orchestrator.Interfaces.{Call}
use governed_agent_platform.Db.Enums.{ToolInvocationStatus}
use governed_agent_platform.Db.Session.{ToolInvocation, Session}

abbrev is_invocation : Uuid → ToolInvocation → Bool
is_invocation id t = t.id == id

module _ {W : Type 0} (s : Session W) where
  unfoldable pub create_tool_invocation :
      Uuid → String → Option Payload → Bool → ToolInvocationStatus → Call W ToolInvocation
  create_tool_invocation run_id tool_name input_payload requires_approval status w =
      let invocation : ToolInvocation = record {
        id = s.uuid4 w;
        run_id = run_id;
        tool_name = tool_name;
        status = status;
        requires_approval = requires_approval;
        input_payload = input_payload;
        output_payload = none;
        error_message = none;
        created_at = s.now w;
      } in
      (s.flush >> pure invocation)
        (s.write (λ t. record t { tool_invocations = t.tool_invocations ++ invocation ∷ [] }) w)

  unfoldable pub get_tool_invocation : Uuid → W → Option ToolInvocation
  get_tool_invocation id w = find (is_invocation id) (s.tables w).tool_invocations

  -- The rest of `update_tool_invocation`, with the invocation that was found.
  unfoldable pub update_invocation :
      Option ToolInvocation
      → ToolInvocationStatus
      → Option Payload
      → Option String
      → Call W (Option ToolInvocation)
  update_invocation none status output_payload error_message w = (ok none, w)
  update_invocation (some i) status output_payload error_message w =
      let change : ToolInvocation → ToolInvocation = λ x. record x {
        status = status;
        output_payload = output_payload;
        error_message = error_message;
      } in
      (s.flush >> pure (some (change i))) (
        s.write
          (λ t. record t {
            tool_invocations = update (is_invocation i.id) change t.tool_invocations;
          })
          w)

  unfoldable pub update_tool_invocation :
      Uuid → ToolInvocationStatus → Option Payload → Option String → Call W (Option ToolInvocation)
  unfolding get_tool_invocation update_invocation
  update_tool_invocation id status output_payload error_message w =
      update_invocation (get_tool_invocation id w) status output_payload error_message w

  unfoldable pub list_for_run : Uuid → W → List ToolInvocation
  list_for_run run_id w =
      sort (λ a b. ltb a.created_at b.created_at)
        (keep (λ t. t.run_id == run_id) (s.tables w).tool_invocations)
