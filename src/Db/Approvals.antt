-- ===== src/Db/Approvals.antt =====
-- packages/db/src/db/repositories/approval_repository.py: `ApprovalRepository`.
pub mod Resolution
use governed_agent_platform.Prelude.{
  ℕ, String, Bool, true, false, not, Option, none, some, List, [], ◌∷◌, ◌++◌, find, update, keep,
  ltb, if◌then◌else◌, ◌==◌, id_eq, Uuid, Payload,
}
use governed_agent_platform.Prelude.Exec.{Result, ok, raised, ◌>>=◌, ◌>>◌, pure}
use governed_agent_platform.Prelude.Sorting.{sort}
use governed_agent_platform.Orchestrator.Errors.{Error, value_error, other}
use governed_agent_platform.Orchestrator.Interfaces.{Call}
use governed_agent_platform.Db.Enums.{ApprovalStatus, approval_status_eq}
use governed_agent_platform.Db.Session.{ApprovalRequest, Tables, Session}

abbrev pub is_approval : Uuid → ApprovalRequest → Bool
is_approval id r = r.id == id

-- The assignments of `resolve_approval_request`, at a time.
abbrev pub with_resolution : ApprovalStatus → Option String → ℕ → ApprovalRequest → ApprovalRequest
with_resolution status decision_comment now request = record request {
  status = status;
  decision_comment = decision_comment;
  resolved_at = some now;
}

-- `approvals[-1] if approvals else None`
unfoldable pub last_of : List ApprovalRequest → Option ApprovalRequest
last_of [] = none
last_of (r ∷ requests) = elim (last_of requests) [ none ↦ some r | some x ↦ some x ]

module _ {W : Type 0} (s : Session W) where
  abbrev pub add_approval : ApprovalRequest → W → W
  add_approval r = s.write (λ t. record t { approval_requests = t.approval_requests ++ r ∷ [] })

  unfoldable pub create_approval_request :
      Uuid → String → Option Payload → Option Uuid → Option ℕ → Call W ApprovalRequest
  create_approval_request run_id reason action_preview tool_invocation_id expires_at w =
      let request : ApprovalRequest = record {
        id = s.uuid4 w;
        run_id = run_id;
        tool_invocation_id = tool_invocation_id;
        status = ApprovalStatus.pending;
        reason = reason;
        action_preview = action_preview;
        requested_at = s.now w;
        decision_comment = none;
        expires_at = expires_at;
        resolved_at = none;
      } in
      (s.flush >> pure request) (add_approval request w)

  -- `session.get(ApprovalRequest, approval_request_id)`
  unfoldable pub get_approval_request : Uuid → W → Option ApprovalRequest
  get_approval_request id w = find (is_approval id) (s.tables w).approval_requests

  unfoldable pub list_for_run : Uuid → W → List ApprovalRequest
  list_for_run run_id w =
      sort (λ a b. ltb a.requested_at b.requested_at)
        (keep (λ r. r.run_id == run_id) (s.tables w).approval_requests)

  unfoldable pub get_latest_for_run : Uuid → W → Option ApprovalRequest
  unfolding list_for_run last_of
  get_latest_for_run run_id w = last_of (list_for_run run_id w)

  abbrev pub status_or_error : Option ApprovalRequest → Result Error ApprovalStatus
  status_or_error none = raised (other "Approval request not found.")
  status_or_error (some r) = ok r.status

  unfoldable pub get_approval_decision : Uuid → Call W ApprovalStatus
  unfolding get_approval_request
  get_approval_decision id w = (status_or_error (get_approval_request id w), w)

  -- The rest of `resolve_approval_request`, with the request that was found.
  unfoldable pub resolve_found :
      Option ApprovalRequest → ApprovalStatus → Option String → Call W (Option ApprovalRequest)
  resolve_found none status decision_comment w = (ok none, w)
  resolve_found (some r) status decision_comment w =
      let change = with_resolution status decision_comment (s.now w) in
      if not (r.status == ApprovalStatus.pending)
      then (raised (value_error "Approval request is not pending."), w)
      else (s.flush >> pure (some (change r))) (
          s.write
            (λ t. record t {
              approval_requests = update (is_approval r.id) change t.approval_requests;
            })
            w)

  unfoldable pub resolve_approval_request :
      Uuid → ApprovalStatus → Option String → Call W (Option ApprovalRequest)
  unfolding get_approval_request resolve_found
  resolve_approval_request id status decision_comment w =
      resolve_found (get_approval_request id w) status decision_comment w
