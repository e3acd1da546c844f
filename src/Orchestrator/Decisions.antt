-- ===== src/Orchestrator/Decisions.antt =====
-- packages/orchestrator/src/orchestrator/approval.py: the translations between the decisions of the
-- orchestrator, the statuses of packages/db and the texts of the API. `str.upper` is a parameter.
use governed_agent_platform.Prelude.{String, ◌<>◌, ◌≡◌, ◌↔◌, refl, arith, Option, none, some}
use governed_agent_platform.Prelude.Exec.{Result, ok, raised}
use governed_agent_platform.Orchestrator.Errors.{Error, value_error, approval_resolution_error}
use governed_agent_platform.Orchestrator.Models.{
  RunState, state_value, ApprovalDecision, decision_value, decision_of,
}
use governed_agent_platform.Db.Enums.{
  RunStatus, run_status_value, run_status_of, ApprovalStatus, approval_status_value,
  approval_status_of, approval_status_of-value, IsValueOf, approval_status_of-IsValueOf,
}

abbrev valid_decision : String → Option ApprovalDecision → Result Error ApprovalDecision
valid_decision text none = raised (value_error ("'" <> text <> "' is not a valid ApprovalDecision"))
valid_decision text (some d) = ok d

-- `ApprovalCoordinator.decision_for_status`
unfoldable pub decision_for_status : ApprovalStatus → Result Error ApprovalDecision
decision_for_status status =
    valid_decision (approval_status_value status) (decision_of (approval_status_value status))

abbrev supported : String → Option ApprovalStatus → Result Error ApprovalStatus
supported decision none =
    raised (approval_resolution_error ("Unsupported approval decision '" <> decision <> "'."))
supported decision (some status) = ok status

-- `resolve_approval_status`
unfoldable pub resolve_approval_status : (String → String) → String → Result Error ApprovalStatus
resolve_approval_status upper decision = supported decision (approval_status_of (upper decision))

abbrev unsupported : String → Error
unsupported decision =
    approval_resolution_error ("Unsupported approval decision '" <> decision <> "'.")

supported-IsValue :
    (upper : String → String) (decision : String) (status : ApprovalStatus)
    (o : Option ApprovalStatus)
    → IsValueOf approval_status_value (upper decision) o
    → supported decision o ≡ ok status
    → upper decision ≡ approval_status_value status
supported-IsValue upper decision status none v h = absurd (ground arith)
supported-IsValue upper decision status (some found) v h = cc

-- Which texts give a status: the ones that are its value in upper case.
resolve_iff :
    (upper : String → String) (decision : String) (status : ApprovalStatus)
    → (resolve_approval_status upper decision ≡ ok status)
      ↔ (upper decision ≡ approval_status_value status)
unfolding resolve_approval_status
resolve_iff upper decision status = (
  supported-IsValue upper decision status (approval_status_of (upper decision))
      (approval_status_of-IsValueOf (upper decision)),
  λ h. rw (h, approval_status_of-value status) refl,
)

-- The status of a decision that was translated, back from a text.
abbrev pub ComesBack :
    (String → String) → String → ApprovalStatus → Result Error ApprovalDecision → Type 0
ComesBack upper decision status (raised e) = ⊥
ComesBack upper decision status (ok d) =
    (decision_value d ≡ approval_status_value status)
    × ((resolve_approval_status upper decision ≡ ok status) ↔ (upper decision ≡ decision_value d))

-- A text that gives a status, or none and the error that names it.
abbrev pub Resolves : String → Result Error ApprovalStatus → Type 0
Resolves decision (ok status) = Unit
Resolves decision (raised e) = e ≡ unsupported decision

supported-Resolves :
    (decision : String) (o : Option ApprovalStatus) → Resolves decision (supported decision o)
supported-Resolves decision none = refl
supported-Resolves decision (some status) = tt

-- Each approval status is a decision with the same text. A text, of the API say, in any case, comes
-- back as the status just where it is the text of the decision in upper case; a text that gives no
-- status is refused by the error that names it.
pub decision_for_status-ComesBack :
    (upper : String → String) (decision : String) (status : ApprovalStatus)
    → ComesBack upper decision status (decision_for_status status)
      × Resolves decision (resolve_approval_status upper decision)
unfolding decision_for_status resolve_approval_status decision_of
decision_for_status-ComesBack upper decision ApprovalStatus.pending = (
  (refl, resolve_iff upper decision ApprovalStatus.pending),
  supported-Resolves decision (approval_status_of (upper decision)),
)
decision_for_status-ComesBack upper decision status = (
  (refl, resolve_iff upper decision status),
  supported-Resolves decision (approval_status_of (upper decision)),
)

-- A status that is stored for a state.
abbrev pub Stores : RunState → Option RunStatus → Type 0
Stores state none = ⊥
Stores state (some status) = run_status_value status ≡ state_value state

-- The run store knows every state of the engine.
pub run_status_of-Stores : (state : RunState) → Stores state (run_status_of (state_value state))
unfolding run_status_of
run_status_of-Stores RunState.pending = refl
run_status_of-Stores _ = refl
