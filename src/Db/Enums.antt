-- ===== src/Db/Enums.antt =====
-- packages/db/src/db/enums.py, and how packages/orchestrator translates its own enums to these.
use governed_agent_platform.Prelude.{
  String, ◌≡◌, refl, Option, none, some, if◌then◌else◌, Eq, ◌==◌, string_eq, enum_eq, arith,
}

pub data RunStatus : Type 0 where
  pending in_progress waiting_for_approval completed failed canceled : RunStatus

pub data ApprovalStatus : Type 0 where
  pending approved rejected expired : ApprovalStatus

pub data ToolInvocationStatus : Type 0 where
  pending approval_required completed failed canceled : ToolInvocationStatus

abbrev pub run_status_value : RunStatus → String
run_status_value RunStatus.pending = "PENDING"
run_status_value in_progress = "IN_PROGRESS"
run_status_value waiting_for_approval = "WAITING_FOR_APPROVAL"
run_status_value RunStatus.completed = "COMPLETED"
run_status_value RunStatus.failed = "FAILED"
run_status_value RunStatus.canceled = "CANCELED"

-- `RunStatus(text)`
unfoldable pub run_status_of : String → Option RunStatus
run_status_of s =
    if s == "PENDING"
    then some RunStatus.pending
    else if s == "IN_PROGRESS"
    then some in_progress
    else if s == "WAITING_FOR_APPROVAL"
    then some waiting_for_approval
    else if s == "COMPLETED"
    then some RunStatus.completed
    else if s == "FAILED"
    then some RunStatus.failed
    else if s == "CANCELED"
    then some RunStatus.canceled
    else none

abbrev pub approval_status_value : ApprovalStatus → String
approval_status_value ApprovalStatus.pending = "PENDING"
approval_status_value approved = "APPROVED"
approval_status_value rejected = "REJECTED"
approval_status_value expired = "EXPIRED"

-- `ApprovalStatus(text)`
unfoldable pub approval_status_of : String → Option ApprovalStatus
approval_status_of s =
    if s == "PENDING"
    then some ApprovalStatus.pending
    else if s == "APPROVED"
    then some approved
    else if s == "REJECTED"
    then some rejected
    else if s == "EXPIRED"
    then some expired
    else none

pub run_status_of-value : (s : RunStatus) → run_status_of (run_status_value s) ≡ some s
unfolding run_status_of
run_status_of-value RunStatus.pending = refl
run_status_of-value _ = refl

pub approval_status_of-value :
    (s : ApprovalStatus) → approval_status_of (approval_status_value s) ≡ some s
unfolding approval_status_of
approval_status_of-value ApprovalStatus.pending = refl
approval_status_of-value _ = refl

instance abbrev pub run_status_eq : Eq RunStatus
run_status_eq = enum_eq run_status_value run_status_of run_status_of-value

instance abbrev pub approval_status_eq : Eq ApprovalStatus
approval_status_eq = enum_eq approval_status_value approval_status_of approval_status_of-value

-- The text is the value of what it was parsed as.
abbrev pub IsValueOf : {A : Type 0} → (A → String) → String → Option A → Type 0
IsValueOf value s none = Unit
IsValueOf value s (some x) = value x ≡ s

pub run_status_of-IsValueOf : (s : String) → IsValueOf run_status_value s (run_status_of s)
unfolding run_status_of
run_status_of-IsValueOf s = ground (
  arith,
  string_eq.decides s "PENDING",
  string_eq.decides s "IN_PROGRESS",
  string_eq.decides s "WAITING_FOR_APPROVAL",
  string_eq.decides s "COMPLETED",
  string_eq.decides s "FAILED",
  string_eq.decides s "CANCELED",
)

pub approval_status_of-IsValueOf :
    (s : String) → IsValueOf approval_status_value s (approval_status_of s)
unfolding approval_status_of
approval_status_of-IsValueOf s = ground (
  arith,
  string_eq.decides s "PENDING",
  string_eq.decides s "APPROVED",
  string_eq.decides s "REJECTED",
  string_eq.decides s "EXPIRED",
)
