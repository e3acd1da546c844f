-- ===== src/Db/Session.antt =====
-- packages/db/src/db/models: the rows of the tables, without the columns that the program does not
-- read; and what the repositories use of a session.
use governed_agent_platform.Prelude.{ℕ, ◌≡◌, refl, String, Bool, Option, List, Uuid, Payload}
use governed_agent_platform.Prelude.Exec.{ok, ◌>>◌, pure}
use governed_agent_platform.Orchestrator.Interfaces.{Call}
use governed_agent_platform.Db.Enums.{RunStatus, ApprovalStatus, ToolInvocationStatus}

pub record Run : Type 0 where
  pub id : Uuid
  pub status : RunStatus
  pub workflow_key : String
  pub requested_by : Option String
  pub input_payload : Option Payload
  pub last_error : Option String
  pub started_at : Option ℕ
  pub completed_at : Option ℕ

pub record RunEvent : Type 0 where
  pub id : Uuid
  pub run_id : Uuid
  pub sequence : ℕ
  pub event_type : String
  pub payload : Option Payload
  pub created_at : ℕ

pub record ApprovalRequest : Type 0 where
  pub id : Uuid
  pub run_id : Uuid
  pub tool_invocation_id : Option Uuid
  pub status : ApprovalStatus
  pub reason : String
  pub action_preview : Option Payload
  pub requested_at : ℕ
  pub decision_comment : Option String
  pub expires_at : Option ℕ
  pub resolved_at : Option ℕ

pub record ToolInvocation : Type 0 where
  pub id : Uuid
  pub run_id : Uuid
  pub tool_name : String
  pub status : ToolInvocationStatus
  pub requires_approval : Bool
  pub input_payload : Option Payload
  pub output_payload : Option Payload
  pub error_message : Option String
  pub created_at : ℕ

pub record Tables : Type 0 where
  pub runs : List Run
  pub run_events : List RunEvent
  pub approval_requests : List ApprovalRequest
  pub tool_invocations : List ToolInvocation

-- What the repositories use of a session in a world `W`: the rows as its queries see them, a change
-- of the rows by `add` or by the fields of an object, `flush`, `commit`, the clock and
-- `uuid4`.
pub record Session (W : Type 0) : Type 0 where
  pub tables : W → Tables
  pub write : (Tables → Tables) → W → W
  pub flush : Call W Unit
  pub commit : Call W Unit
  pub now : W → ℕ
  pub uuid4 : W → Uuid

-- The documented effect of a session, where nothing of the database fails: a flush or a commit
-- returns, and after it the queries see what was written before it.
pub record IsSession {W : Type 0} (s : Session W) : Type 0 where
  pub writes : (g : Tables → Tables) (w : W) → s.tables (s.flush (s.write g w)).1 ≡ g (s.tables w)
  pub flush_returns : (w : W) → (s.flush w).0 ≡ ok tt
  pub commit_returns : (w : W) → (s.commit w).0 ≡ ok tt
  pub commit_keeps : (w : W) → s.tables (s.commit w).1 ≡ s.tables w

-- A flush before a result.
pub flush_lem :
    {W A : Type 0} {s : Session W}
    → IsSession s
    → (x : A) (w : W) → (s.flush >> pure x) w ≡ (ok x, (s.flush w).1)
flush_lem laws x w = rw (laws.flush_returns w) refl
