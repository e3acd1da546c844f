-- ===== src/App/Approvals/Refused.antt =====
-- apps/api/app/main.py: the approvals that the API refuses to resolve.
use governed_agent_platform.Prelude.{
  ◌≡◌, ◌≢◌, refl, String, Bool-cases, Option, none, some, Option-cases, inl, inr, Uuid, Value,
  if◌then◌else◌, ◌==◌, arith,
}
use governed_agent_platform.Prelude.Exec.{Result, raised}
use governed_agent_platform.Orchestrator.Interfaces.{Collaborators}
use governed_agent_platform.Orchestrator.Decisions.{resolve_approval_status}
use governed_agent_platform.Runtime.Pause.{Place}
use governed_agent_platform.Db.Enums.{ApprovalStatus, approval_status_of, approval_status_eq}
use governed_agent_platform.Db.Session.{ApprovalRequest, Session, IsSession}
use governed_agent_platform.Db.Approvals.{get_approval_request}
use governed_agent_platform.Db.Approvals.Resolution.{HasStatus, refused_lem}
use governed_agent_platform.App.Approvals.{
  ApiError, ApprovalResponse, not_found, conflict, resolve_approval, approve_approval,
  reject_approval,
}

module _ {W : Type 0} (s : Session W) (p : Place W) (c : Collaborators W) (repr : Value → String)
    (upper : String → String) where
  -- Both routes answer so, and leave the world.
  abbrev pub BothAnswer : Uuid → W → Result ApiError ApprovalResponse → Type 0
  BothAnswer id w r =
      (approve_approval s p c repr upper id w ≡ some (r, w))
      × (reject_approval s p c repr upper id w ≡ some (r, w))

  -- How an approval that is not there, or is no longer pending, is answered.
  abbrev pub Refuses : Uuid → W → Option ApprovalRequest → Type 0
  Refuses id w none = BothAnswer id w (raised (not_found "Approval request not found."))
  Refuses id w (some r) =
      if r.status == ApprovalStatus.pending
      then Unit
      else BothAnswer id w (raised (conflict "Approval request is not pending."))

  module _ (laws : IsSession s) (approves : upper "APPROVED" ≡ "APPROVED")
      (rejects : upper "REJECTED" ≡ "REJECTED") where
    refuse_lem :
        (id : Uuid) (status : ApprovalStatus) (w : W)
        → HasStatus s id status w
        → status ≢ ApprovalStatus.pending
        → BothAnswer id w (raised (conflict "Approval request is not pending."))
    unfolding approve_approval reject_approval resolve_approval resolve_approval_status
        approval_status_of
    refuse_lem id status w (r, (found, at)) differs = (
      rw
          (
            found,
            approves,
            refused_lem s laws id status ApprovalStatus.approved none w (r, (found, at)) differs,
          )
          refl,
      rw
          (
            found,
            rejects,
            refused_lem s laws id status ApprovalStatus.rejected none w (r, (found, at)) differs,
          )
          refl,
    )

    -- The routes that approve and reject answer 404 for an approval that is not there and 409 for one
    -- that is no longer pending, and change nothing: they record no event and resume no run.
    pub resolve_approval-Refuses : (id : Uuid) (w : W) → Refuses id w (get_approval_request s id w)
    unfolding approve_approval reject_approval resolve_approval
    resolve_approval-Refuses id w = elim (Option-cases (get_approval_request s id w)) [
      | inl missing ↦ rw missing (rw missing refl, rw missing refl)
      | inr (r, found) ↦ elim (Bool-cases (r.status == ApprovalStatus.pending)) [
        | inl waits ↦ rw (found, waits) tt
        | inr settled ↦
            rw (found, settled)
              (refuse_lem id r.status w (r, (found, refl))
                (λ e. ground (
                  arith,
                  settled,
                  (approval_status_eq.decides r.status ApprovalStatus.pending).1 e,
                )))
      ]
    ]
