-- ===== src/Db/Approvals/Resolution.antt =====
-- packages/db/src/db/repositories/approval_repository.py: an approval request is resolved once.
use governed_agent_platform.Prelude.{
  ◌≡◌, ◌≢◌, refl, ap, sym, ◌∙◌, subst, String, true, false, Bool-cases, inl, inr, Option, some,
  Option-cases, List, [], ◌∷◌, find, update, changed, find_update_lem, find_untouched_lem,
  find_true_lem, ◌==◌, id_eq, arith, Uuid,
}
use governed_agent_platform.Prelude.Exec.{ok, raised}
use governed_agent_platform.Orchestrator.Errors.{value_error}
use governed_agent_platform.Db.Enums.{ApprovalStatus, approval_status_eq}
use governed_agent_platform.Db.Session.{ApprovalRequest, Tables, Session, IsSession, flush_lem}
use governed_agent_platform.Db.Approvals.{
  is_approval, with_resolution, get_approval_request, get_approval_decision, resolve_found,
  resolve_approval_request,
}

-- A call of `resolve_approval_request`.
pub record Resolution : Type 0 where
  pub approval_request_id : Uuid
  pub status : ApprovalStatus
  pub decision_comment : Option String

module _ {W : Type 0} (s : Session W) where
  -- The world after a row of the requests was changed.
  abbrev written : (ApprovalRequest → ApprovalRequest) → Uuid → W → W
  written change id w =
      (s.flush (
        s.write
          (λ t. record t { approval_requests = update (is_approval id) change t.approval_requests })
          w)).1

  -- The world after some calls, whether they return or raise.
  unfoldable pub resolve_all : List Resolution → W → W
  resolve_all [] w = w
  resolve_all (c ∷ calls) w =
      resolve_all calls
        (resolve_approval_request s c.approval_request_id c.status c.decision_comment w).1

  -- A request with a status.
  abbrev pub HasStatus : Uuid → ApprovalStatus → W → Type 0
  HasStatus id status w =
      (r : ApprovalRequest) × ((get_approval_request s id w ≡ some r) × (r.status ≡ status))

  -- The decision is the status, and a call for the request raises and changes nothing.
  abbrev pub IsFinal : Uuid → ApprovalStatus → W → Type 0
  IsFinal id status w =
      (get_approval_decision s id w ≡ (ok status, w))
      × ((other : ApprovalStatus) (comment : Option String)
          → resolve_approval_request s id other comment w
            ≡ (raised (value_error "Approval request is not pending."), w))

  module _ (laws : IsSession s) where
    rows_lem :
        (change : ApprovalRequest → ApprovalRequest) (id : Uuid) (w : W)
        → (s.tables (written change id w)).approval_requests
          ≡ update (is_approval id) change (s.tables w).approval_requests
    rows_lem change id w =
        let g = (λ (t : Tables). record t {
          approval_requests = update (is_approval id) change t.approval_requests;
        }) in
        ap (λ t. t.approval_requests) (laws.writes g w)

    -- The changed row is found by its id.
    found_lem :
        (change : ApprovalRequest → ApprovalRequest) (id : Uuid) (w : W)
        → ((r : ApprovalRequest) → is_approval id r ≡ true → is_approval id (change r) ≡ true)
        → get_approval_request s id (written change id w)
          ≡ changed change (get_approval_request s id w)
    unfolding get_approval_request
    found_lem change id w keeps =
        ap (find (is_approval id)) (rows_lem change id w)
        ∙ find_update_lem (is_approval id) change keeps (s.tables w).approval_requests

    -- Other rows are found as before.
    other_lem :
        (change : ApprovalRequest → ApprovalRequest) (id other : Uuid) (w : W)
        → other ≢ id
        → ((r : ApprovalRequest) → (change r).id ≡ r.id)
        → get_approval_request s other (written change id w) ≡ get_approval_request s other w
    unfolding get_approval_request
    other_lem change id other w differs keeps =
        ap (find (is_approval other)) (rows_lem change id w)
        ∙ find_untouched_lem (is_approval other) (is_approval id) change apart
            (s.tables w).approval_requests
      where
        miss : (a : Uuid) → (a == id) ≡ true → (a == other) ≡ false
        miss a hit = elim (Bool-cases (a == other)) [
          | inl same ↦
              absurd (differs (sym ((id_eq.decides a other).0 same) ∙ (id_eq.decides a id).0 hit))
          | inr not_it ↦ not_it
        ]

        apart :
            (r : ApprovalRequest)
            → is_approval id r ≡ true
            → (is_approval other r ≡ false) × (is_approval other (change r) ≡ false)
        apart r hit =
            (miss r.id hit, subst (λ a. (a == other) ≡ false) (sym (keeps r)) (miss r.id hit))

    id_lem :
        (id : Uuid) (w : W) (r : ApprovalRequest) → get_approval_request s id w ≡ some r → r.id ≡ id
    unfolding get_approval_request
    id_lem id w r h =
        (id_eq.decides r.id id).0
          (find_true_lem (is_approval id) (s.tables w).approval_requests r h)

    open_lem :
        (r : ApprovalRequest) (status : ApprovalStatus) (comment : Option String) (w : W)
        → (r.status == ApprovalStatus.pending) ≡ true
        → resolve_found s (some r) status comment w ≡ (
          ok (some (with_resolution status comment (s.now w) r)),
          written (with_resolution status comment (s.now w)) r.id w,
        )
    unfolding resolve_found
    open_lem r status comment w waits =
        let change = with_resolution status comment (s.now w) in
        rw waits (
          flush_lem laws (some (change r)) (
            s.write
              (λ t. record t {
                approval_requests = update (is_approval r.id) change t.approval_requests;
              })
              w))

    -- The first resolution of a pending request sets its status.
    first_lem :
        (id : Uuid) (status : ApprovalStatus) (comment : Option String) (w : W)
        → HasStatus id ApprovalStatus.pending w
        → HasStatus id status (resolve_approval_request s id status comment w).1
    unfolding resolve_approval_request
    first_lem id status comment w (r, (found, waits)) =
        let change = with_resolution status comment (s.now w) in
        let is_open : (r.status == ApprovalStatus.pending) ≡ true =
          (approval_status_eq.decides r.status ApprovalStatus.pending).1 waits in
        rw (found, open_lem r status comment w is_open)
          (
            change r,
            (
              subst (λ a. get_approval_request s id (written change a w) ≡ some (change r))
                  (sym (id_lem id w r found))
                  (found_lem change id w (λ x h. h) ∙ ap (changed change) found),
              refl,
            ),
          )

    -- A request that is not pending refuses.
    pub refused_lem :
        (id : Uuid) (old status : ApprovalStatus) (comment : Option String) (w : W)
        → HasStatus id old w
        → old ≢ ApprovalStatus.pending
        → resolve_approval_request s id status comment w
          ≡ (raised (value_error "Approval request is not pending."), w)
    unfolding resolve_approval_request resolve_found
    refused_lem id old status comment w (r, (found, closed)) differs =
        elim (Bool-cases (r.status == ApprovalStatus.pending)) [
          | inl same ↦ absurd (
              differs
                (sym closed ∙ (approval_status_eq.decides r.status ApprovalStatus.pending).0 same))
          | inr not_it ↦ rw (found, not_it) refl
        ]

    -- A call for another request.
    elsewhere_lem :
        (id : Uuid) (old : ApprovalStatus) (c : Resolution) (w : W)
        → HasStatus id old w
        → id ≢ c.approval_request_id
        → HasStatus id old
            (resolve_approval_request s c.approval_request_id c.status c.decision_comment w).1
    unfolding resolve_approval_request resolve_found
    elsewhere_lem id old c w (r, (found, at)) differs =
        elim (Option-cases (get_approval_request s c.approval_request_id w)) [
          | inl missing ↦ rw missing (r, (found, at))
          | inr (x, there) ↦
              let change = with_resolution c.status c.decision_comment (s.now w) in
              let apart : id ≢ x.id = λ e. differs (e ∙ id_lem c.approval_request_id w x there) in
              elim (Bool-cases (x.status == ApprovalStatus.pending)) [
                | inl waits ↦
                    rw (there, open_lem x c.status c.decision_comment w waits)
                      (r, (other_lem change x.id id w apart (λ y. refl) ∙ found, at))
                | inr settled ↦ rw (there, settled) (r, (found, at))
              ]
        ]

    -- No call moves a status that is not pending.
    kept_lem :
        (id : Uuid) (old : ApprovalStatus) (c : Resolution) (w : W)
        → HasStatus id old w
        → old ≢ ApprovalStatus.pending
        → HasStatus id old
            (resolve_approval_request s c.approval_request_id c.status c.decision_comment w).1
    kept_lem id old c w has differs = elim (Bool-cases (c.approval_request_id == id)) [
      | inl same ↦
          let at = (id_eq.decides c.approval_request_id id).0 same in
          subst
            (λ a. HasStatus id old (resolve_approval_request s a c.status c.decision_comment w).1)
            (sym at)
            (subst (λ x. HasStatus id old x.1)
              (sym (refused_lem id old c.status c.decision_comment w has differs)) has)
      | inr not_it ↦
          elsewhere_lem id old c w has
            (λ eq. ground (arith, not_it, (id_eq.decides c.approval_request_id id).1 (sym eq)))
    ]

    final_lem :
        (id : Uuid) (status : ApprovalStatus)
        → status ≢ ApprovalStatus.pending
        → (calls : List Resolution) (w : W) → HasStatus id status w
        → IsFinal id status (resolve_all calls w)
    unfolding resolve_all get_approval_decision
    final_lem id status differs [] w (r, (found, at)) = (
      rw found (ap (λ x. (ok x, w)) at),
      λ other comment. refused_lem id status other comment w (r, (found, at)) differs,
    )
    final_lem id status differs (c ∷ calls) w h =
        final_lem id status differs calls
          (resolve_approval_request s c.approval_request_id c.status c.decision_comment w).1
          (kept_lem id status c w h differs)

    -- Once a pending request was resolved, with a status that is not pending, its decision is that
    -- status after any further calls for any requests, and each further call for it raises and changes
    -- nothing.
    pub resolve_approval_request-once :
        (id : Uuid) (status : ApprovalStatus) (comment : Option String) (w : W)
        → HasStatus id ApprovalStatus.pending w
        → status ≢ ApprovalStatus.pending
        → (calls : List Resolution)
        → IsFinal id status (resolve_all calls (resolve_approval_request s id status comment w).1)
    resolve_approval_request-once id status comment w h differs calls =
        final_lem id status differs calls (resolve_approval_request s id status comment w).1
          (first_lem id status comment w h)
