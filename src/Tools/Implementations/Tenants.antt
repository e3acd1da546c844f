-- ===== src/Tools/Implementations/Tenants.antt =====
-- packages/tools/src/tools/implementations: a tool reads records of the caller's tenant only.
use governed_agent_platform.Prelude.{
  String, ◌<>◌, ◌≡◌, refl, ◌⊎◌, Bool, Bool-cases, true, false, Option, none, some, List, [], ◌∷◌,
  ◌==◌, string_eq, Value, Payload, as_dict, text_of, arith, inl, inr,
}
use governed_agent_platform.Prelude.Dict.{lookup}
use governed_agent_platform.Prelude.Exec.{Result, ok, raised}
use governed_agent_platform.Tools.Schemas.{ToolError, ToolExecutionOutput, require_tenant_match}
use governed_agent_platform.Tools.Implementations.{
  Collection, customers, tickets, incidents, label, is_text, find_in, item, present, found_or_error,
  find_record, require_owner, get_customer, get_ticket, get_incident, draft_refund_request,
  refund_draft, ◌>>=◌, ◌>>◌,
}

-- The record's tenant is the one given.
abbrev pub IsOwned : (Value → String) → String → Option Value → Type 0
IsOwned repr tenant_id none = ⊥
IsOwned repr tenant_id (some v) = tenant_id ≡ text_of repr v

-- There is no such record, or its tenant is another one.
abbrev pub IsDenied : (Value → String) → String → Option Payload → Type 0
IsDenied repr tenant_id none = Unit
IsDenied repr tenant_id (some r) = ¬ IsOwned repr tenant_id (lookup "tenant_id" r)

-- The record is one of the list, and has the text under the key.
abbrev pub IsAmong : Payload → List Payload → Type 0
IsAmong r [] = ⊥
IsAmong r (x ∷ xs) = (x ≡ r) ⊎ IsAmong r xs

-- The first record of the list with the text under the key, as a loop finds it.
abbrev pub Finds : List Payload → String → String → Option Payload → Type 0
Finds records key id none = Unit
Finds records key id (some r) = IsAmong r records × (is_text (lookup key r) id ≡ true)

Finds-cons :
    (x : Payload) (xs : List Payload) (key id : String) (o : Option Payload)
    → Finds xs key id o
    → Finds (x ∷ xs) key id o
Finds-cons x xs key id none h = tt
Finds-cons x xs key id (some r) h = (inr h.0, h.1)

find_in-Finds :
    (records : List Payload) (key id : String) → Finds records key id (find_in records key id)
unfolding find_in
find_in-Finds [] key id = tt
find_in-Finds (x ∷ xs) key id = elim (Bool-cases (is_text (lookup key x) id)) [
  | inl hit ↦ rw hit (inl refl, hit)
  | inr miss ↦ rw miss (Finds-cons x xs key id (find_in xs key id) (find_in-Finds xs key id))
]

-- What a look-up of the tenant's record answers: the record that was found, owned by the tenant; or an
-- exception, where there is none or it is another tenant's.
abbrev pub Answers :
    (Value → String)
    → List Payload
    → String
    → String
    → String
    → String
    → Option Payload
    → Result ToolError ToolExecutionOutput
    → Type 0
Answers repr records key name id tenant_id none (ok o) = ⊥
Answers repr records key name id tenant_id (some r) (ok o) =
    IsOwned repr tenant_id (lookup "tenant_id" r)
    × ((o ≡ record { output = some ((name, as_dict r) ∷ []); preview_payload = none })
        × Finds records key id (some r))
Answers repr records key name id tenant_id found (raised e) = IsDenied repr tenant_id found

abbrev Owns : Type 0 → Result ToolError Unit → Type 0
Owns P (ok _) = P
Owns P (raised e) = ¬ P

match_lem : (a b name : String) → Owns (a ≡ b) (require_tenant_match a b name)
unfolding require_tenant_match
match_lem a b name = elim (Bool-cases (a == b)) [
  | inl same ↦ rw same ((string_eq.decides a b).0 same)
  | inr differs ↦ rw differs (λ e. cc ((string_eq.decides a b).1 e))
]

abbrev has_preview : Option Payload → Bool
has_preview none = false
has_preview (some p) = true

-- A preview and no output.
abbrev pub IsPreview : Result ToolError ToolExecutionOutput → Type 0
IsPreview (ok o) = (o.output ≡ none) × (has_preview o.preview_payload ≡ true)
IsPreview (raised e) = Unit

refund_draft-IsPreview :
    (c t : String) (amount : Value) (reason : String) (customer ticket : Payload)
    → IsPreview (refund_draft c t amount reason customer ticket)
unfolding refund_draft item
refund_draft-IsPreview c t amount reason customer ticket = ground arith

module _ (seed : Collection → List Payload) (repr : Value → String) where
  owner_of :
      (c : Collection) (id tenant_id : String) (o : Option Value)
      → Owns (IsOwned repr tenant_id o) (
          present "tenant_id" o >>= λ tenant.
          require_tenant_match tenant_id (text_of repr tenant) (label c <> " " <> id))
  owner_of c id tenant_id none = λ h. h
  owner_of c id tenant_id (some v) = match_lem tenant_id (text_of repr v) (label c <> " " <> id)

  owner_lem :
      (c : Collection) (id tenant_id : String) (r : Payload)
      → Owns
          (IsOwned repr tenant_id (lookup "tenant_id" r))
          (require_owner seed repr c id tenant_id r)
  unfolding require_owner item
  owner_lem c id tenant_id r = owner_of c id tenant_id (lookup "tenant_id" r)

  -- The answer after the tenants were compared.
  abbrev with_record :
      String → Payload → Result ToolError Unit → Result ToolError ToolExecutionOutput
  with_record name r q =
      q >> ok (record { output = some ((name, as_dict r) ∷ []); preview_payload = none })

  compared :
      (c : Collection) (key name id tenant_id : String) (r : Payload) (q : Result ToolError Unit)
      → Finds (seed c) key id (some r)
      → Owns (IsOwned repr tenant_id (lookup "tenant_id" r)) q
      → Answers repr (seed c) key name id tenant_id (some r) (with_record name r q)
  compared c key name id tenant_id r (ok _) f own = (own, (refl, f))
  compared c key name id tenant_id r (raised e) f denied = denied

  owned_lem :
      (c : Collection) (key name id tenant_id : String) (o : Option Payload)
      → Finds (seed c) key id o
      → Answers repr (seed c) key name id tenant_id o (
          found_or_error c id o >>= λ r.
          with_record name r (require_owner seed repr c id tenant_id r))
  owned_lem c key name id tenant_id none h = tt
  owned_lem c key name id tenant_id (some r) h =
      compared c key name id tenant_id r (require_owner seed repr c id tenant_id r) h
        (owner_lem c id tenant_id r)

  abbrev pub Decides :
      Collection → String → String → String → String → Result ToolError ToolExecutionOutput → Type 0
  Decides c key name id tenant_id =
      Answers repr (seed c) key name id tenant_id (find_in (seed c) key id)

  -- The look-up tools decide by the tenant: for the first record that has the id, each of them
  -- answers that record alone if its tenant is the caller's, and raises if its tenant is missing or
  -- another one, or if there is no such record.
  pub tools-Decide :
      (id tenant_id : String)
      → Decides customers "customer_id" "customer" id tenant_id
          (get_customer seed repr id tenant_id)
        × (Decides tickets "ticket_id" "ticket" id tenant_id (get_ticket seed repr id tenant_id)
            × Decides incidents "incident_id" "incident" id tenant_id
                (get_incident seed repr id tenant_id))
  unfolding get_customer get_ticket get_incident find_record
  tools-Decide id tenant_id =
      let go : (c : Collection) (key name : String)
          → Decides c key name id tenant_id (
              found_or_error c id (find_in (seed c) key id) >>= λ r.
              with_record name r (require_owner seed repr c id tenant_id r)) =
        λ c key name.
          owned_lem c key name id tenant_id (find_in (seed c) key id)
            (find_in-Finds (seed c) key id) in
      (
        go customers "customer_id" "customer",
        (go tickets "ticket_id" "ticket", go incidents "incident_id" "incident"),
      )

  -- What a drafted refund shows, with the two records that were found.
  abbrev pub Drafts :
      String → Option Payload → Option Payload → Result ToolError ToolExecutionOutput → Type 0
  Drafts tenant_id (some customer) (some ticket) (ok o) =
      IsOwned repr tenant_id (lookup "tenant_id" customer)
      × (IsOwned repr tenant_id (lookup "tenant_id" ticket) × IsPreview (ok o))
  Drafts tenant_id customer ticket (ok o) = ⊥
  Drafts tenant_id customer ticket (raised e) = Unit

  drafted :
      (tenant_id : String) (customer ticket : Payload) (q p : Result ToolError Unit)
      (r : Result ToolError ToolExecutionOutput)
      → Owns (IsOwned repr tenant_id (lookup "tenant_id" customer)) q
      → Owns (IsOwned repr tenant_id (lookup "tenant_id" ticket)) p
      → IsPreview r
      → Drafts tenant_id (some customer) (some ticket) (q >> (p >> r))
  drafted tenant_id customer ticket (ok _) (ok _) (ok o) own owns h = (own, (owns, h))
  drafted tenant_id customer ticket (ok _) (ok _) (raised e) own owns h = tt
  drafted tenant_id customer ticket (ok _) (raised e) r own owns h = tt
  drafted tenant_id customer ticket (raised e) p r own owns h = tt

  -- A drafted refund only shows a preview, and its customer and its ticket are both the caller's: the
  -- first records with their ids, whose tenants are the one given.
  pub draft_refund_request-Drafts :
      (customer_id ticket_id : String) (amount : Value) (reason tenant_id : String)
      → Drafts tenant_id
          (find_in (seed customers) "customer_id" customer_id)
          (find_in (seed tickets) "ticket_id" ticket_id)
          (draft_refund_request seed repr customer_id ticket_id amount reason tenant_id)
  unfolding draft_refund_request find_record
  draft_refund_request-Drafts customer_id ticket_id amount reason tenant_id =
      go (find_in (seed customers) "customer_id" customer_id)
        (find_in (seed tickets) "ticket_id" ticket_id)
    where
      go :
          (a b : Option Payload)
          → Drafts tenant_id a b (
              found_or_error customers customer_id a >>= λ customer.
              found_or_error tickets ticket_id b >>= λ ticket.
              require_owner seed repr customers customer_id tenant_id customer
              >> (require_owner seed repr tickets ticket_id tenant_id ticket
                  >> refund_draft customer_id ticket_id amount reason customer ticket))
      go none b = tt
      go (some customer) none = tt
      go (some customer) (some ticket) =
          drafted tenant_id customer ticket
            (require_owner seed repr customers customer_id tenant_id customer)
            (require_owner seed repr tickets ticket_id tenant_id ticket)
            (refund_draft customer_id ticket_id amount reason customer ticket)
            (owner_lem customers customer_id tenant_id customer)
            (owner_lem tickets ticket_id tenant_id ticket)
            (refund_draft-IsPreview customer_id ticket_id amount reason customer ticket)
