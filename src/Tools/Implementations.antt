-- ===== src/Tools/Implementations.antt =====
-- packages/tools/src/tools/implementations: the tools that read the seed data. The records of a
-- collection are a parameter, as what `str` gives for a value that is no text.
pub mod Tenants
use governed_agent_platform.Prelude.{
  String, ◌<>◌, Bool, true, false, Option, none, some, List, [], ◌∷◌, if◌then◌else◌, ◌==◌,
  string_eq, Value, Payload, as_dict, text_of,
}
use governed_agent_platform.Prelude.Dict.{lookup}
use governed_agent_platform.Prelude.Exec.{Result, ok, raised}
use governed_agent_platform.Tools.Schemas.{
  ToolError, key_error, other, ToolExecutionOutput, require_tenant_match,
}

-- The bind of a tool's body.
infixl 5 ◌>>=◌ ◌>>◌
abbrev pub ◌>>=◌ :
    {A B : Type 0} → Result ToolError A → (A → Result ToolError B) → Result ToolError B
ok a >>= f = f a
raised e >>= f = raised e

abbrev pub ◌>>◌ : {A B : Type 0} → Result ToolError A → Result ToolError B → Result ToolError B
m >> n = m >>= λ _. n

-- The collections that the tools name.
pub data Collection : Type 0 where
  customers tickets incidents : Collection

-- `collection.rstrip("s").replace("_", " ")`
abbrev pub label : Collection → String
label customers = "customer"
label tickets = "ticket"
label incidents = "incident"

-- `record.get(key_name) == key_value`
abbrev pub is_text : Option Value → String → Bool
is_text (some (Value.str s)) t = s == t
is_text _ t = false

-- The `for` loop of `find_record`.
unfoldable pub find_in : List Payload → String → String → Option Payload
find_in [] key_name key_value = none
find_in (r ∷ records) key_name key_value =
    let rest = find_in records key_name key_value in
    if is_text (lookup key_name r) key_value then some r else rest

-- The value that was looked up, or the `KeyError`.
abbrev pub present : String → Option Value → Result ToolError Value
present key none = raised (key_error key)
present key (some v) = ok v

-- `record[key]`
unfoldable pub item : String → Payload → Result ToolError Value
item key r = present key (lookup key r)

-- The preview of `draft_refund_request`, from the values it reads of the two records.
abbrev pub refund_preview : String → String → Value → String → Value → Value → Value → Payload
refund_preview customer_id ticket_id amount reason currency email subject =
    ("action", Value.str "draft_refund_request")
    ∷ ("customer_id", Value.str customer_id)
    ∷ ("ticket_id", Value.str ticket_id)
    ∷ ("amount", amount)
    ∷ ("currency", currency)
    ∷ ("reason", Value.str reason)
    ∷ ("customer_email", email)
    ∷ ("ticket_subject", subject)
    ∷ ("execution_mode", Value.str "preview_only")
    ∷ []

-- The end of `find_record`: the record that was found, or the `LookupError`.
abbrev pub found_or_error : Collection → String → Option Payload → Result ToolError Payload
found_or_error collection key_value none =
    raised (other (label collection <> " '" <> key_value <> "' was not found."))
found_or_error collection key_value (some r) = ok r

-- The end of `draft_refund_request`: the preview, from the two records.
unfoldable pub refund_draft :
    String → String → Value → String → Payload → Payload → Result ToolError ToolExecutionOutput
unfolding item
refund_draft customer_id ticket_id amount reason customer ticket = do
  currency ← item "currency" customer
  email ← item "email" customer
  subject ← item "subject" ticket
  ok (record {
    output = none;
    preview_payload =
        some (refund_preview customer_id ticket_id amount reason currency email subject);
  })

module _ (seed : Collection → List Payload) (repr : Value → String) where
  unfoldable pub find_record : Collection → String → String → Result ToolError Payload
  unfolding find_in
  find_record collection key_name key_value =
      found_or_error collection key_value (find_in (seed collection) key_name key_value)

  -- `require_tenant_match` of a record, against the tenant of the arguments.
  unfoldable pub require_owner : Collection → String → String → Payload → Result ToolError Unit
  unfolding item
  require_owner collection id tenant_id r = do
    tenant ← item "tenant_id" r
    require_tenant_match tenant_id (text_of repr tenant) (label collection <> " " <> id)

  unfoldable pub get_customer : String → String → Result ToolError ToolExecutionOutput
  unfolding find_record require_owner
  get_customer customer_id tenant_id = do
    customer ← find_record customers "customer_id" customer_id
    require_owner customers customer_id tenant_id customer
    ok (record { output = some (("customer", as_dict customer) ∷ []); preview_payload = none })

  unfoldable pub get_ticket : String → String → Result ToolError ToolExecutionOutput
  unfolding find_record require_owner
  get_ticket ticket_id tenant_id = do
    ticket ← find_record tickets "ticket_id" ticket_id
    require_owner tickets ticket_id tenant_id ticket
    ok (record { output = some (("ticket", as_dict ticket) ∷ []); preview_payload = none })

  unfoldable pub get_incident : String → String → Result ToolError ToolExecutionOutput
  unfolding find_record require_owner
  get_incident incident_id tenant_id = do
    incident ← find_record incidents "incident_id" incident_id
    require_owner incidents incident_id tenant_id incident
    ok (record { output = some (("incident", as_dict incident) ∷ []); preview_payload = none })

  -- `amount` is the rounded amount.
  unfoldable pub draft_refund_request :
      String → String → Value → String → String → Result ToolError ToolExecutionOutput
  unfolding find_record require_owner refund_draft
  draft_refund_request customer_id ticket_id amount reason tenant_id = do
    customer ← find_record customers "customer_id" customer_id
    ticket ← find_record tickets "ticket_id" ticket_id
    require_owner customers customer_id tenant_id customer
    require_owner tickets ticket_id tenant_id ticket
    refund_draft customer_id ticket_id amount reason customer ticket
