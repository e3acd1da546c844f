-- ===== src/Gateway/Types.antt =====
-- packages/gateway/src/gateway/types.py. A float that is only handed on is its literal; a cost is
-- in millionths of a dollar.
use governed_agent_platform.Prelude.{
  ℕ, String, Bool, ◌≡◌, refl, Option, none, some, [], ◌∷◌, if◌then◌else◌, Eq, ◌==◌, string_eq,
  enum_eq, Value, Payload,
}
use governed_agent_platform.Prelude.Exec.{Exec}

pub data ProviderName : Type 0 where
  openai anthropic mock : ProviderName

pub data TaskCategory : Type 0 where
  general summarization action_planning approval : TaskCategory

pub data RiskLevel : Type 0 where
  low medium high : RiskLevel

abbrev pub provider_value : ProviderName → String
provider_value openai = "openai"
provider_value anthropic = "anthropic"
provider_value mock = "mock"

abbrev pub task_value : TaskCategory → String
task_value general = "general"
task_value summarization = "summarization"
task_value action_planning = "action_planning"
task_value approval = "approval"

abbrev pub risk_value : RiskLevel → String
risk_value low = "low"
risk_value medium = "medium"
risk_value high = "high"

-- `ProviderName(text)`
unfoldable pub provider_of : String → Option ProviderName
provider_of s =
    if s == "openai"
    then some openai
    else if s == "anthropic"
    then some anthropic
    else if s == "mock"
    then some mock
    else none

pub provider_of-value : (p : ProviderName) → provider_of (provider_value p) ≡ some p
unfolding provider_of
provider_of-value openai = refl
provider_of-value _ = refl

instance abbrev pub provider_eq : Eq ProviderName
provider_eq = enum_eq provider_value provider_of provider_of-value

pub record UsageStats : Type 0 where
  pub input_tokens : ℕ
  pub output_tokens : ℕ
  pub total_tokens : ℕ
  pub latency_ms : ℕ
  pub estimated_cost_usd : Option ℕ

pub record ModelRequest : Type 0 where
  pub prompt : String
  pub task_category : TaskCategory
  pub risk_level : RiskLevel
  pub tenant_id : String
  pub temperature : Option String
  pub max_output_tokens : Option ℕ
  pub allow_fallback : Bool
  pub preferred_provider : Option ProviderName
  pub preferred_model : Option String
  pub metadata : Payload

pub record RouteDecision : Type 0 where
  pub primary_provider : ProviderName
  pub primary_model : String
  pub fallback_provider : Option ProviderName
  pub fallback_model : Option String
  pub task_category : TaskCategory
  pub risk_level : RiskLevel
  pub policy_name : String
  pub reason : String
  pub fallback_allowed : Bool

pub record ModelResponse : Type 0 where
  pub provider : ProviderName
  pub model : String
  pub output_text : String
  pub usage : UsageStats
  pub stop_reason : Option String
  pub route_decision : Option RouteDecision
  pub metadata : Payload

pub record ProviderError : Type 0 where
  pub provider : ProviderName
  pub model : Option String
  pub message : String
  pub retryable : Bool
  pub status_code : Option ℕ
  pub error_code : Option String

optional : {A : Type 0} → (A → Value) → Option A → Value
optional f none = Value.null
optional f (some a) = f a

-- `ProviderError.to_dict`
unfoldable pub to_dict : ProviderError → Payload
unfolding optional
to_dict e =
    ("provider", Value.str (provider_value e.provider))
    ∷ ("model", optional Value.str e.model)
    ∷ ("message", Value.str e.message)
    ∷ ("retryable", Value.bool e.retryable)
    ∷ ("status_code", optional Value.int e.status_code)
    ∷ ("error_code", optional Value.str e.error_code)
    ∷ []

-- The exceptions that leave the gateway: its own error, a `KeyError`, or any other one.
pub data GatewayError : Type 0 where
  provider_error : ProviderError → GatewayError
  key_error : String → GatewayError
  other : String → GatewayError

-- `ProviderAdapter`, over the world `W` that its calls change.
pub record ProviderAdapter (W : Type 0) : Type 0 where
  pub is_configured : Bool
  pub generate : ModelRequest → String → Exec W GatewayError ModelResponse
