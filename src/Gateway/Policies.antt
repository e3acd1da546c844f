-- ===== src/Gateway/Policies.antt =====
-- packages/gateway/src/gateway/policies.py: the tier, the route and the fallback policy.
use governed_agent_platform.Prelude.{
  String, ◌<>◌, Bool, true, false, not, ◌&&◌, Option, none, some, if◌then◌else◌, ◌==◌, string_eq,
}
use governed_agent_platform.Prelude.Dict.{Dict, lookup}
use governed_agent_platform.Prelude.Exec.{Result, ok, raised}
use governed_agent_platform.Gateway.Types.{
  ProviderName, provider_value, provider_eq, TaskCategory, summarization, action_planning, approval,
  task_value, RiskLevel, low, high, risk_value, ModelRequest, RouteDecision, ProviderError,
  GatewayError, provider_error, key_error, ProviderAdapter,
}
use governed_agent_platform.Gateway.Config.{ProviderConfig, GatewayConfig, model_for_tier}

abbrev pub is_low : RiskLevel → Bool
is_low low = true
is_low _ = false

abbrev pub is_high : RiskLevel → Bool
is_high high = true
is_high _ = false

abbrev pub is_summarization : TaskCategory → Bool
is_summarization summarization = true
is_summarization _ = false

-- `request.task_category in {ACTION_PLANNING, APPROVAL}`
abbrev pub is_action : TaskCategory → Bool
is_action action_planning = true
is_action approval = true
is_action _ = false

-- `CostLatencyTierPolicy.select_tier`
unfoldable pub select_tier : ModelRequest → String
select_tier r =
    if is_summarization r.task_category && is_low r.risk_level
    then "fast"
    else if is_action r.task_category
    then "strong"
    else if is_high r.risk_level
    then "strong"
    else "default"

-- The bind of a chain that may raise.
infixl 5 ◌>>=◌
abbrev ◌>>=◌ :
    {A B : Type 0} → Result GatewayError A → (A → Result GatewayError B) → Result GatewayError B
ok a >>= f = f a
raised e >>= f = raised e

abbrev pub refused : ProviderName → String → GatewayError
refused provider message = provider_error (record {
  provider = provider;
  model = none;
  message = message;
  retryable = false;
  status_code = none;
  error_code = none;
})

-- `config.providers[provider]`, with its `KeyError`.
unfoldable pub provider_config : GatewayConfig → ProviderName → Result GatewayError ProviderConfig
provider_config config provider = elim (lookup provider config.providers) [
  | none ↦ raised (key_error (provider_value provider))
  | some c ↦ ok c
]

-- The model of a provider for the tier.
unfoldable pub tier_model : GatewayConfig → ProviderName → String → Result GatewayError String
unfolding provider_config
tier_model config provider tier = do c ← provider_config config provider; ok (model_for_tier c tier)

-- `request.preferred_model or config.providers[...].model_for_tier(tier)`
unfoldable pub primary_model_of :
    Option String → GatewayConfig → ProviderName → String → Result GatewayError String
unfolding tier_model
primary_model_of none config provider tier = tier_model config provider tier
primary_model_of (some m) config provider tier =
    if m == "" then tier_model config provider tier else ok m

abbrev pub provider_or : Option ProviderName → ProviderName → ProviderName
provider_or none d = d
provider_or (some p) d = p

abbrev pub is_some : {A : Type 0} → Option A → Bool
is_some none = false
is_some (some a) = true

abbrev pub Adapters : Type 0 → Type 0
Adapters W = Dict ProviderName (ProviderAdapter W)

-- The fallback's model; none where there is no fallback.
unfoldable pub fallback_model_of :
    Option ProviderName → GatewayConfig → String → Result GatewayError (Option String)
unfolding tier_model
fallback_model_of none config tier = ok none
fallback_model_of (some p) config tier = do m ← tier_model config p tier; ok (some m)

module _ {W : Type 0} where
  -- `_require_configured_adapter`
  unfoldable pub require_configured_adapter :
      ProviderName → Adapters W → Result GatewayError (ProviderAdapter W)
  require_configured_adapter provider adapters = elim (lookup provider adapters) [
    | none ↦ raised (
        refused provider
          ("No adapter registered for provider '" <> provider_value provider <> "'."))
    | some adapter ↦
        if adapter.is_configured
        then ok adapter
        else raised
            (refused provider ("Provider '" <> provider_value provider <> "' is not configured."))
  ]

  -- Whether the adapter of the candidate is there and configured.
  abbrev pub is_usable : ProviderName → Adapters W → Bool
  is_usable provider adapters = elim (lookup provider adapters) [
    | none ↦ false
    | some adapter ↦ adapter.is_configured
  ]

  -- The candidate for the fallback, if the conditions of the source hold for it.
  unfoldable pub fallback_candidate :
      ModelRequest → GatewayConfig → Adapters W → ProviderName → Option ProviderName
  fallback_candidate request config adapters primary = elim config.fallback_provider [
    | none ↦ none
    | some candidate ↦
        if request.allow_fallback
          && (config.enable_fallback
              && (not (candidate == primary) && is_usable candidate adapters))
        then some candidate
        else none
  ]

  -- `SimpleRoutingPolicy.select_route`
  unfoldable pub select_route :
      ModelRequest → GatewayConfig → Adapters W → Result GatewayError RouteDecision
  unfolding require_configured_adapter primary_model_of fallback_candidate fallback_model_of
  select_route request config adapters = do
    let tier = select_tier request
    let primary_provider = provider_or request.preferred_provider config.default_provider
    adapter ← require_configured_adapter primary_provider adapters
    primary_model ← primary_model_of request.preferred_model config primary_provider tier
    let fallback_provider = fallback_candidate request config adapters primary_provider
    fallback_model ← fallback_model_of fallback_provider config tier
    ok (record {
      primary_provider = primary_provider;
      primary_model = primary_model;
      fallback_provider = fallback_provider;
      fallback_model = fallback_model;
      task_category = request.task_category;
      risk_level = request.risk_level;
      policy_name = "simple_routing_v1";
      reason =
          "Selected "
          <> tier
          <> " tier for task='"
          <> task_value request.task_category
          <> "' risk='"
          <> risk_value request.risk_level
          <> "' using provider='"
          <> provider_value primary_provider
          <> "'.";
      fallback_allowed = is_some fallback_provider;
    })

-- `SimpleFallbackPolicy.should_fallback`
unfoldable pub should_fallback : ModelRequest → RouteDecision → ProviderError → Bool
should_fallback request decision error =
    request.allow_fallback
    && (decision.fallback_allowed
        && (is_some decision.fallback_provider
            && (is_some decision.fallback_model && error.retryable)))
