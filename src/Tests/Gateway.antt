-- ===== src/Tests/Gateway.antt =====
-- Runs of packages/gateway/src/gateway on concrete providers, and the witnesses of its theorems.
use governed_agent_platform.Prelude.{
  ℕ, suc, ◌≤◌, ◌+◌, ◌≡◌, refl, true, none, some, String, [], ◌∷◌, arith, string_eq, subst,
  some-injective,
}
use governed_agent_platform.Prelude.Dict.{lookup}
use governed_agent_platform.Prelude.Exec.{ok, raised}
use governed_agent_platform.Gateway.Types.{
  ProviderName, openai, anthropic, mock, provider_eq, general, high, ModelRequest, ModelResponse,
  RouteDecision, ProviderError, provider_error, ProviderAdapter,
}
use governed_agent_platform.Gateway.Config.{ProviderConfig, GatewayConfig, model_for_tier}
use governed_agent_platform.Gateway.Policies.{
  Adapters, select_tier, select_route, fallback_candidate, fallback_model_of,
  require_configured_adapter, primary_model_of, is_some, tier_model, provider_config,
  should_fallback,
}
use governed_agent_platform.Gateway.Router.{
  AiGateway, attach_route_metadata, get_adapter, route, fall_back, except_provider_error, serve,
  generate,
}
use governed_agent_platform.Gateway.Routes.{Answers, RouteFits, select_route-Fits}
use governed_agent_platform.Gateway.Fallback.{
  Mends, ToldBy, generate-ToldBy, generate-calls, generate-Answers,
}

abbrev models : String → ProviderConfig
models base = record {
  api_key = none;
  base_url = none;
  timeout_seconds = "30.0";
  default_model = base;
  fast_model = base;
  strong_model = base;
}

abbrev config : GatewayConfig
config = record {
  default_provider = openai;
  fallback_provider = some mock;
  enable_fallback = true;
  providers = (openai, models "gpt") ∷ (anthropic, models "claude") ∷ (mock, models "mock") ∷ [];
}

abbrev request : ModelRequest
request = record {
  prompt = "Summarize.";
  task_category = general;
  risk_level = high;
  tenant_id = "tenant-a";
  temperature = none;
  max_output_tokens = none;
  allow_fallback = true;
  preferred_provider = none;
  preferred_model = none;
  metadata = [];
}

abbrev busy : ProviderError
busy = record {
  provider = openai;
  model = some "gpt";
  message = "busy";
  retryable = true;
  status_code = some 503;
  error_code = none;
}

abbrev answer : ModelResponse
answer = record {
  provider = mock;
  model = "mock";
  output_text = "done";
  usage = record {
    input_tokens = 1;
    output_tokens = 1;
    total_tokens = 2;
    latency_ms = 5;
    estimated_cost_usd = none;
  };
  stop_reason = none;
  route_decision = none;
  metadata = [];
}

-- The world counts the calls: the first provider is busy, the second one answers.
abbrev adapters : Adapters ℕ
adapters =
    (
      openai,
      record { is_configured = true; generate = λ r m w. (raised (provider_error busy), suc w) },
    )
    ∷ (mock, record { is_configured = true; generate = λ r m w. (ok answer, suc w) })
    ∷ []

abbrev gateway : AiGateway ℕ
gateway = record { adapters = adapters; config = config; route_decision_recorder = none }

abbrev decision : RouteDecision
decision = record {
  primary_provider = openai;
  primary_model = "gpt";
  fallback_provider = some mock;
  fallback_model = some "mock";
  task_category = general;
  risk_level = high;
  policy_name = "simple_routing_v1";
  reason = "Selected strong tier for task='general' risk='high' using provider='openai'.";
  fallback_allowed = true;
}

selected : select_route request config adapters ≡ ok decision
unfolding select_route select_tier require_configured_adapter primary_model_of fallback_candidate
    fallback_model_of tier_model provider_config model_for_tier lookup
selected = refl

fallen_back :
    generate gateway request 0 ≡ (ok (attach_route_metadata answer decision true (some busy)), 2)
unfolding generate route serve get_adapter except_provider_error fall_back should_fallback
    select_route select_tier require_configured_adapter primary_model_of fallback_candidate
    fallback_model_of tier_model provider_config model_for_tier lookup
fallen_back = refl

configured : (p : ProviderName) → is_some (lookup p config.providers) ≡ true
unfolding lookup
configured openai = refl
configured anthropic = refl
configured mock = refl

select_route-Fits_example : RouteFits request config adapters decision
select_route-Fits_example = select_route-Fits request config adapters decision selected

generate-ToldBy_example :
    ToldBy adapters request (select_route request config adapters) (generate gateway request 0).0
generate-ToldBy_example = generate-ToldBy gateway request 0

counted :
    (p : ProviderName) (a : ProviderAdapter ℕ) (m : String) (w : ℕ)
    → lookup p adapters ≡ some a
    → (a.generate request m w).1 ≡ suc w
unfolding lookup
counted openai a m w h = subst (λ b. (b.generate request m w).1 ≡ suc w) (some-injective _ _ h) refl
counted anthropic a m w h = ground arith
counted mock a m w h = subst (λ b. (b.generate request m w).1 ≡ suc w) (some-injective _ _ h) refl

generate-calls_example : (generate gateway request 0).1 ≤ 2 + 0
generate-calls_example = generate-calls gateway request (λ w. w) counted (λ d w. refl) 0

first-Mends :
    (a : ProviderAdapter ℕ) (w : ℕ)
    → lookup openai adapters ≡ some a
    → Mends (a.generate request "gpt" w).0
unfolding lookup
first-Mends a w h = subst (λ b. Mends (b.generate request "gpt" w).0) (some-injective _ _ h) refl

second-Answers :
    (p : ProviderName) (a : ProviderAdapter ℕ) (m : String) (w : ℕ)
    → some mock ≡ some p
    → lookup p adapters ≡ some a
    → Answers (a.generate request m w).0
unfolding lookup
second-Answers openai a m w k h = ground arith
second-Answers anthropic a m w k h = ground arith
second-Answers mock a m w k h =
    subst (λ b. Answers (b.generate request m w).0) (some-injective _ _ h) tt

generate-Answers_example : Answers (generate gateway request 0).0
unfolding lookup
generate-Answers_example =
    generate-Answers gateway request decision selected first-Mends second-Answers (λ w. tt) refl 0
