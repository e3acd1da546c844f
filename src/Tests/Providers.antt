-- ===== src/Tests/Providers.antt =====
-- Runs of packages/gateway/src/gateway/providers and of config.py on concrete clients and
-- environments, and the witnesses of their theorems.
use governed_agent_platform.Prelude.{
  ℕ, suc, ◌-◌, ◌≡◌, refl, String, true, none, some, List, [], ◌∷◌, ◌==◌, string_eq, if◌then◌else◌,
  Value, cons, nil, as_dict, arith, inr,
}
use governed_agent_platform.Prelude.Dict.{lookup}
use governed_agent_platform.Prelude.Exec.{ok, raised}
use governed_agent_platform.Gateway.Types.{
  openai, anthropic, mock, provider_eq, general, high, ModelRequest, RouteDecision, provider_of,
}
use governed_agent_platform.Gateway.Config.{ProviderConfig, GatewayConfig, model_for_tier}
use governed_agent_platform.Gateway.Policies.{
  Adapters, select_tier, select_route, fallback_candidate, fallback_model_of,
  require_configured_adapter, primary_model_of, tier_model, provider_config,
}
use governed_agent_platform.Gateway.Router.{AiGateway, generate}
use governed_agent_platform.Gateway.Routes.{Answers}
use governed_agent_platform.Gateway.Config.Environment.{
  Environment, from_env, read_optional_provider,
}
use governed_agent_platform.Gateway.Config.Complete.{IsRead, from_env-IsRead}
use governed_agent_platform.Gateway.Providers.Http.{http_status_error, HttpLibrary, exchange}
use governed_agent_platform.Gateway.Providers.OpenAi.{openai_adapter, openai_exchange, output_parts}
use governed_agent_platform.Gateway.Providers.Anthropic.{anthropic_adapter}
use governed_agent_platform.Gateway.Providers.Mock.{MockProviderBehavior, mock_adapter}
use governed_agent_platform.Gateway.Providers.Errors.{
  IsOpenAiLegible, IsAnthropicLegible, Tells, openai_posted, anthropic_posted, adapters-Tell,
}
use governed_agent_platform.Gateway.Providers.Retries.{generate-Answers_down}

abbrev show : ℕ → String
show n = "503"

-- The responses are statuses: a server that is busy.
abbrev library : HttpLibrary ℕ ℕ ℕ
library = record {
  post = λ path headers body w. (ok 503, suc w);
  raise_for_status = λ status. raised (http_status_error status);
  json = λ status. raised "JSONDecodeError";
  perf_counter = λ w. (w, w);
  milliseconds = λ a b. b - a;
  int_of = λ v. ok 0;
}

abbrev keyed : ProviderConfig
keyed = record {
  api_key = some "key";
  base_url = none;
  timeout_seconds = "30.0";
  default_model = "gpt";
  fast_model = "gpt";
  strong_model = "gpt";
}

abbrev request : ModelRequest
request = record {
  prompt = "Summarize.";
  task_category = general;
  risk_level = high;
  tenant_id = "tenant-a";
  temperature = none;
  max_output_tokens = some 64;
  allow_fallback = true;
  preferred_provider = none;
  preferred_model = none;
  metadata = [];
}

adapters-Tell_example :
    Tells openai "gpt"
      (IsOpenAiLegible library)
      true
      0
      (openai_posted library show keyed request "gpt" 0)
      ((openai_adapter library show keyed).generate request "gpt" 0)
    × Tells anthropic "gpt"
        (IsAnthropicLegible library)
        true
        0
        (anthropic_posted library show keyed request "gpt" 0)
        ((anthropic_adapter library show keyed).generate request "gpt" 0)
adapters-Tell_example = adapters-Tell library show keyed request "gpt" 0

-- The texts of the output blocks are joined; a block of another type gives none.
joined :
    output_parts (
      cons
        (as_dict (
          (
            "content",
            Value.list (
                cons
                  (as_dict (("type", Value.str "output_text") ∷ ("text", Value.str "done") ∷ []))
                  (cons (as_dict (("type", Value.str "refusal") ∷ [])) nil)),
          )
          ∷ []))
        nil)
    ≡ "done" ∷ []
unfolding output_parts as_dict
joined = refl

abbrev words : String → List String
words s = s ∷ []

abbrev behavior : MockProviderBehavior
behavior = record {
  prefix = "mock-response";
  retryable_failure_count = 2;
  non_retryable_failure_count = 1;
}

abbrev config : GatewayConfig
config = record {
  default_provider = openai;
  fallback_provider = some mock;
  enable_fallback = true;
  providers = (openai, keyed) ∷ (anthropic, keyed) ∷ (mock, keyed) ∷ [];
}

abbrev steady : MockProviderBehavior
steady = record {
  prefix = "mock-response";
  retryable_failure_count = 0;
  non_retryable_failure_count = 0;
}

abbrev adapters : Adapters ℕ
adapters =
    (openai, openai_adapter library show keyed)
    ∷ (mock, mock_adapter words mock steady (λ w. w) (λ n w. n))
    ∷ []

abbrev gateway : AiGateway ℕ
gateway = record { adapters = adapters; config = config; route_decision_recorder = none }

abbrev decision : RouteDecision
decision = record {
  primary_provider = openai;
  primary_model = "gpt";
  fallback_provider = some mock;
  fallback_model = some "gpt";
  task_category = general;
  risk_level = high;
  policy_name = "simple_routing_v1";
  reason = "Selected strong tier for task='general' risk='high' using provider='openai'.";
  fallback_allowed = true;
}

selected : select_route request config adapters ≡ ok decision
unfolding select_route select_tier require_configured_adapter primary_model_of fallback_candidate
    fallback_model_of tier_model provider_config model_for_tier lookup openai_adapter mock_adapter
selected = refl

generate-Answers_down_example : Answers (generate gateway request 0).0
unfolding lookup openai_exchange exchange
generate-Answers_down_example =
    generate-Answers_down library show keyed words "mock-response" (λ w. w) (λ n w. n) gateway
      request decision selected refl refl refl refl refl (λ w. inr (omega arith)) (λ d w. tt) 0

abbrev environment : Environment
environment = record {
  getenv = λ name. if name == "AI_GATEWAY_FALLBACK_PROVIDER" then some "mock" else none;
  lower = λ s. s;
  timeout_of = λ s. ok s;
}

from_env-IsRead_example : IsRead environment (from_env environment)
from_env-IsRead_example = from_env-IsRead environment

fallback_read : read_optional_provider environment "AI_GATEWAY_FALLBACK_PROVIDER" ≡ ok (some mock)
unfolding read_optional_provider provider_of
fallback_read = refl
