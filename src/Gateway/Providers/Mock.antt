-- ===== src/Gateway/Providers/Mock.antt =====
-- packages/gateway/src/gateway/providers/mock_provider.py: the counter of the calls is a part of the
-- world, which `calls` reads and `put` writes. `words` is `str.split`, and `show` writes a number.
use governed_agent_platform.Prelude.{
  ℕ, suc, ◌+◌, String, ◌<>◌, Bool, true, false, none, some, List, [], ◌∷◌, if◌then◌else◌, leb,
  length, Value,
}
use governed_agent_platform.Prelude.Exec.{Result, ok, raised, Exec}
use governed_agent_platform.Gateway.Types.{
  ProviderName, provider_value, task_value, risk_value, ModelRequest, ModelResponse, GatewayError,
  provider_error, ProviderAdapter,
}

pub record MockProviderBehavior : Type 0 where
  pub prefix : String
  pub retryable_failure_count : ℕ
  pub non_retryable_failure_count : ℕ

abbrev pub mock_failure : ProviderName → String → String → Bool → String → GatewayError
mock_failure name model message retryable code = provider_error (record {
  provider = name;
  model = some model;
  message = message;
  retryable = retryable;
  status_code = none;
  error_code = some code;
})

module _ (words : String → List String) (name : ProviderName) (b : MockProviderBehavior) where
  abbrev pub mock_output : ModelRequest → String → String
  mock_output request model =
      b.prefix
      <> "|provider="
      <> provider_value name
      <> "|model="
      <> model
      <> "|task="
      <> task_value request.task_category
      <> "|risk="
      <> risk_value request.risk_level
      <> "|prompt="
      <> request.prompt

  -- The answer of the call with the number `n`; a token costs a millionth of a dollar.
  unfoldable pub mock_response : ModelRequest → String → ℕ → ModelResponse
  mock_response request model n =
      let output : String = mock_output request model in
      let input_tokens : ℕ = length (words request.prompt) in
      let output_tokens : ℕ = length (words output) in
      record {
        provider = name;
        model = model;
        output_text = output;
        usage = record {
          input_tokens = input_tokens;
          output_tokens = output_tokens;
          total_tokens = input_tokens + output_tokens;
          latency_ms = 5;
          estimated_cost_usd = some (input_tokens + output_tokens);
        };
        stop_reason = some "completed";
        route_decision = none;
        metadata = ("call_count", Value.int n) ∷ [];
      }

  -- The result of the call with the number `n`.
  unfoldable pub mock_result : ModelRequest → String → ℕ → Result GatewayError ModelResponse
  unfolding mock_response
  mock_result request model n =
      if leb n b.non_retryable_failure_count
      then raised (
          mock_failure name model "Mock provider non-retryable failure." false "mock_non_retryable")
      else if leb n (b.non_retryable_failure_count + b.retryable_failure_count)
      then raised (mock_failure name model "Mock provider retryable failure." true "mock_retryable")
      else ok (mock_response request model n)

  module _ {W : Type 0} (calls : W → ℕ) (put : ℕ → W → W) where
    unfoldable pub mock_generate : ModelRequest → String → Exec W GatewayError ModelResponse
    mock_generate request model w = let n = suc (calls w) in (mock_result request model n, put n w)

    -- `MockProvider`
    unfoldable pub mock_adapter : ProviderAdapter W
    mock_adapter = record { is_configured = true; generate = mock_generate }
