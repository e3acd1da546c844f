-- ===== src/Gateway/Providers/Anthropic.antt =====
-- packages/gateway/src/gateway/providers/anthropic_provider.py. The client, the clock and `int` are
-- parameters, and `show` writes a number.
use governed_agent_platform.Prelude.{
  ℕ, zero, suc, ◌+◌, String, false, Option, none, some, List, [], ◌∷◌, ◌++◌, if◌then◌else◌, Value,
  Items, nil, cons, Fields, end, Payload, as_dict,
}
use governed_agent_platform.Prelude.Exec.{Exec, pure, raise, lift, ◌>>=◌}
use governed_agent_platform.Gateway.Types.{
  anthropic, ModelRequest, ModelResponse, GatewayError, ProviderAdapter,
}
use governed_agent_platform.Gateway.Config.{ProviderConfig}
use governed_agent_platform.Gateway.Providers.Http.{
  HttpException, HttpLibrary, has_key, key_or_empty, get, get_or, items_of, block_part, join,
  failing, object_of, optional_text, http_failure, except_http, exchange, counted, try_exchange,
  usage_count,
}

unfoldable pub block_parts : Items → List String
unfolding block_part
block_parts nil = []
block_parts (cons b bs) = block_part "text" b ++ block_parts bs

abbrev pub joined_content : Option Items → String
joined_content none = ""
joined_content (some bs) = join (block_parts bs)

-- `_extract_anthropic_text`
unfoldable pub extract_anthropic_text : Fields → String
unfolding get block_parts
extract_anthropic_text d = joined_content (items_of (get_or "content" (Value.list nil) d))

-- `max_output_tokens or 512`
abbrev pub max_tokens : Option ℕ → ℕ
max_tokens none = 512
max_tokens (some zero) = 512
max_tokens (some (suc n)) = suc n

abbrev pub temperature_field : Option String → Payload
temperature_field none = []
temperature_field (some t) = ("temperature", Value.literal t) ∷ []

-- The body of the call.
unfoldable pub anthropic_payload : ModelRequest → String → Payload
anthropic_payload request model =
    ("model", Value.str model)
    ∷ (
      "messages",
      Value.list (
          cons (as_dict (("role", Value.str "user") ∷ ("content", Value.str request.prompt) ∷ []))
            nil),
    )
    ∷ ("max_tokens", Value.int (max_tokens request.max_output_tokens))
    ∷ temperature_field request.temperature

abbrev pub anthropic_headers : ProviderConfig → List (String × String)
anthropic_headers config =
    ("x-api-key", key_or_empty config.api_key)
    ∷ ("anthropic-version", "2023-06-01")
    ∷ ("content-type", "application/json")
    ∷ []

module _ {W R F : Type 0} (l : HttpLibrary W R F) (show : ℕ → String)
    (config : ProviderConfig) where
  -- The answer that is read from a response.
  unfoldable pub anthropic_response : String → ℕ → R → Exec W GatewayError ModelResponse
  anthropic_response model latency_ms response = do
    body ← lift (failing (l.json response))
    d ← lift (object_of body)
    usage ← lift (object_of (get_or "usage" (Value.dict end) d))
    input_tokens ← lift (usage_count l "input_tokens" usage)
    output_tokens ← lift (usage_count l "output_tokens" usage)
    stop_reason ← lift (optional_text (get "stop_reason" d))
    pure (record {
      provider = anthropic;
      model = model;
      output_text = extract_anthropic_text d;
      usage = record {
        input_tokens = input_tokens;
        output_tokens = output_tokens;
        total_tokens = input_tokens + output_tokens;
        latency_ms = latency_ms;
        estimated_cost_usd = none;
      };
      stop_reason = stop_reason;
      route_decision = none;
      metadata = ("message_id", get_or "id" Value.null d) ∷ [];
    })

  -- The call of the model's API.
  unfoldable pub anthropic_exchange : ModelRequest → String → Exec W HttpException R
  anthropic_exchange request model =
      exchange l "/messages" (anthropic_headers config) (anthropic_payload request model)

  abbrev pub anthropic_error : String → HttpException → GatewayError
  anthropic_error model = except_http show anthropic "Anthropic" model

  -- `generate` of a configured adapter
  unfoldable pub anthropic_call : ModelRequest → String → Exec W GatewayError ModelResponse
  anthropic_call request model = do
    started_at ← counted l
    response ← try_exchange l (anthropic_error model) (anthropic_exchange request model)
    ended_at ← counted l
    anthropic_response model (l.milliseconds started_at ended_at) response

  -- `AnthropicProvider`
  unfoldable pub anthropic_adapter : ProviderAdapter W
  anthropic_adapter = record {
    is_configured = has_key config.api_key;
    generate = λ request model.
        if has_key config.api_key
        then anthropic_call request model
        else raise (http_failure anthropic model "Anthropic API key is not configured." false none);
  }
