-- ===== src/Gateway/Providers/OpenAi.antt =====
-- packages/gateway/src/gateway/providers/openai_provider.py. The client, the clock and `int` are
-- parameters, and `show` writes a number.
use governed_agent_platform.Prelude.{
  ℕ, String, ◌<>◌, false, Option, none, some, List, [], ◌∷◌, ◌++◌, if◌then◌else◌, Value, Items, nil,
  cons, Fields, end, Payload,
}
use governed_agent_platform.Prelude.Exec.{Exec, pure, raise, lift, ◌>>=◌}
use governed_agent_platform.Gateway.Types.{
  openai, ModelRequest, ModelResponse, GatewayError, ProviderAdapter,
}
use governed_agent_platform.Gateway.Config.{ProviderConfig}
use governed_agent_platform.Gateway.Providers.Http.{
  HttpException, HttpLibrary, has_key, key_or_empty, get, get_or, items_of, block_part, join,
  failing, object_of, optional_text, http_failure, except_http, exchange, counted, try_exchange,
  usage_count,
}

-- The blocks of a content.
unfoldable pub block_parts : Items → List String
unfolding block_part
block_parts nil = []
block_parts (cons b bs) = block_part "output_text" b ++ block_parts bs

abbrev pub content_parts : Option Items → List String
content_parts none = []
content_parts (some bs) = block_parts bs

unfoldable pub item_parts : Value → List String
unfolding get block_parts
item_parts (Value.dict d) = content_parts (items_of (get_or "content" (Value.list nil) d))
item_parts v = []

unfoldable pub output_parts : Items → List String
unfolding item_parts
output_parts nil = []
output_parts (cons v vs) = item_parts v ++ output_parts vs

abbrev pub joined_output : Option Items → String
joined_output none = ""
joined_output (some vs) = join (output_parts vs)

abbrev pub output_or : Option Value → Fields → String
output_or (some (Value.str s)) d = s
output_or v d = joined_output (items_of (get_or "output" (Value.list nil) d))

-- `_extract_openai_text`
unfoldable pub extract_openai_text : Fields → String
unfolding get
extract_openai_text d = output_or (get "output_text" d) d

abbrev pub temperature_field : Option String → Payload
temperature_field none = []
temperature_field (some t) = ("temperature", Value.literal t) ∷ []

abbrev pub token_field : Option ℕ → Payload
token_field none = []
token_field (some n) = ("max_output_tokens", Value.int n) ∷ []

-- The body of the call.
unfoldable pub openai_payload : ModelRequest → String → Payload
openai_payload request model =
    ("model", Value.str model)
    ∷ ("input", Value.str request.prompt)
    ∷ (temperature_field request.temperature ++ token_field request.max_output_tokens)

-- `"Authorization": f"Bearer {api_key}"`
abbrev pub openai_headers : ProviderConfig → List (String × String)
openai_headers config =
    ("Authorization", "Bearer " <> key_or_empty config.api_key)
    ∷ ("Content-Type", "application/json")
    ∷ []

module _ {W R F : Type 0} (l : HttpLibrary W R F) (show : ℕ → String)
    (config : ProviderConfig) where
  -- The answer that is read from a response.
  unfoldable pub openai_response : String → ℕ → R → Exec W GatewayError ModelResponse
  openai_response model latency_ms response = do
    body ← lift (failing (l.json response))
    d ← lift (object_of body)
    usage ← lift (object_of (get_or "usage" (Value.dict end) d))
    input_tokens ← lift (usage_count l "input_tokens" usage)
    output_tokens ← lift (usage_count l "output_tokens" usage)
    total_tokens ← lift (usage_count l "total_tokens" usage)
    stop_reason ← lift (optional_text (get "status" d))
    pure (record {
      provider = openai;
      model = model;
      output_text = extract_openai_text d;
      usage = record {
        input_tokens = input_tokens;
        output_tokens = output_tokens;
        total_tokens = total_tokens;
        latency_ms = latency_ms;
        estimated_cost_usd = none;
      };
      stop_reason = stop_reason;
      route_decision = none;
      metadata = ("response_id", get_or "id" Value.null d) ∷ [];
    })

  -- The call of the model's API.
  unfoldable pub openai_exchange : ModelRequest → String → Exec W HttpException R
  openai_exchange request model =
      exchange l "/responses" (openai_headers config) (openai_payload request model)

  abbrev pub openai_error : String → HttpException → GatewayError
  openai_error model = except_http show openai "OpenAI" model

  -- `generate` of a configured adapter
  unfoldable pub openai_call : ModelRequest → String → Exec W GatewayError ModelResponse
  openai_call request model = do
    started_at ← counted l
    response ← try_exchange l (openai_error model) (openai_exchange request model)
    ended_at ← counted l
    openai_response model (l.milliseconds started_at ended_at) response

  -- `OpenAIProvider`
  unfoldable pub openai_adapter : ProviderAdapter W
  openai_adapter = record {
    is_configured = has_key config.api_key;
    generate = λ request model.
        if has_key config.api_key
        then openai_call request model
        else raise (http_failure openai model "OpenAI API key is not configured." false none);
  }
