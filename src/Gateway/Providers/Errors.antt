-- ===== src/Gateway/Providers/Errors.antt =====
-- packages/gateway/src/gateway/providers: what the calls of the OpenAI and Anthropic adapters report.
use governed_agent_platform.Prelude.{
  ℕ, String, Bool, true, false, ◌≡◌, refl, ◌≤◌, ◌⊎◌, ◌↔◌, inl, inr, Option, none, some, id_eq,
  arith, Bool-cases, List, [], ◌∷◌, All, Value, Fields, end,
}
use governed_agent_platform.Prelude.Exec.{Result, ok, raised, Exec, continue}
use governed_agent_platform.Gateway.Types.{
  ProviderName, openai, anthropic, ModelRequest, ModelResponse, GatewayError, provider_error,
  key_error, other,
}
use governed_agent_platform.Gateway.Config.{ProviderConfig}
use governed_agent_platform.Gateway.Providers.Http.{
  HttpException, timeout_exception, http_status_error, http_error, other_exception, HttpLibrary,
  has_key, except_http, translated, get, get_or, optional_text, usage_count,
}
use governed_agent_platform.Gateway.Providers.OpenAi.{
  openai_response, openai_exchange, openai_call, openai_adapter,
}
use governed_agent_platform.Gateway.Providers.Anthropic.{
  anthropic_response, anthropic_exchange, anthropic_call, anthropic_adapter,
}

-- A failure that another try may mend: a timeout, a failed transport, and the statuses of a busy or
-- failing server.
abbrev pub MayMend : HttpException → Type 0
MayMend timeout_exception = Unit
MayMend http_error = Unit
MayMend (http_status_error status) = (status ≡ 429) ⊎ (500 ≤ status)
MayMend (other_exception e) = ⊥

-- The status that the error tells.
abbrev pub status_of : HttpException → Option ℕ
status_of (http_status_error status) = some status
status_of x = none

-- How an exception of the call is reported: one of the client's as an error of the provider, any
-- other one as it is.
abbrev pub Translates : ProviderName → String → HttpException → GatewayError → Type 0
Translates p model (other_exception e) (other t) = e ≡ t
Translates p model (other_exception e) t = ⊥
Translates p model x (provider_error e) =
    (e.provider ≡ p)
    × ((e.model ≡ some model)
        × ((e.status_code ≡ status_of x) × ((e.retryable ≡ true) ↔ MayMend x)))
Translates p model x t = ⊥

-- A response that the adapters can read: its JSON is an object with an object of the usage, if any,
-- whose counts are numbers, and its reason to stop, if any, is a text.
pub record IsLegible {W R F : Type 0} (l : HttpLibrary W R F) (counts : List String) (stop : String)
    (response : R) : Type 0 where
  pub body : Fields
  pub usage : Fields
  pub stop_reason : Option String
  pub parsed : l.json response ≡ ok (Value.dict body)
  pub used : get_or "usage" (Value.dict end) body ≡ Value.dict usage
  pub counted : All (λ key. (n : ℕ) × (usage_count l key usage ≡ ok n)) counts
  pub stopped : optional_text (get stop body) ≡ ok stop_reason

-- An answer of the provider and its model.
abbrev pub IsAnswer : ProviderName → String → Result GatewayError ModelResponse → Type 0
IsAnswer p model (ok x) = (x.provider ≡ p) × (x.model ≡ model)
IsAnswer p model (raised e) = ⊥

-- What is read from a response: an answer of the provider and its model, or an exception that is no
-- error of a provider, only where the response is not legible.
abbrev pub ReadBy : ProviderName → String → Type 0 → Result GatewayError ModelResponse → Type 0
ReadBy p model legible (ok x) = (x.provider ≡ p) × (x.model ≡ model)
ReadBy p model legible (raised (other e)) = ¬ legible
ReadBy p model legible (raised e) = ⊥

-- No error of a provider.
abbrev IsPlain : ProviderName → String → Result GatewayError ModelResponse → Type 0
IsPlain p model (ok x) = (x.provider ≡ p) × (x.model ≡ model)
IsPlain p model (raised (other e)) = Unit
IsPlain p model (raised e) = ⊥

reads :
    (p : ProviderName) (model : String) (legible : Type 0) (r : Result GatewayError ModelResponse)
    → (legible → IsAnswer p model r)
    → IsPlain p model r
    → ReadBy p model legible r
reads p model legible (ok x) f h = h
reads p model legible (raised (other e)) f h = f
reads p model legible (raised (provider_error e)) f h = h
reads p model legible (raised (key_error e)) f h = h

module _ {R : Type 0} where
  -- What a call reports of its exchange.
  abbrev pub Reports :
      ProviderName
      → String
      → (R → Type 0)
      → Result HttpException R
      → Result GatewayError ModelResponse
      → Type 0
  Reports p model legible (ok response) r = ReadBy p model (legible response) r
  Reports p model legible (raised x) (raised e) = Translates p model x e
  Reports p model legible (raised x) (ok a) = ⊥

except_http_lem :
    (show : ℕ → String) (p : ProviderName) (label model : String) (x : HttpException)
    → Translates p model x (except_http show p label model x)
unfolding except_http
except_http_lem show p label model timeout_exception = (refl, (refl, (refl, (λ h. tt, λ h. refl))))
except_http_lem show p label model http_error = (refl, (refl, (refl, (λ h. tt, λ h. refl))))
except_http_lem show p label model (http_status_error status) =
    (refl, (refl, (refl, (λ h. ground arith, λ h. ground arith))))
except_http_lem show p label model (other_exception e) = refl

-- A refusal by an adapter that has no key: an error of its own that no other try mends.
abbrev pub RefusedBy : ProviderName → String → Result GatewayError ModelResponse → Type 0
RefusedBy p model (raised (provider_error e)) =
    (e.provider ≡ p) × ((e.model ≡ some model) × (e.retryable ≡ false))
RefusedBy p model r = ⊥

module _ {W R : Type 0} where
  -- What `generate` reports, from the world `w` on: of the exchange where there is a key, and a
  -- refusal that leaves the world alone where there is none.
  abbrev pub Tells :
      ProviderName
      → String
      → (R → Type 0)
      → Bool
      → W
      → Result HttpException R
      → Result GatewayError ModelResponse × W
      → Type 0
  Tells p model legible true w posted (r, v) = Reports p model legible posted r
  Tells p model legible false w posted (r, v) = (v ≡ w) × RefusedBy p model r

module _ {W R F : Type 0} (l : HttpLibrary W R F) where
  abbrev pub IsOpenAiLegible : R → Type 0
  IsOpenAiLegible = IsLegible l ("input_tokens" ∷ "output_tokens" ∷ "total_tokens" ∷ []) "status"

  abbrev pub IsAnthropicLegible : R → Type 0
  IsAnthropicLegible = IsLegible l ("input_tokens" ∷ "output_tokens" ∷ []) "stop_reason"

module _ {W R F : Type 0} (l : HttpLibrary W R F) (show : ℕ → String) (config : ProviderConfig)
    (request : ModelRequest) (model : String) where
  openai_response-IsPlain :
      (t : ℕ) (response : R) (w : W)
      → IsPlain openai model (openai_response l show config model t response w).0
  unfolding openai_response
  openai_response-IsPlain t response w = ground arith

  anthropic_response-IsPlain :
      (t : ℕ) (response : R) (w : W)
      → IsPlain anthropic model (anthropic_response l show config model t response w).0
  unfolding anthropic_response
  anthropic_response-IsPlain t response w = ground arith

  openai_response-IsAnswer :
      (t : ℕ) (response : R) (w : W)
      → IsOpenAiLegible l response
      → IsAnswer openai model (openai_response l show config model t response w).0
  unfolding openai_response
  openai_response-IsAnswer t response w h =
      let ((a, input), ((b, output), ((c, total), _))) = h.counted in
      ground (arith, h.parsed, h.used, input, output, total, h.stopped)

  anthropic_response-IsAnswer :
      (t : ℕ) (response : R) (w : W)
      → IsAnthropicLegible l response
      → IsAnswer anthropic model (anthropic_response l show config model t response w).0
  unfolding anthropic_response
  anthropic_response-IsAnswer t response w h =
      let ((a, input), ((b, output), _)) = h.counted in
      ground (arith, h.parsed, h.used, input, output, h.stopped)

  openai_response-ReadBy :
      (t : ℕ) (response : R) (w : W)
      → ReadBy openai model
          (IsOpenAiLegible l response)
          (openai_response l show config model t response w).0
  openai_response-ReadBy t response w =
      reads openai model _ _ (openai_response-IsAnswer t response w)
        (openai_response-IsPlain t response w)

  anthropic_response-ReadBy :
      (t : ℕ) (response : R) (w : W)
      → ReadBy anthropic model
          (IsAnthropicLegible l response)
          (anthropic_response l show config model t response w).0
  anthropic_response-ReadBy t response w =
      reads anthropic model _ _ (anthropic_response-IsAnswer t response w)
        (anthropic_response-IsPlain t response w)

  -- The exchanges that the two adapters make after they have read the clock.
  abbrev pub openai_posted : W → Result HttpException R
  openai_posted w = (openai_exchange l show config request model (l.perf_counter w).1).0

  abbrev pub anthropic_posted : W → Result HttpException R
  anthropic_posted w = (anthropic_exchange l show config request model (l.perf_counter w).1).0

  -- A `try` whose exceptions are translated, before a response that is read.
  try_exchange-Reports :
      (p : ProviderName) (legible : R → Type 0) (f : HttpException → GatewayError)
      (k : R → Exec W GatewayError ModelResponse)
      → ((x : HttpException) → Translates p model x (f x))
      → ((response : R) (v : W) → ReadBy p model (legible response) (k response v).0)
      → (r : Result HttpException R) (v : W)
      → Reports p model legible r (continue (translated l f r) k v).0
  try_exchange-Reports p legible f k translates reads (ok response) v = reads response v
  try_exchange-Reports p legible f k translates reads (raised x) v = translates x

  pub openai_call-Reports :
      (w : W)
      → Reports openai model
          (IsOpenAiLegible l)
          (openai_posted w)
          (openai_call l show config request model w).0
  unfolding openai_call
  openai_call-Reports w =
      let read : (response : R) (v : W)
          → ReadBy openai model (IsOpenAiLegible l response)
              (openai_response l show config model
                (l.milliseconds (l.perf_counter w).0 (l.perf_counter v).0) response
                (l.perf_counter v).1).0 =
        λ response v. openai_response-ReadBy _ response (l.perf_counter v).1 in
      try_exchange-Reports openai (IsOpenAiLegible l) _ _
        (except_http_lem show openai "OpenAI" model) read (openai_posted w) _

  anthropic_call-Reports :
      (w : W)
      → Reports anthropic model
          (IsAnthropicLegible l)
          (anthropic_posted w)
          (anthropic_call l show config request model w).0
  unfolding anthropic_call
  anthropic_call-Reports w =
      let read : (response : R) (v : W)
          → ReadBy anthropic model (IsAnthropicLegible l response)
              (anthropic_response l show config model
                (l.milliseconds (l.perf_counter w).0 (l.perf_counter v).0) response
                (l.perf_counter v).1).0 =
        λ response v. anthropic_response-ReadBy _ response (l.perf_counter v).1 in
      try_exchange-Reports anthropic (IsAnthropicLegible l) _ _
        (except_http_lem show anthropic "Anthropic" model) read (anthropic_posted w) _

  -- What the OpenAI and the Anthropic adapter report. Without a key: an error of the provider and
  -- its model that is not retryable, with no call made. With a key: an answer of the provider and
  -- its model, if the call and the check of its status succeed and the response is legible, and for
  -- a response that is not, an answer or an exception that is no provider's error; where the call
  -- or the check fails, an error of the provider and its model with the status, if there is one,
  -- which is retryable just for a timeout, a failed transport, and the statuses 429 and from 500 on.
  -- An exception that is not the client's passes as it is. A response is legible if its JSON is an
  -- object, whose usage, if any, is an object with numbers for the counts that the adapter reads,
  -- and whose reason to stop, if any, is a text.
  pub adapters-Tell :
      (w : W)
      → Tells openai model
          (IsOpenAiLegible l)
          (has_key config.api_key)
          w
          (openai_posted w)
          ((openai_adapter l show config).generate request model w)
        × Tells anthropic model
            (IsAnthropicLegible l)
            (has_key config.api_key)
            w
            (anthropic_posted w)
            ((anthropic_adapter l show config).generate request model w)
  unfolding openai_adapter anthropic_adapter
  adapters-Tell w = elim (Bool-cases (has_key config.api_key)) [
    | inl key ↦ rw key (openai_call-Reports w, anthropic_call-Reports w)
    | inr bare ↦ rw bare ((refl, (refl, (refl, refl))), (refl, (refl, (refl, refl))))
  ]
