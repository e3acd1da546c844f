-- ===== src/Gateway/Providers/Retries.antt =====
-- packages/gateway/src/gateway/providers: the order of the failures of the mock provider, and the
-- gateway over an OpenAI adapter whose API is down.
use governed_agent_platform.Prelude.{
  ℕ, zero, suc, ◌+◌, ◌≤◌, String, true, ◌≡◌, refl, ap, sym, ◌∙◌, subst, some-injective, some, List,
  [], ◌∷◌, string_eq, if◌then◌else◌, arith,
}
use governed_agent_platform.Prelude.Dict.{lookup}
use governed_agent_platform.Prelude.Exec.{Result, ok, raised}
use governed_agent_platform.Gateway.Types.{
  ProviderName, openai, mock, provider_eq, ModelRequest, ModelResponse, RouteDecision, GatewayError,
  provider_error, ProviderAdapter,
}
use governed_agent_platform.Gateway.Config.{ProviderConfig}
use governed_agent_platform.Gateway.Policies.{select_route}
use governed_agent_platform.Gateway.Router.{AiGateway, recorded, generate}
use governed_agent_platform.Gateway.Routes.{Answers}
use governed_agent_platform.Gateway.Fallback.{Mends, generate-Answers}
use governed_agent_platform.Gateway.Providers.Http.{
  HttpException, http_status_error, other_exception, HttpLibrary, has_key,
}
use governed_agent_platform.Gateway.Providers.OpenAi.{openai_adapter}
use governed_agent_platform.Gateway.Providers.Mock.{
  MockProviderBehavior, mock_result, mock_generate, mock_adapter,
}
use governed_agent_platform.Gateway.Providers.Errors.{
  MayMend, Translates, Reports, openai_call-Reports, openai_posted, IsOpenAiLegible,
}

-- How a call ends.
pub data Ending : Type 0 where
  refused transient answered failed : Ending

abbrev pub ending_of : Result GatewayError ModelResponse → Ending
ending_of (ok x) = answered
ending_of (raised (provider_error e)) = if e.retryable then transient else refused
ending_of (raised e) = failed

-- The endings of `n` calls: `k` refusals, then `m` failures that a retry may mend, then answers.
abbrev pub schedule : ℕ → ℕ → ℕ → List Ending
schedule k m zero = []
schedule (suc k) m (suc n) = refused ∷ schedule k m n
schedule zero (suc m) (suc n) = transient ∷ schedule zero m n
schedule zero zero (suc n) = answered ∷ schedule zero zero n

module _ (words : String → List String) (name : ProviderName) (b : MockProviderBehavior)
    {W : Type 0} (calls : W → ℕ) (put : ℕ → W → W) (request : ModelRequest) (model : String) where
  -- The endings of `n` calls, one after the other.
  unfoldable pub endings : ℕ → W → List Ending
  endings zero w = []
  endings (suc n) w =
      let (r, w') = mock_generate words name b calls put request model w in
      ending_of r ∷ endings n w'

  -- After `c` calls, `k` refusals and `m` transient failures are left.
  abbrev Left : ℕ → ℕ → ℕ → Type 0
  Left c (suc k) m = (b.non_retryable_failure_count ≡ c + suc k) × (m ≡ b.retryable_failure_count)
  Left c zero (suc m) =
      (b.non_retryable_failure_count + b.retryable_failure_count ≡ c + suc m)
      × (b.non_retryable_failure_count ≤ c)
  Left c zero zero = b.non_retryable_failure_count + b.retryable_failure_count ≤ c

  Left-refused : (c k m : ℕ) → Left c (suc k) m → Left (suc c) k m
  Left-refused c (suc k) m h = ground arith
  Left-refused c zero (suc m) h = ground arith
  Left-refused c zero zero h = ground arith

  Left-transient : (c m : ℕ) → Left c zero (suc m) → Left (suc c) zero m
  Left-transient c (suc m) h = ground arith
  Left-transient c zero h = ground arith

  Left-first :
      (k m : ℕ) → k ≡ b.non_retryable_failure_count → m ≡ b.retryable_failure_count → Left 0 k m
  Left-first (suc k) m p q = ground arith
  Left-first zero (suc m) p q = ground arith
  Left-first zero zero p q = ground arith

  refused_lem :
      (c k m : ℕ)
      → Left c (suc k) m
      → ending_of (mock_result words name b request model (suc c)) ≡ refused
  unfolding mock_result
  refused_lem c k m h = ground arith

  transient_lem :
      (c m : ℕ)
      → Left c zero (suc m)
      → ending_of (mock_result words name b request model (suc c)) ≡ transient
  unfolding mock_result
  transient_lem c m h = ground arith

  answered_lem :
      (c : ℕ)
      → Left c zero zero
      → ending_of (mock_result words name b request model (suc c)) ≡ answered
  unfolding mock_result
  answered_lem c h = ground arith

  -- A mock provider without failures answers.
  pub mock_generate-Answers :
      b.non_retryable_failure_count + b.retryable_failure_count ≡ 0
      → (w : W) → Answers (mock_generate words name b calls put request model w).0
  unfolding mock_generate mock_result
  mock_generate-Answers none_left w = ground arith

  module _ (calls-put : (n : ℕ) (w : W) → calls (put n w) ≡ n) where
    counted :
        (c : ℕ) (w : W)
        → calls w ≡ c
        → calls (mock_generate words name b calls put request model w).1 ≡ suc c
    unfolding mock_generate
    counted c w h = ground (arith, calls-put (suc (calls w)) w)

    ending_lem :
        (c : ℕ) (w : W) (e : Ending)
        → calls w ≡ c
        → ending_of (mock_result words name b request model (suc c)) ≡ e
        → ending_of (mock_generate words name b calls put request model w).0 ≡ e
    unfolding mock_generate
    ending_lem c w e h k = rw h k

    endings-Left : (n c k m : ℕ) (w : W) → calls w ≡ c → Left c k m → endings n w ≡ schedule k m n
    unfolding endings
    endings-Left zero c k m w h f = refl
    endings-Left (suc n) c (suc k) m w h f = cc (
      ending_lem c w refused h (refused_lem c k m f),
      endings-Left n (suc c) k m (mock_generate words name b calls put request model w).1
          (counted c w h) (Left-refused c k m f),
    )
    endings-Left (suc n) c zero (suc m) w h f = cc (
      ending_lem c w transient h (transient_lem c m f),
      endings-Left n (suc c) zero m (mock_generate words name b calls put request model w).1
          (counted c w h) (Left-transient c m f),
    )
    endings-Left (suc n) c zero zero w h f = cc (
      ending_lem c w answered h (answered_lem c f),
      endings-Left n (suc c) zero zero (mock_generate words name b calls put request model w).1
          (counted c w h) (ground arith),
    )

    -- The calls of a new mock provider first end in as many refusals as it was given, then in as many
    -- failures that a retry may mend, and every later call is answered.
    pub endings-eq-schedule :
        (n : ℕ) (w : W)
        → calls w ≡ 0
        → endings n w ≡ schedule b.non_retryable_failure_count b.retryable_failure_count n
    endings-eq-schedule n w h = endings-Left n 0 _ _ w h (Left-first _ _ refl refl)

-- A call that failed in a way that another try may mend.
abbrev pub IsDown : {R : Type 0} → Result HttpException R → Type 0
IsDown (ok response) = ⊥
IsDown (raised x) = MayMend x

translated-Mends :
    (p : ProviderName) (model : String) (x : HttpException) (e : GatewayError)
    → MayMend x
    → Translates p model x e
    → Mends (raised e)
translated-Mends p model (other_exception s) (provider_error e) h k = absurd h
translated-Mends p model (http_status_error s) (provider_error e) h k = k.1.1.1.1 h
translated-Mends p model _ (provider_error e) h k = k.1.1.1.1 tt
translated-Mends p model (other_exception s) _ h k = absurd h
translated-Mends p model _ _ h k = absurd k

reported-Mends :
    {R : Type 0} (p : ProviderName) (model : String) (legible : R → Type 0)
    (posted : Result HttpException R) (r : Result GatewayError ModelResponse)
    → IsDown posted
    → Reports p model legible posted r
    → Mends r
reported-Mends p model legible (ok response) r h k = absurd h
reported-Mends p model legible (raised x) (ok a) h k = tt
reported-Mends p model legible (raised x) (raised e) h k = translated-Mends p model x e h k

module _ {W R F : Type 0} (l : HttpLibrary W R F) (show : ℕ → String) (config : ProviderConfig)
    (words : String → List String) (prefix : String) (calls : W → ℕ) (put : ℕ → W → W)
    (g : AiGateway W) (request : ModelRequest) (d : RouteDecision)
    (selected : select_route request g.config g.adapters ≡ ok d) where
  -- A mock provider without failures.
  abbrev pub steady : MockProviderBehavior
  steady = record { prefix = prefix; retryable_failure_count = 0; non_retryable_failure_count = 0 }

  first-Mends :
      has_key config.api_key ≡ true
      → ((w : W) → IsDown (openai_posted l show config request d.primary_model w))
      → (w : W) → Mends ((openai_adapter l show config).generate request d.primary_model w).0
  unfolding openai_adapter
  first-Mends key down w = rw key (
      reported-Mends openai d.primary_model (IsOpenAiLegible l) _ _ (down w)
        (openai_call-Reports l show config request d.primary_model w))

  -- While the API of OpenAI is down, a request whose route is OpenAI with a fallback to a mock
  -- provider without failures is answered, where the recorder of routes does not fail.
  pub generate-Answers_down :
      d.primary_provider ≡ openai
      → d.fallback_provider ≡ some mock
      → lookup openai g.adapters ≡ some (openai_adapter l show config)
      → lookup mock g.adapters ≡ some (mock_adapter words mock steady calls put)
      → has_key config.api_key ≡ true
      → ((w : W) → IsDown (openai_posted l show config request d.primary_model w))
      → ((e : RouteDecision) (w : W) → Answers (recorded g.route_decision_recorder e w).0)
      → (w : W) → Answers (generate g request w).0
  unfolding mock_adapter
  generate-Answers_down primary fallback first second key down records w =
      let mends : (a : ProviderAdapter W) (v : W)
          → lookup d.primary_provider g.adapters ≡ some a
          → Mends (a.generate request d.primary_model v).0 =
        λ a v found.
          subst (λ b. Mends (b.generate request d.primary_model v).0)
            (some-injective _ _ (sym first ∙ ap (λ p. lookup p g.adapters) (sym primary) ∙ found))
            (first-Mends key down v) in
      let answers : (p : ProviderName) (a : ProviderAdapter W) (m : String) (v : W)
          → d.fallback_provider ≡ some p
          → lookup p g.adapters ≡ some a
          → Answers (a.generate request m v).0 =
        λ p a m v at found.
          subst (λ b. Answers (b.generate request m v).0)
            (some-injective _ _ (
              sym second
              ∙ ap (λ q. lookup q g.adapters) (some-injective _ _ (sym fallback ∙ at))
              ∙ found))
            (mock_generate-Answers words mock steady calls put request m (omega arith) v) in
      generate-Answers g request d selected mends answers (records d) (rw fallback refl) w
