-- ===== src/Gateway/Config/Environment.antt =====
-- packages/gateway/src/gateway/config.py: the configuration that the environment gives. The
-- environment, `lower` and the reading of a timeout are parameters.
use governed_agent_platform.Prelude.{
  String, Option, none, some, [], ◌∷◌, ◌==◌, string_eq, if◌then◌else◌,
}
use governed_agent_platform.Prelude.Exec.{Result, ok, raised}
use governed_agent_platform.Gateway.Types.{
  ProviderName, openai, anthropic, mock, provider_value, provider_of,
}
use governed_agent_platform.Gateway.Config.{ProviderConfig, GatewayConfig}

-- `os.getenv(name)`, `lower`, and `float` of a text where the number is positive, which raises
-- otherwise.
pub record Environment : Type 0 where
  pub getenv : String → Option String
  pub lower : String → String
  pub timeout_of : String → Result String String

-- The bind of code that may raise.
infixl 5 ◌>>=◌
abbrev pub ◌>>=◌ : {A B : Type 0} → Result String A → (A → Result String B) → Result String B
ok a >>= f = f a
raised e >>= f = raised e

abbrev pub text_or : String → Option String → String
text_or s none = s
text_or s (some t) = t

abbrev pub named : Option ProviderName → Result String ProviderName
named none = raised "ValueError"
named (some p) = ok p

-- `ProviderName(text)`, with its `ValueError`
unfoldable pub provider_named : String → Result String ProviderName
unfolding provider_of
provider_named text = named (provider_of text)

abbrev pub optionally : Result String ProviderName → Result String (Option ProviderName)
optionally (ok p) = ok (some p)
optionally (raised e) = raised e

abbrev pub read_optional : Option String → Result String (Option ProviderName)
read_optional none = ok none
read_optional (some value) = if value == "" then ok none else optionally (provider_named value)

module _ (env : Environment) where
  -- `os.getenv(name, default)`
  abbrev pub getenv_or : String → String → String
  getenv_or name default = text_or default (env.getenv name)

  -- `_read_optional_provider`
  unfoldable pub read_optional_provider : String → Result String (Option ProviderName)
  unfolding provider_named
  read_optional_provider name = read_optional (env.getenv name)

  unfoldable pub openai_config : Result String ProviderConfig
  openai_config = do
    timeout ← env.timeout_of (getenv_or "OPENAI_TIMEOUT_SECONDS" "30")
    ok (record {
      api_key = env.getenv "OPENAI_API_KEY";
      base_url = env.getenv "OPENAI_BASE_URL";
      timeout_seconds = timeout;
      default_model = getenv_or "OPENAI_DEFAULT_MODEL" "gpt-4.1-mini";
      fast_model = getenv_or "OPENAI_FAST_MODEL" "gpt-4.1-mini";
      strong_model = getenv_or "OPENAI_STRONG_MODEL" "gpt-4.1";
    })

  unfoldable pub anthropic_config : Result String ProviderConfig
  anthropic_config = do
    timeout ← env.timeout_of (getenv_or "ANTHROPIC_TIMEOUT_SECONDS" "30")
    ok (record {
      api_key = env.getenv "ANTHROPIC_API_KEY";
      base_url = env.getenv "ANTHROPIC_BASE_URL";
      timeout_seconds = timeout;
      default_model = getenv_or "ANTHROPIC_DEFAULT_MODEL" "claude-3-5-sonnet-latest";
      fast_model = getenv_or "ANTHROPIC_FAST_MODEL" "claude-3-5-haiku-latest";
      strong_model = getenv_or "ANTHROPIC_STRONG_MODEL" "claude-3-5-sonnet-latest";
    })

  unfoldable pub mock_config : ProviderConfig
  mock_config = record {
    api_key = none;
    base_url = none;
    timeout_seconds = "5.0";
    default_model = getenv_or "MOCK_DEFAULT_MODEL" "mock-default";
    fast_model = getenv_or "MOCK_FAST_MODEL" "mock-fast";
    strong_model = getenv_or "MOCK_STRONG_MODEL" "mock-strong";
  }

  -- `from_env`, from the configurations of the providers on
  unfoldable pub config_with : ProviderConfig → ProviderConfig → Result String GatewayConfig
  unfolding read_optional_provider
  config_with openai_part anthropic_part = do
    default_provider ←
        provider_named (getenv_or "AI_GATEWAY_DEFAULT_PROVIDER" (provider_value openai))
    fallback_provider ← read_optional_provider "AI_GATEWAY_FALLBACK_PROVIDER"
    ok (record {
      default_provider = default_provider;
      fallback_provider = fallback_provider;
      enable_fallback = env.lower (getenv_or "AI_GATEWAY_ENABLE_FALLBACK" "true") == "true";
      providers = (openai, openai_part) ∷ (anthropic, anthropic_part) ∷ (mock, mock_config) ∷ [];
    })

  -- `GatewayConfig.from_env`
  unfoldable pub from_env : Result String GatewayConfig
  from_env = do
    openai_part ← openai_config
    anthropic_part ← anthropic_config
    config_with openai_part anthropic_part
