-- ===== src/Gateway/Config/Complete.antt =====
-- packages/gateway/src/gateway/config.py: what a configuration from the environment has, and when
-- there is none.
use governed_agent_platform.Prelude.{
  String, true, ◌≡◌, refl, ◌≢◌, ◌⊎◌, inl, inr, Option, none, some, [], ◌∷◌, string_eq, arith,
}
use governed_agent_platform.Prelude.Dict.{lookup, IsDict}
use governed_agent_platform.Prelude.Exec.{Result, ok, raised, Result-cases}
use governed_agent_platform.Gateway.Types.{
  ProviderName, openai, anthropic, mock, provider_value, provider_of, provider_eq,
}
use governed_agent_platform.Gateway.Config.{ProviderConfig, GatewayConfig}
use governed_agent_platform.Gateway.Policies.{is_some}
use governed_agent_platform.Gateway.Config.Environment.{
  Environment, config_with, getenv_or, read_optional, provider_named, read_optional_provider,
  openai_config, anthropic_config, mock_config, from_env,
}

-- A text that no provider has.
abbrev pub IsUnknown : String → Type 0
IsUnknown text = (p : ProviderName) → provider_value p ≢ text

abbrev pub Raises : {A : Type 0} → Result String A → Type 0
Raises (ok a) = ⊥
Raises (raised e) = Unit

raised-Raises : {A : Type 0} {r : Result String A} (e : String) → r ≡ raised e → Raises r
raised-Raises e h = rw h tt

abbrev pub FallbackRead : Option String → Option ProviderName → Type 0
FallbackRead none p = p ≡ none
FallbackRead (some text) none = text ≡ ""
FallbackRead (some text) (some p) = provider_value p ≡ text

abbrev pub IsUnknownFallback : Option String → Type 0
IsUnknownFallback none = ⊥
IsUnknownFallback (some text) = (text ≢ "") × IsUnknown text

named_lem :
    (text : String) (p : ProviderName) → provider_named text ≡ ok p → provider_value p ≡ text
unfolding provider_named provider_of
named_lem text p h = ground (
  arith,
  string_eq.decides text "openai",
  string_eq.decides text "anthropic",
  string_eq.decides text "mock",
)

unnamed_lem : (text : String) (e : String) → provider_named text ≡ raised e → IsUnknown text
unfolding provider_named provider_of
unnamed_lem text e h openai k = ground (arith, string_eq.decides text "openai")
unnamed_lem text e h anthropic k = ground (arith, string_eq.decides text "anthropic")
unnamed_lem text e h mock k = ground (arith, string_eq.decides text "mock")

optional_lem :
    (o : Option String) (p : Option ProviderName) → read_optional o ≡ ok p → FallbackRead o p
optional_lem none p h = ground arith
optional_lem (some text) none h = ground (arith, string_eq.decides text "")
optional_lem (some text) (some p) h = ground (arith, named_lem text p, string_eq.decides text "")

unread_lem : (o : Option String) (e : String) → read_optional o ≡ raised e → IsUnknownFallback o
unread_lem none e h = ground arith
unread_lem (some text) e h =
    (ground (arith, string_eq.decides text ""), unnamed_lem text e (ground arith))

module _ (env : Environment) where
  -- What a configuration from the environment has: one configuration for each provider, the default
  -- and the fallback provider that the environment names, and OpenAI by default. Where there is none,
  -- a setting cannot be read.
  abbrev pub IsRead : Result String GatewayConfig → Type 0
  IsRead (ok c) =
      ((p : ProviderName) → is_some (lookup p c.providers) ≡ true)
      × (IsDict c.providers
          × ((provider_value c.default_provider
                ≡ getenv_or env "AI_GATEWAY_DEFAULT_PROVIDER" "openai")
              × FallbackRead (env.getenv "AI_GATEWAY_FALLBACK_PROVIDER") c.fallback_provider))
  IsRead (raised e) =
      Raises (env.timeout_of (getenv_or env "OPENAI_TIMEOUT_SECONDS" "30"))
      ⊎ (Raises (env.timeout_of (getenv_or env "ANTHROPIC_TIMEOUT_SECONDS" "30"))
          ⊎ (IsUnknown (getenv_or env "AI_GATEWAY_DEFAULT_PROVIDER" "openai")
              ⊎ IsUnknownFallback (env.getenv "AI_GATEWAY_FALLBACK_PROVIDER")))

  complete_lem :
      (a b c : ProviderConfig) (p : ProviderName)
      → is_some (lookup p ((openai, a) ∷ (anthropic, b) ∷ (mock, c) ∷ [])) ≡ true
  unfolding lookup
  complete_lem a b c openai = refl
  complete_lem a b c anthropic = refl
  complete_lem a b c mock = refl

  config_with-IsRead : (a b : ProviderConfig) → IsRead (config_with env a b)
  unfolding config_with read_optional_provider lookup
  config_with-IsRead a b =
      elim (Result-cases (provider_named (getenv_or env "AI_GATEWAY_DEFAULT_PROVIDER" "openai"))) [
        | inr (e, failed) ↦ rw failed (inr (inr (inl (unnamed_lem _ e failed))))
        | inl (p, default) ↦
            elim (Result-cases (read_optional (env.getenv "AI_GATEWAY_FALLBACK_PROVIDER"))) [
              | inr (e, failed) ↦ rw (default, failed) (inr (inr (inr (unread_lem _ e failed))))
              | inl (o, fallback) ↦
                  rw (default, fallback)
                    (
                      complete_lem a b (mock_config env),
                      (
                        (refl, (refl, (refl, tt))),
                        (named_lem _ p default, optional_lem _ o fallback),
                      ),
                    )
            ]
      ]

  -- The environment gives a configuration with exactly one entry for each provider name, with the
  -- default provider that it names, or OpenAI, and with the fallback provider that it names, or none
  -- for an empty or missing name; and it gives an error only where the timeout of OpenAI or of
  -- Anthropic cannot be read, or the default or the fallback is named as no provider is.
  pub from_env-IsRead : IsRead (from_env env)
  unfolding from_env openai_config anthropic_config
  from_env-IsRead =
      elim (Result-cases (env.timeout_of (getenv_or env "OPENAI_TIMEOUT_SECONDS" "30"))) [
        | inr (e, failed) ↦ let bad = raised-Raises e failed in rw failed (inl bad)
        | inl (t, first) ↦
            elim (Result-cases (env.timeout_of (getenv_or env "ANTHROPIC_TIMEOUT_SECONDS" "30"))) [
              | inr (e, failed) ↦
                  let bad = raised-Raises e failed in rw (first, failed) (inr (inl bad))
              | inl (u, second) ↦ rw (first, second) (config_with-IsRead _ _)
            ]
      ]
