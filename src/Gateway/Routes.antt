-- ===== src/Gateway/Routes.antt =====
-- packages/gateway/src/gateway/policies.py: what a selected route promises.
use governed_agent_platform.Prelude.{
  String, true, false, ◌≡◌, ap, sym, ◌∙◌, Option, none, some, ◌==◌, string_eq, arith,
}
use governed_agent_platform.Prelude.Dict.{lookup}
use governed_agent_platform.Prelude.Exec.{Result, ok, raised}
use governed_agent_platform.Gateway.Types.{
  ProviderName, provider_eq, ModelRequest, RouteDecision, GatewayError, ProviderAdapter,
}
use governed_agent_platform.Gateway.Config.{GatewayConfig}
use governed_agent_platform.Gateway.Policies.{
  Adapters, provider_or, is_usable, is_some, select_tier, select_route, fallback_candidate,
  fallback_model_of, require_configured_adapter, primary_model_of, tier_model, provider_config,
}

-- What a fallback provider has to be: the configured one, asked for by the request and by the
-- configuration, not the primary one, and registered and configured.
abbrev pub FallbackAllowed :
    {W : Type 0} → ModelRequest → GatewayConfig → Adapters W → ProviderName → ProviderName → Type 0
FallbackAllowed request config adapters primary p =
    (config.fallback_provider ≡ some p)
    × ((request.allow_fallback ≡ true)
        × ((config.enable_fallback ≡ true)
            × ((p == primary ≡ false) × (is_usable p adapters ≡ true))))

-- A fallback model belongs to a fallback provider that is allowed: the tier's model of it.
abbrev pub FallbackFits :
    {W : Type 0}
    → ModelRequest
    → GatewayConfig
    → Adapters W
    → ProviderName
    → Option ProviderName
    → Option String
    → Type 0
FallbackFits request config adapters primary none none = Unit
FallbackFits request config adapters primary none (some m) = ⊥
FallbackFits request config adapters primary (some p) none = ⊥
FallbackFits request config adapters primary (some p) (some m) =
    FallbackAllowed request config adapters primary p
    × (tier_model config p (select_tier request) ≡ ok m)

-- A result, not an exception.
abbrev pub Answers : {A : Type 0} → Result GatewayError A → Type 0
Answers (ok a) = Unit
Answers (raised e) = ⊥

module _ {W : Type 0} (request : ModelRequest) (config : GatewayConfig)
    (adapters : Adapters W) where
  candidate_lem :
      (primary p : ProviderName)
      → fallback_candidate request config adapters primary ≡ some p
      → FallbackAllowed request config adapters primary p
  unfolding fallback_candidate
  candidate_lem primary p h = ground arith

  -- What a selected route promises: a primary that can be used, with its model; and no fallback, or
  -- one that is allowed.
  abbrev pub RouteFits : RouteDecision → Type 0
  RouteFits d =
      (d.primary_provider ≡ provider_or request.preferred_provider config.default_provider)
      × ((is_usable d.primary_provider adapters ≡ true)
          × ((primary_model_of request.preferred_model config d.primary_provider
                  (select_tier request)
                ≡ ok d.primary_model)
              × ((d.fallback_allowed ≡ is_some d.fallback_provider)
                  × FallbackFits request config adapters d.primary_provider d.fallback_provider
                      d.fallback_model)))

  required_lem :
      (primary : ProviderName) (a : ProviderAdapter W)
      → require_configured_adapter primary adapters ≡ ok a
      → is_usable primary adapters ≡ true
  unfolding require_configured_adapter
  required_lem primary a h = ground arith

  fits :
      (primary : ProviderName) (o : Option ProviderName) (m : Option String)
      → fallback_candidate request config adapters primary ≡ o
      → fallback_model_of o config (select_tier request) ≡ ok m
      → FallbackFits request config adapters primary o m
  unfolding fallback_model_of
  fits primary none none h k = tt
  fits primary none (some m) h k = ground arith
  fits primary (some p) none h k = ground arith
  fits primary (some p) (some m) h k = (candidate_lem primary p h, ground arith)

  abbrev chosen : ProviderName
  chosen = provider_or request.preferred_provider config.default_provider

  chosen_fallback :
      (d : RouteDecision)
      → select_route request config adapters ≡ ok d
      → fallback_candidate request config adapters chosen ≡ d.fallback_provider
  unfolding select_route
  chosen_fallback d h = ground arith

  chosen_model :
      (d : RouteDecision)
      → select_route request config adapters ≡ ok d
      → fallback_model_of
          (fallback_candidate request config adapters chosen)
          config
          (select_tier request)
        ≡ ok d.fallback_model
  unfolding select_route
  chosen_model d h = ground arith

  -- A selected route has a primary provider that is registered and configured and that is the
  -- request's, if it names one, or else the default one, with the request's model or else the tier's
  -- model of that provider. It has a fallback model exactly where it has a fallback provider; that
  -- provider is the configured fallback, is not the primary one, is registered and configured, both
  -- the request and the configuration allow it, and the model is the tier's model of it.
  pub select_route-Fits :
      (d : RouteDecision) → select_route request config adapters ≡ ok d → RouteFits d
  unfolding select_route
  select_route-Fits d h =
      let at : d.primary_provider ≡ chosen = ground arith in
      let f : fallback_candidate request config adapters d.primary_provider ≡ d.fallback_provider =
        ap (fallback_candidate request config adapters) at ∙ chosen_fallback d h in
      (
        at,
        (
          grind (arith, required_lem),
          (
            ground arith,
            (
              ground arith,
              fits d.primary_provider d.fallback_provider d.fallback_model f (
                  ap (λ o. fallback_model_of o config (select_tier request))
                    (sym (chosen_fallback d h))
                  ∙ chosen_model d h),
            ),
          ),
        ),
      )

  tier_model-Answers :
      (p : ProviderName) (tier : String)
      → is_some (lookup p config.providers) ≡ true
      → Answers (tier_model config p tier)
  unfolding tier_model provider_config
  tier_model-Answers p tier h = ground arith

  required-Answers :
      (p : ProviderName)
      → is_usable p adapters ≡ true
      → Answers (require_configured_adapter p adapters)
  unfolding require_configured_adapter
  required-Answers p h = ground arith

  primary_model_of-Answers :
      (m : Option String) (p : ProviderName) (tier : String)
      → Answers (tier_model config p tier)
      → Answers (primary_model_of m config p tier)
  unfolding primary_model_of
  primary_model_of-Answers none p tier h = h
  primary_model_of-Answers (some m) p tier h = ground arith

  fallback_model_of-Answers :
      (o : Option ProviderName) (tier : String)
      → ((p : ProviderName) → Answers (tier_model config p tier))
      → Answers (fallback_model_of o config tier)
  unfolding fallback_model_of
  fallback_model_of-Answers none tier h = tt
  fallback_model_of-Answers (some p) tier h = ground (arith, h p)

  -- Where the chosen primary provider is registered and configured and every provider has a
  -- configuration, a route is selected.
  pub select_route-Answers :
      is_usable (provider_or request.preferred_provider config.default_provider) adapters ≡ true
      → ((p : ProviderName) → is_some (lookup p config.providers) ≡ true)
      → Answers (select_route request config adapters)
  unfolding select_route
  select_route-Answers h k =
      let models : (p : ProviderName) → Answers (tier_model config p (select_tier request)) =
        λ p. tier_model-Answers p (select_tier request) (k p) in
      ground (
        arith,
        required-Answers chosen h,
        primary_model_of-Answers request.preferred_model chosen (select_tier request)
            (models chosen),
        fallback_model_of-Answers (fallback_candidate request config adapters chosen)
            (select_tier request) models,
      )
