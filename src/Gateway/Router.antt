-- ===== src/Gateway/Router.antt =====
-- packages/gateway/src/gateway/router.py: the service that selects a route, calls the provider and
-- falls back. The policies are those of policies.py; the adapters and the recorder of route
-- decisions are parameters, over the world `W` that their calls change.
use governed_agent_platform.Prelude.{
  String, ◌<>◌, Bool, true, false, Option, none, some, if◌then◌else◌, Value, Payload, as_dict,
  string_eq,
}
use governed_agent_platform.Prelude.Dict.{lookup, insert}
use governed_agent_platform.Prelude.Exec.{Result, ok, raised, Exec, pure, lift, ◌>>=◌, ◌>>◌}
use governed_agent_platform.Gateway.Types.{
  ProviderName, mock, provider_value, provider_eq, ModelRequest, ModelResponse, RouteDecision,
  ProviderError, to_dict, GatewayError, provider_error, ProviderAdapter,
}
use governed_agent_platform.Gateway.Config.{GatewayConfig}
use governed_agent_platform.Gateway.Policies.{Adapters, refused, select_route, should_fallback}

pub record AiGateway (W : Type 0) : Type 0 where
  pub adapters : Adapters W
  pub config : GatewayConfig
  pub route_decision_recorder : Option (RouteDecision → Exec W GatewayError Unit)

-- The metadata with the primary's error, if there is one.
abbrev pub with_error : Option ProviderError → Payload → Payload
with_error none metadata = metadata
with_error (some e) metadata = insert "primary_error" (as_dict (to_dict e)) metadata

-- `_attach_route_metadata`
unfoldable pub attach_route_metadata :
    ModelResponse → RouteDecision → Bool → Option ProviderError → ModelResponse
attach_route_metadata response decision fallback_used primary_error = record response {
  route_decision = some decision;
  metadata =
      with_error primary_error
        (insert "fallback_used" (Value.bool fallback_used) response.metadata);
}

-- The model of the fallback. Where there is none, no fallback is made.
abbrev pub model_or_empty : Option String → String
model_or_empty none = ""
model_or_empty (some m) = m

module _ {W : Type 0} where
  -- `self._route_decision_recorder.record(decision)`, where there is a recorder
  abbrev pub recorded :
      Option (RouteDecision → Exec W GatewayError Unit) → RouteDecision → Exec W GatewayError Unit
  recorded none decision = pure tt
  recorded (some record_decision) decision = record_decision decision

  -- `_get_adapter`
  unfoldable pub get_adapter :
      Adapters W → Option ProviderName → Result GatewayError (ProviderAdapter W)
  get_adapter adapters none =
      raised (refused mock "No provider configured for the requested route.")
  get_adapter adapters (some provider) = elim (lookup provider adapters) [
    | none ↦ raised (
        refused provider
          ("No adapter registered for provider '" <> provider_value provider <> "'."))
    | some adapter ↦ ok adapter
  ]

  module _ (g : AiGateway W) where
    unfoldable pub route : ModelRequest → Exec W GatewayError RouteDecision
    route request = do
      decision ← lift (select_route request g.config g.adapters)
      recorded g.route_decision_recorder decision
      pure decision

    -- The call of the second provider, after an error of the first.
    unfoldable pub fall_back :
        ModelRequest → RouteDecision → ProviderError → Exec W GatewayError ModelResponse
    fall_back request decision error = do
      adapter ← lift (get_adapter g.adapters decision.fallback_provider)
      response ← adapter.generate request (model_or_empty decision.fallback_model)
      pure (attach_route_metadata response decision true (some error))

    -- `except ProviderError`: every other exception passes.
    unfoldable pub except_provider_error :
        ModelRequest
        → RouteDecision
        → Result GatewayError ModelResponse
        → Exec W GatewayError ModelResponse
    except_provider_error request decision (ok response) =
        pure (attach_route_metadata response decision false none)
    except_provider_error request decision (raised (provider_error e)) =
        if should_fallback request decision e
        then fall_back request decision e
        else lift (raised (provider_error e))
    except_provider_error request decision (raised e) = lift (raised e)

    -- The call of the first provider, in the `try`.
    abbrev pub try_primary :
        ModelRequest → RouteDecision → ProviderAdapter W → Exec W GatewayError ModelResponse
    try_primary request decision adapter w =
        let (r, w') = adapter.generate request decision.primary_model w in
        except_provider_error request decision r w'

    -- `generate` from the decision on
    unfoldable pub serve : ModelRequest → RouteDecision → Exec W GatewayError ModelResponse
    serve request decision = do
      adapter ← lift (get_adapter g.adapters (some decision.primary_provider))
      try_primary request decision adapter

    unfoldable pub generate : ModelRequest → Exec W GatewayError ModelResponse
    generate request = do decision ← route request; serve request decision
