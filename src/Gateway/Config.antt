-- ===== src/Gateway/Config.antt =====
-- packages/gateway/src/gateway/config.py: the configuration, and the model of a tier.
pub mod Environment
pub mod Complete
use governed_agent_platform.Prelude.{String, Bool, Option, if◌then◌else◌, ◌==◌, string_eq}
use governed_agent_platform.Prelude.Dict.{Dict}
use governed_agent_platform.Gateway.Types.{ProviderName}

pub record ProviderConfig : Type 0 where
  pub api_key : Option String
  pub base_url : Option String
  pub timeout_seconds : String
  pub default_model : String
  pub fast_model : String
  pub strong_model : String

unfoldable pub model_for_tier : ProviderConfig → String → String
model_for_tier c tier =
    if tier == "fast"
    then c.fast_model
    else if tier == "strong"
    then c.strong_model
    else c.default_model

pub record GatewayConfig : Type 0 where
  pub default_provider : ProviderName
  pub fallback_provider : Option ProviderName
  pub enable_fallback : Bool
  pub providers : Dict ProviderName ProviderConfig
