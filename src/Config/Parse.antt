-- ===== src/Config/Parse.antt =====
-- `parse_client_configs` and `load_client_config` (shared/src/config.rs), over the TOML parser and the
-- text of the file.
pub mod Protected
use lfp_pipe.Base.{
  Bool, not, ◌&&◌, Option, none, some, List, [], ◌∷◌, map, is_some, if◌then◌else◌, Result, ok, err,
  ok_or, ◌>>=◌, ◌>>◌,
}
use lfp_pipe.Text.Ascii.{Str}
use lfp_pipe.Config.Authorization.{ClientAuthorizationConfig}
use lfp_pipe.Config.Backend.{BackendRule}
use lfp_pipe.Config.Client.{ClientConfig}
use lfp_pipe.Config.Layers.{ClientConfigDocument, multi_route, legacy}
use lfp_pipe.Config.Merge.{ConfigError, bad_toml, many_routes}
use lfp_pipe.Config.Expand.{expand_client_routes}
use lfp_pipe.Config.Validate.{validate_client_config}

-- A path rule without a policy of its own takes that of the client.
unfoldable pub inherit_rule : Option ClientAuthorizationConfig → BackendRule → BackendRule
inherit_rule authorization rule =
    if is_some rule.path_prefix && not (is_some rule.authorization)
    then record rule { authorization = authorization }
    else rule

abbrev pub inherit_rules : ClientConfig → ClientConfig
inherit_rules config = record config {
  backend_rules = map (inherit_rule config.authorization) config.backend_rules;
}

unfoldable pub configs_of : ClientConfigDocument → Result ConfigError (List ClientConfig)
configs_of (legacy config) = ok (inherit_rules config ∷ [])
configs_of (multi_route document) = expand_client_routes document

unfoldable pub validate_configs : List ClientConfig → Result ConfigError (Unit {0})
validate_configs [] = ok tt
validate_configs (config ∷ configs) = do validate_client_config config; validate_configs configs

unfoldable pub parse_client_configs :
    (Str → Option ClientConfigDocument) → Str → Result ConfigError (List ClientConfig)
parse_client_configs from_toml raw = do
  document ← ok_or (from_toml raw) bad_toml
  configs ← configs_of document
  validate_configs configs
  ok configs

abbrev only_config : List ClientConfig → Result ConfigError ClientConfig
only_config (config ∷ []) = ok config
only_config _ = err many_routes

-- `load_client_config` on the text of its file.
unfoldable pub load_client_config :
    (Str → Option ClientConfigDocument) → Str → Result ConfigError ClientConfig
load_client_config from_toml raw = do
  configs ← parse_client_configs from_toml raw
  only_config configs
