-- ===== src/Examples/Config.antt =====
-- A document of one route with a path route and a policy.
use lfp_pipe.Base.{◌≡◌, ◌≢◌, ◌↔◌, refl, true, none, some, [], ◌∷◌, map, ok}
use lfp_pipe.Text.{codes}
use lfp_pipe.Text.Ascii
use lfp_pipe.Text.Ascii.{Str, Distinct}
use lfp_pipe.Text.Affix
use lfp_pipe.Text.White
use lfp_pipe.Config.Authorization.{ClientAuthorizationConfig}
use lfp_pipe.Config.Backend.{BackendRule}
use lfp_pipe.Config.Client.{ClientConfig}
use lfp_pipe.Config.Layers.{
  ClientConfigDefaults, ClientRouteConfig, ClientPathRouteConfig, MultiRouteClientConfig,
  ClientAuthorizationDefaults, silent_authorization,
}
use lfp_pipe.Config.Merge
use lfp_pipe.Config.Merge.{
  ConfigError, authorization_of, merge_authorization_layers, merge_authorization_defaults,
}
use lfp_pipe.Config.Expand.{
  route_pattern, expand_path_routes, expand_client_route, expand_client_routes,
}
use lfp_pipe.Config.Expand.Shape.{
  IsExpansion, expand_client_route-IsExpansion, expand_client_route-serves,
}
use lfp_pipe.Config.Expand.Document.{Expands, expand_client_routes_iff}
use lfp_pipe.Config.Validate.{validate_authorization, validate_client_config}
use lfp_pipe.Config.Validate.Sound.{IsPolicy, validate_authorization_iff}
use lfp_pipe.Config.Validate.Rules.{IsValidClient, validate_client_config_iff}
use lfp_pipe.Routing.Pattern
use lfp_pipe.Routing.Pattern.{matches_pattern}
use lfp_pipe.Routing.Select.{select_backend_for_path}

abbrev pub web_login : ClientAuthorizationDefaults
web_login = record silent_authorization {
  issuer = some (codes "https://id.test");
  audiences = some (codes "lfp" ∷ []);
}

abbrev defaults : ClientConfigDefaults
defaults = record {
  nats_url = some (codes "nats://n.test");
  nats_token_file = none;
  oauth = none;
  acme = some (record {
    enabled = some true;
    contacts = none;
    cache_dir = none;
    production = some true;
    directory_url = none;
  });
  authorization = none;
  tcp_passthrough = none;
  relay_mode = none;
  request_subject = none;
  claim_ack_timeout_ms = none;
  backend_addr = some (codes "3000");
  backend_host = none;
  http_backend_addr = none;
  proxy_headers = none;
}

abbrev api : ClientPathRouteConfig
api = record {
  path_prefix = codes "/api";
  backend_addr = codes "4000";
  backend_host = none;
  strip_path_prefix = true;
  proxy_headers = none;
  authorization = some web_login;
}

abbrev route : ClientRouteConfig
route = record {
  client_id = codes "c1";
  hostname = codes "app.test";
  pattern = none;
  nats_url = none;
  nats_token_file = none;
  oauth = none;
  acme = none;
  authorization = none;
  tcp_passthrough = none;
  relay_mode = none;
  request_subject = none;
  claim_ack_timeout_ms = none;
  backend_addr = none;
  backend_host = none;
  http_backend_addr = none;
  proxy_headers = none;
  path_routes = api ∷ [];
}

config : (c : ClientConfig) × (expand_client_route defaults route ≡ ok c)
unfolding expand_client_route expand_path_routes merge_authorization_layers
    merge_authorization_defaults Merge.authorization_of Merge.merge_acme_defaults
    Merge.merge_oauth_defaults White.trim White.trim_start White.trim_end
config = (_, refl)

expand_client_route-IsExpansion_example : IsExpansion defaults route config.0
expand_client_route-IsExpansion_example =
    expand_client_route-IsExpansion defaults route config.0 config.1

matches : matches_pattern (route_pattern route) (some (codes "App.test")) ≡ true
unfolding matches_pattern Pattern.matches_hostname Ascii.eq_ignore_ascii_case
    Ascii.to_ascii_lowercase Ascii.lower_byte Ascii.str_eq Affix.strip_prefix
matches = refl

expand_client_route-serves_example :
    (r : BackendRule) × (select_backend_for_path
        (config.0).backend_rules
        (some (codes "App.test"))
        (codes "/x")
      ≡ some r)
expand_client_route-serves_example =
    expand_client_route-serves defaults route config.0 (some (codes "App.test")) (codes "/x")
      config.1 matches

abbrev document : MultiRouteClientConfig
document = record { defaults = defaults; routes = route ∷ [] }

expand_client_routes_iff_example : (expand_client_routes document ≡ ok (config.0 ∷ [])) ↔ (
    (document.routes ≢ [])
    × Distinct [] (map (λ r. r.client_id) document.routes)
    × Expands document.defaults document.routes (config.0 ∷ []))
expand_client_routes_iff_example = expand_client_routes_iff document (config.0 ∷ [])

policy : ClientAuthorizationConfig
policy = authorization_of (codes "https://id.test") (web_login ∷ [])

validate_authorization_iff_example : (validate_authorization policy ≡ ok tt) ↔ IsPolicy policy
validate_authorization_iff_example = validate_authorization_iff policy

validate_client_config_iff_example :
    (validate_client_config config.0 ≡ ok tt) ↔ IsValidClient config.0
validate_client_config_iff_example = validate_client_config_iff config.0
