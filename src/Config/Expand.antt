-- ===== src/Config/Expand.antt =====
-- `expand_client_route` and `expand_client_routes` (shared/src/config.rs): each route of a document becomes a client configuration of its own.
pub mod Shape
pub mod Document
use lfp_pipe.Base.{
  ℕ, suc, ◌+◌, Bool, true, false, not, ◌&&◌, Option, none, some, List, [], ◌∷◌, map, any, is_some,
  if◌then◌else◌, unwrap_or, or_option, Result, ok, err, ok_or, ensure, ◌>>=◌, ◌>>◌,
}
use lfp_pipe.Text.Ascii.{Str, str_eq}
use lfp_pipe.Text.White.{is_empty, is_blank}
use lfp_pipe.Config.Authorization.{ClientAuthorizationConfig}
use lfp_pipe.Config.Backend.{BackendRule}
use lfp_pipe.Config.Client.{
  RelayMode, ClientConfig, default_request_subject, default_claim_ack_timeout_ms,
}
use lfp_pipe.Config.Layers.{
  ClientConfigDefaults, ClientRouteConfig, ClientPathRouteConfig, MultiRouteClientConfig,
}
use lfp_pipe.Config.Merge.{
  ConfigError, no_routes, repeated_client_id, empty_client_id, empty_hostname, missing_nats_url,
  missing_backend_addr, in_route, flatten_options, merge_authorization_layers,
  merge_authorization_defaults, merge_acme_defaults, merge_oauth_defaults,
}

abbrev pub route_pattern : ClientRouteConfig → Str
route_pattern route = unwrap_or route.pattern route.hostname

-- The rule of the whole host.
abbrev host_rule : ClientConfigDefaults → ClientRouteConfig → Str → BackendRule
host_rule defaults route backend_addr = record {
  pattern = route_pattern route;
  path_prefix = none;
  strip_path_prefix = false;
  proxy_headers = unwrap_or (or_option route.proxy_headers defaults.proxy_headers) true;
  backend_addr = backend_addr;
  backend_host = or_option route.backend_host defaults.backend_host;
  http_backend_addr = or_option route.http_backend_addr defaults.http_backend_addr;
  authorization = none;
}

abbrev path_rule :
    ClientConfigDefaults
    → ClientRouteConfig
    → ClientPathRouteConfig
    → Option ClientAuthorizationConfig
    → BackendRule
path_rule defaults route path_route authorization = record {
  pattern = route_pattern route;
  path_prefix = some path_route.path_prefix;
  strip_path_prefix = path_route.strip_path_prefix;
  proxy_headers =
      unwrap_or
        (or_option path_route.proxy_headers (or_option route.proxy_headers defaults.proxy_headers))
        true;
  backend_addr = path_route.backend_addr;
  backend_host = path_route.backend_host;
  http_backend_addr = none;
  authorization = authorization;
}

-- The loop over the path routes.
unfoldable pub expand_path_routes :
    ClientConfigDefaults
    → ClientRouteConfig
    → List ClientPathRouteConfig
    → Result ConfigError (List BackendRule)
expand_path_routes defaults route [] = ok []
expand_path_routes defaults route (path_route ∷ path_routes) = do
  authorization ← merge_authorization_layers (
      flatten_options
        (path_route.authorization ∷ route.authorization ∷ defaults.authorization ∷ []))
  rules ← expand_path_routes defaults route path_routes
  ok (path_rule defaults route path_route authorization ∷ rules)

unfoldable pub expand_client_route :
    ClientConfigDefaults → ClientRouteConfig → Result ConfigError ClientConfig
expand_client_route defaults route = do
  ensure (not (is_blank route.client_id)) empty_client_id
  ensure (not (is_blank route.hostname)) empty_hostname
  nats_url ← ok_or (or_option route.nats_url defaults.nats_url) missing_nats_url
  backend_addr ← ok_or (or_option route.backend_addr defaults.backend_addr) missing_backend_addr
  oauth ← merge_oauth_defaults defaults.oauth route.oauth route.hostname
  acme ← merge_acme_defaults defaults.acme route.acme route.hostname
  authorization ← merge_authorization_defaults defaults.authorization route.authorization
  path_rules ← expand_path_routes defaults route route.path_routes
  ok (record {
    client_id = route.client_id;
    nats_url = nats_url;
    nats_token_file = or_option route.nats_token_file defaults.nats_token_file;
    oauth = oauth;
    acme = acme;
    authorization = authorization;
    tcp_passthrough = unwrap_or (or_option route.tcp_passthrough defaults.tcp_passthrough) true;
    relay_mode = unwrap_or (or_option route.relay_mode defaults.relay_mode) RelayMode.auto;
    request_subject =
        unwrap_or (or_option route.request_subject defaults.request_subject)
          default_request_subject;
    claim_ack_timeout_ms =
        unwrap_or (or_option route.claim_ack_timeout_ms defaults.claim_ack_timeout_ms)
          default_claim_ack_timeout_ms;
    backend_rules = host_rule defaults route backend_addr ∷ path_rules;
  })

-- `result.with_context(|| format!("route {}", index))`.
abbrev pub with_route {ℓ} : {A : Type ℓ} → ℕ → Result ConfigError A → Result ConfigError A
with_route index (ok a) = ok a
with_route index (err e) = err (in_route index e)

-- The iteration, from the route of this number on, with the client IDs seen so far. It stops at the
-- first error.
unfoldable pub expand_from :
    ClientConfigDefaults
    → ℕ
    → List Str
    → List ClientRouteConfig
    → Result ConfigError (List ClientConfig)
expand_from defaults index client_ids [] = ok []
expand_from defaults index client_ids (route ∷ routes) = do
  ensure (not (any (str_eq route.client_id) client_ids)) repeated_client_id
  config ← with_route index (expand_client_route defaults route)
  configs ← expand_from defaults (index + 1) (route.client_id ∷ client_ids) routes
  ok (config ∷ configs)

unfoldable pub expand_client_routes :
    MultiRouteClientConfig → Result ConfigError (List ClientConfig)
unfolding expand_from
expand_client_routes document = do
  ensure (not (is_empty document.routes)) no_routes
  expand_from document.defaults 1 [] document.routes
