-- ===== src/Config/Layers.antt =====
-- The optional values of a multi-route document, which a route layers over the shared defaults
-- (shared/src/config.rs).
use lfp_pipe.Base.{ℕ, Bool, Option, none, List}
use lfp_pipe.Text.Ascii.{Str}
use lfp_pipe.Config.Authorization.{RoleMatch}
use lfp_pipe.Config.Client.{RelayMode, ClientConfig}

pub record ClientAuthorizationDefaults : Type 0 where
  pub enabled : Option Bool
  pub bearer : Option Bool
  pub oidc : Option Bool
  pub issuer : Option Str
  pub audiences : Option (List Str)
  pub jwks_uri : Option Str
  pub jwks_cache_file : Option Str
  pub roles_claim : Option Str
  pub required_roles : Option (List Str)
  pub forward_authorization : Option Bool
  pub role_match : Option RoleMatch
  pub algorithms : Option (List Str)
  pub leeway_seconds : Option ℕ
  pub jwks_refresh_seconds : Option ℕ
  pub jwks_max_stale_seconds : Option ℕ
  pub header_timeout_ms : Option ℕ
  pub max_header_bytes : Option ℕ
  pub oidc_client_id : Option Str
  pub oidc_client_secret_file : Option Str
  pub oidc_scopes : Option (List Str)
  pub oidc_callback_path : Option Str
  pub oidc_logout_path : Option Str
  pub oidc_session_key_file : Option Str
  pub oidc_session_ttl_seconds : Option ℕ

-- `ClientAuthorizationDefaults::default()`.
abbrev pub silent_authorization : ClientAuthorizationDefaults
silent_authorization = record {
  enabled = none;
  bearer = none;
  oidc = none;
  issuer = none;
  audiences = none;
  jwks_uri = none;
  jwks_cache_file = none;
  roles_claim = none;
  required_roles = none;
  forward_authorization = none;
  role_match = none;
  algorithms = none;
  leeway_seconds = none;
  jwks_refresh_seconds = none;
  jwks_max_stale_seconds = none;
  header_timeout_ms = none;
  max_header_bytes = none;
  oidc_client_id = none;
  oidc_client_secret_file = none;
  oidc_scopes = none;
  oidc_callback_path = none;
  oidc_logout_path = none;
  oidc_session_key_file = none;
  oidc_session_ttl_seconds = none;
}

pub record ClientOAuthDefaults : Type 0 where
  pub token_url : Option Str
  pub provider_client_id : Option Str
  pub username : Option Str
  pub client_secret_file : Option Str
  pub control_plane_url : Option Str
  pub scopes : Option (List Str)
  pub renew_before_seconds : Option ℕ

pub record ClientAcmeDefaults : Type 0 where
  pub enabled : Option Bool
  pub contacts : Option (List Str)
  pub cache_dir : Option Str
  pub production : Option Bool
  pub directory_url : Option Str

pub record ClientConfigDefaults : Type 0 where
  pub nats_url : Option Str
  pub nats_token_file : Option Str
  pub oauth : Option ClientOAuthDefaults
  pub acme : Option ClientAcmeDefaults
  pub authorization : Option ClientAuthorizationDefaults
  pub tcp_passthrough : Option Bool
  pub relay_mode : Option RelayMode
  pub request_subject : Option Str
  pub claim_ack_timeout_ms : Option ℕ
  pub backend_addr : Option Str
  pub backend_host : Option Str
  pub http_backend_addr : Option Str
  pub proxy_headers : Option Bool

pub record ClientPathRouteConfig : Type 0 where
  pub path_prefix : Str
  pub backend_addr : Str
  pub backend_host : Option Str
  pub strip_path_prefix : Bool
  pub proxy_headers : Option Bool
  pub authorization : Option ClientAuthorizationDefaults

pub record ClientRouteConfig : Type 0 where
  pub client_id : Str
  pub hostname : Str
  pub pattern : Option Str
  pub nats_url : Option Str
  pub nats_token_file : Option Str
  pub oauth : Option ClientOAuthDefaults
  pub acme : Option ClientAcmeDefaults
  pub authorization : Option ClientAuthorizationDefaults
  pub tcp_passthrough : Option Bool
  pub relay_mode : Option RelayMode
  pub request_subject : Option Str
  pub claim_ack_timeout_ms : Option ℕ
  pub backend_addr : Option Str
  pub backend_host : Option Str
  pub http_backend_addr : Option Str
  pub proxy_headers : Option Bool
  pub path_routes : List ClientPathRouteConfig

pub record MultiRouteClientConfig : Type 0 where
  pub defaults : ClientConfigDefaults
  pub routes : List ClientRouteConfig

pub data ClientConfigDocument : Type 0 where
  multi_route : MultiRouteClientConfig → ClientConfigDocument
  legacy : ClientConfig → ClientConfigDocument
