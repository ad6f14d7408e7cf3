-- ===== src/Config/Merge.antt =====
-- `merge_authorization_layers`, `merge_acme_defaults` and `merge_oauth_defaults`
-- (shared/src/config.rs): a route's value goes before the shared default, and that before the typed one.
pub mod Precedence
use lfp_pipe.Base.{
  ℕ, Bool, true, false, not, Option, none, some, List, [], ◌∷◌, if◌then◌else◌, unwrap_or, or_option,
  Result, ok, err, ok_or, ensure, ◌>>=◌, ◌>>◌,
}
use lfp_pipe.Text.Ascii.{Str}
use lfp_pipe.Text.White.{is_empty, is_blank}
use lfp_pipe.Config.Authorization
use lfp_pipe.Config.Authorization.{RoleMatch, ClientAuthorizationConfig}
use lfp_pipe.Config.Client.{
  ClientOAuthConfig, ClientAcmeConfig, default_oauth_scopes, default_oauth_renew_before_seconds,
  default_acme_cache_dir,
}
use lfp_pipe.Config.Layers.{ClientAuthorizationDefaults, ClientOAuthDefaults, ClientAcmeDefaults}

-- What can be wrong with a client document, a constructor for each message.
pub data ConfigError : Type 0 where
  no_routes repeated_client_id empty_client_id empty_hostname : ConfigError
  missing_nats_url missing_backend_addr missing_issuer missing_oauth_value empty_cache_dir :
      ConfigError
  bad_toml many_routes needs_acme needs_one_fallback bad_path_prefix repeated_path_prefix :
      ConfigError
  no_credential_enabled empty_issuer empty_audiences empty_jwks_cache_file empty_algorithms :
      ConfigError
  missing_oidc_client_id missing_openid_scope bad_oidc_path equal_oidc_paths : ConfigError
  empty_session_key_file zero_session_ttl zero_header_timeout small_header_limit : ConfigError
  in_route : ℕ → ConfigError → ConfigError

module _ {ℓ κ} {L : Type ℓ} {A : Type κ} where
  -- `layers.iter().find_map(select)`.
  abbrev pub find_map : (L → Option A) → List L → Option A
  find_map select [] = none
  find_map select (layer ∷ layers) = or_option (select layer) (find_map select layers)

-- `option.filter(|value| !value.trim().is_empty())`, and the same for lists.
abbrev pub non_blank : Option Str → Option Str
non_blank none = none
non_blank (some value) = if is_blank value then none else some value

abbrev pub non_empty : Option (List Str) → Option (List Str)
non_empty none = none
non_empty (some []) = none
non_empty (some (x ∷ xs)) = some (x ∷ xs)

abbrev Layers : Type 0
Layers = List ClientAuthorizationDefaults

-- The record that the layers make, once the issuer is known.
unfoldable pub authorization_of : Str → Layers → ClientAuthorizationConfig
authorization_of issuer layers = record {
  bearer = find_map (λ settings. settings.bearer) layers;
  oidc = find_map (λ settings. settings.oidc) layers;
  issuer = issuer;
  audiences = unwrap_or (find_map (λ settings. non_empty settings.audiences) layers) [];
  jwks_uri = find_map (λ settings. settings.jwks_uri) layers;
  jwks_cache_file =
      unwrap_or (find_map (λ settings. non_blank settings.jwks_cache_file) layers)
        Authorization.default_jwks_cache_file;
  roles_claim =
      unwrap_or (find_map (λ settings. non_blank settings.roles_claim) layers)
        Authorization.default_roles_claim;
  required_roles = unwrap_or (find_map (λ settings. settings.required_roles) layers) [];
  forward_authorization =
      unwrap_or (find_map (λ settings. settings.forward_authorization) layers) false;
  role_match = unwrap_or (find_map (λ settings. settings.role_match) layers) RoleMatch.any;
  algorithms =
      unwrap_or (find_map (λ settings. non_empty settings.algorithms) layers)
        Authorization.default_jwt_algorithms;
  leeway_seconds =
      unwrap_or (find_map (λ settings. settings.leeway_seconds) layers)
        Authorization.default_jwt_leeway_seconds;
  jwks_refresh_seconds =
      unwrap_or (find_map (λ settings. settings.jwks_refresh_seconds) layers)
        Authorization.default_jwks_refresh_seconds;
  jwks_max_stale_seconds =
      unwrap_or (find_map (λ settings. settings.jwks_max_stale_seconds) layers)
        Authorization.default_jwks_max_stale_seconds;
  header_timeout_ms =
      unwrap_or (find_map (λ settings. settings.header_timeout_ms) layers)
        Authorization.default_auth_header_timeout_ms;
  max_header_bytes =
      unwrap_or (find_map (λ settings. settings.max_header_bytes) layers)
        Authorization.default_auth_max_header_bytes;
  oidc_client_id = find_map (λ settings. non_blank settings.oidc_client_id) layers;
  oidc_client_secret_file = find_map (λ settings. settings.oidc_client_secret_file) layers;
  oidc_scopes =
      unwrap_or (find_map (λ settings. non_empty settings.oidc_scopes) layers)
        Authorization.default_browser_oidc_scopes;
  oidc_callback_path =
      unwrap_or (find_map (λ settings. non_blank settings.oidc_callback_path) layers)
        Authorization.default_oidc_callback_path;
  oidc_logout_path =
      unwrap_or (find_map (λ settings. non_blank settings.oidc_logout_path) layers)
        Authorization.default_oidc_logout_path;
  oidc_session_key_file =
      unwrap_or (find_map (λ settings. non_blank settings.oidc_session_key_file) layers)
        Authorization.default_oidc_session_key_file;
  oidc_session_ttl_seconds =
      unwrap_or (find_map (λ settings. settings.oidc_session_ttl_seconds) layers)
        Authorization.default_oidc_session_ttl_seconds;
}

unfoldable pub merge_authorization_layers :
    Layers → Result ConfigError (Option ClientAuthorizationConfig)
unfolding authorization_of
merge_authorization_layers layers =
    if is_empty layers
    then ok none
    else if not (unwrap_or (find_map (λ settings. settings.enabled) layers) true)
    then ok none
    else do
      issuer ← ok_or (find_map (λ settings. non_blank settings.issuer) layers) missing_issuer
      ok (some (authorization_of issuer layers))

-- `[route, defaults].into_iter().flatten()`.
abbrev pub flatten_options {ℓ} : {A : Type ℓ} → List (Option A) → List A
flatten_options [] = []
flatten_options (none ∷ os) = flatten_options os
flatten_options (some a ∷ os) = a ∷ flatten_options os

unfoldable pub merge_authorization_defaults :
    Option ClientAuthorizationDefaults
    → Option ClientAuthorizationDefaults
    → Result ConfigError (Option ClientAuthorizationConfig)
unfolding merge_authorization_layers
merge_authorization_defaults defaults route =
    merge_authorization_layers (flatten_options (route ∷ defaults ∷ []))

-- `route.and_then(select).or_else(|| defaults.and_then(select))`.
abbrev pub layered {ℓ κ} :
    {L : Type ℓ} {A : Type κ} → (L → Option A) → Option L → Option L → Option A
layered select route defaults = find_map select (flatten_options (route ∷ defaults ∷ []))

unfoldable pub merge_acme_defaults :
    Option ClientAcmeDefaults
    → Option ClientAcmeDefaults
    → Str
    → Result ConfigError (Option ClientAcmeConfig)
merge_acme_defaults none none hostname = ok none
merge_acme_defaults defaults route hostname =
    if not (unwrap_or (layered (λ settings. settings.enabled) route defaults) true)
    then ok none
    else do
      let cache_dir =
          unwrap_or (layered (λ settings. settings.cache_dir) route defaults) default_acme_cache_dir
      ensure (not (is_blank cache_dir)) empty_cache_dir
      ok (
          some (record {
            domain = hostname;
            contacts = unwrap_or (layered (λ settings. settings.contacts) route defaults) [];
            cache_dir = cache_dir;
            production = unwrap_or (layered (λ settings. settings.production) route defaults) false;
            directory_url = layered (λ settings. settings.directory_url) route defaults;
          }))

abbrev oauth_value :
    (ClientOAuthDefaults → Option Str)
    → Option ClientOAuthDefaults
    → Option ClientOAuthDefaults
    → Result ConfigError Str
oauth_value select route defaults = ok_or (layered select route defaults) missing_oauth_value

unfoldable pub merge_oauth_defaults :
    Option ClientOAuthDefaults
    → Option ClientOAuthDefaults
    → Str
    → Result ConfigError (Option ClientOAuthConfig)
merge_oauth_defaults none none hostname = ok none
merge_oauth_defaults defaults route hostname = do
  token_url ← oauth_value (λ settings. settings.token_url) route defaults
  provider_client_id ← oauth_value (λ settings. settings.provider_client_id) route defaults
  username ← oauth_value (λ settings. settings.username) route defaults
  client_secret_file ← oauth_value (λ settings. settings.client_secret_file) route defaults
  control_plane_url ← oauth_value (λ settings. settings.control_plane_url) route defaults
  ok (
      some (record {
        token_url = token_url;
        provider_client_id = provider_client_id;
        username = username;
        client_secret_file = client_secret_file;
        control_plane_url = control_plane_url;
        hostname = hostname;
        scopes =
            unwrap_or (layered (λ settings. settings.scopes) route defaults) default_oauth_scopes;
        renew_before_seconds =
            unwrap_or (layered (λ settings. settings.renew_before_seconds) route defaults)
              default_oauth_renew_before_seconds;
      }))
