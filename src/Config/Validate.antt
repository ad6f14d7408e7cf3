-- ===== src/Config/Validate.antt =====
-- `validate_client_config` and `validate_authorization` (shared/src/config.rs).
pub mod Sound
pub mod Rules
use lfp_pipe.Base.{
  ℕ, suc, ◌+◌, Bool, true, false, not, ◌&&◌, ◌||◌, ◌==◌, leb, ltb, Option, none, some, List, [],
  ◌∷◌, any, filter, length, is_some, if◌then◌else◌, unwrap_or, Result, ok, err, ensure, ◌>>=◌, ◌>>◌,
}
use lfp_pipe.Text.{codes}
use lfp_pipe.Text.Ascii.{Str, str_eq}
use lfp_pipe.Text.Affix.{starts_with, contains}
use lfp_pipe.Text.White.{is_empty, is_blank}
use lfp_pipe.Config.Authorization.{ClientAuthorizationConfig, bearer_enabled, oidc_enabled}
use lfp_pipe.Config.Backend.{BackendRule}
use lfp_pipe.Config.Client.{ClientConfig}
use lfp_pipe.Config.Merge.{
  ConfigError, needs_acme, needs_one_fallback, bad_path_prefix, repeated_path_prefix,
  no_credential_enabled, empty_issuer, empty_audiences, empty_jwks_cache_file, empty_algorithms,
  missing_oidc_client_id, missing_openid_scope, bad_oidc_path, equal_oidc_paths,
  empty_session_key_file, zero_session_ttl, zero_header_timeout, small_header_limit,
}

-- `text.contains(['?', '#'])`.
abbrev pub has_query : Str → Bool
has_query s = contains b'?' s || contains b'#' s

abbrev pub reserved_path : Str → Bool
reserved_path path = starts_with path (codes "/_lfp/auth/") && not (has_query path)

unfoldable pub validate_bearer : ClientAuthorizationConfig → Result ConfigError (Unit {0})
validate_bearer authorization =
    if bearer_enabled authorization
    then (do
      ensure (not (is_empty authorization.audiences)) empty_audiences
      ensure (not (is_blank authorization.jwks_cache_file)) empty_jwks_cache_file
      ensure (not (is_empty authorization.algorithms)) empty_algorithms)
    else ok tt

unfoldable pub validate_oidc : ClientAuthorizationConfig → Result ConfigError (Unit {0})
validate_oidc authorization =
    if oidc_enabled authorization
    then (do
      ensure (not (is_blank (unwrap_or authorization.oidc_client_id []))) missing_oidc_client_id
      ensure (any (λ scope. str_eq scope (codes "openid")) authorization.oidc_scopes)
          missing_openid_scope
      ensure (reserved_path authorization.oidc_callback_path) bad_oidc_path
      ensure (reserved_path authorization.oidc_logout_path) bad_oidc_path
      ensure (not (str_eq authorization.oidc_callback_path authorization.oidc_logout_path))
          equal_oidc_paths
      ensure (not (is_blank authorization.oidc_session_key_file)) empty_session_key_file
      ensure (ltb 0 authorization.oidc_session_ttl_seconds) zero_session_ttl)
    else ok tt

unfoldable pub validate_authorization : ClientAuthorizationConfig → Result ConfigError (Unit {0})
validate_authorization authorization = do
  ensure (bearer_enabled authorization || oidc_enabled authorization) no_credential_enabled
  ensure (not (is_blank authorization.issuer)) empty_issuer
  validate_bearer authorization
  validate_oidc authorization
  ensure (ltb 0 authorization.header_timeout_ms) zero_header_timeout
  ensure (leb 8192 authorization.max_header_bytes) small_header_limit

abbrev pub validate_policy : Option ClientAuthorizationConfig → Result ConfigError (Unit {0})
validate_policy none = ok tt
validate_policy (some authorization) = validate_authorization authorization

-- The prefix of one rule, against those of the rules before it.
unfoldable pub validate_prefix : List Str → Option Str → Result ConfigError (List Str)
validate_prefix prefixes none = ok prefixes
validate_prefix prefixes (some prefix) = do
  ensure (starts_with prefix (codes "/") && not (has_query prefix)) bad_path_prefix
  ensure (not (any (str_eq prefix) prefixes)) repeated_path_prefix
  ok (prefix ∷ prefixes)

-- The loop over the rules, with the `HashSet` of the prefixes seen so far as a list.
unfoldable pub validate_rules : List Str → List BackendRule → Result ConfigError (Unit {0})
validate_rules prefixes [] = ok tt
validate_rules prefixes (rule ∷ rules) = do
  seen ← validate_prefix prefixes rule.path_prefix
  validate_policy rule.authorization
  validate_rules seen rules

abbrev pub has_path_routes : List BackendRule → Bool
has_path_routes = any (λ rule. is_some rule.path_prefix)

abbrev pub has_authorization : ClientConfig → Bool
has_authorization config =
    is_some config.authorization || any (λ rule. is_some rule.authorization) config.backend_rules

abbrev pub fallback_count : List BackendRule → ℕ
fallback_count rules = length (filter (λ rule. not (is_some rule.path_prefix)) rules)

unfoldable pub validate_client_config : ClientConfig → Result ConfigError (Unit {0})
validate_client_config config = do
  ensure
      (not (has_path_routes config.backend_rules) && not (has_authorization config)
        || is_some config.acme)
      needs_acme
  ensure (not (has_path_routes config.backend_rules) || fallback_count config.backend_rules == 1)
      needs_one_fallback
  validate_rules [] config.backend_rules
  validate_policy config.authorization
