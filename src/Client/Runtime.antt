-- ===== src/Client/Runtime.antt =====
-- client/src/lib.rs: the backends of a session with their authorizers, the answer to a connection request,
-- and the bridge to a backend.
pub mod Assemble
pub mod Endpoints
use lfp_pipe.Base.{
  ℕ, ◌+◌, ◌-◌, ◌/◌, ◌≡◌, Bool, true, false, not, ◌&&◌, ◌||◌, Option, none, some, List, [], ◌∷◌,
  ◌++◌, any, all, find, is_some, or_option, max, ltb, ◌==◌, if◌then◌else◌, Result, ok, err, ok_or,
  ensure, ◌>>=◌, ◌>>◌,
}
use lfp_pipe.Text.{codes}
use lfp_pipe.Text.Ascii.{Str, str_eq, eq_ignore_ascii_case}
use lfp_pipe.Text.White.{is_empty}
use lfp_pipe.Config.Authorization
use lfp_pipe.Config.Authorization.{ClientAuthorizationConfig, RoleMatch, oidc_enabled}
use lfp_pipe.Config.Backend.{BackendRule, resolved_backend_addr}
use lfp_pipe.Config.Client.{ClientConfig, ClientAcmeConfig}
use lfp_pipe.Routing.Pattern.{matches_pattern}
use lfp_pipe.Http.{looks_like_http_prefix}
use lfp_pipe.Client.Proxy.{BackendRuntime}

pub data RuntimeError : Type 0 where
  same_endpoint no_acme_hostname not_loaded no_backends pattern_mismatch : RuntimeError
  no_fallback no_hostname peek_failed : RuntimeError

-- `==` of the types of a policy.
abbrev same_bool : Bool → Bool → Bool
same_bool true b = b
same_bool false b = not b

abbrev same_option : {A : Type 0} → (A → A → Bool) → Option A → Option A → Bool
same_option eq none none = true
same_option eq (some a) (some b) = eq a b
same_option eq _ _ = false

unfoldable pub same_list : List Str → List Str → Bool
same_list [] [] = true
same_list (x ∷ xs) (y ∷ ys) = str_eq x y && same_list xs ys
same_list _ _ = false

abbrev same_match : RoleMatch → RoleMatch → Bool
same_match RoleMatch.any RoleMatch.any = true
same_match RoleMatch.all RoleMatch.all = true
same_match _ _ = false

unfoldable pub same_policy : ClientAuthorizationConfig → ClientAuthorizationConfig → Bool
same_policy a b =
    same_option same_bool a.bearer b.bearer
    && same_option same_bool a.oidc b.oidc
    && str_eq a.issuer b.issuer
    && same_list a.audiences b.audiences
    && same_option str_eq a.jwks_uri b.jwks_uri
    && str_eq a.jwks_cache_file b.jwks_cache_file
    && str_eq a.roles_claim b.roles_claim
    && same_list a.required_roles b.required_roles
    && same_bool a.forward_authorization b.forward_authorization
    && same_match a.role_match b.role_match
    && same_list a.algorithms b.algorithms
    && a.leeway_seconds == b.leeway_seconds
    && a.jwks_refresh_seconds == b.jwks_refresh_seconds
    && a.jwks_max_stale_seconds == b.jwks_max_stale_seconds
    && a.header_timeout_ms == b.header_timeout_ms
    && a.max_header_bytes == b.max_header_bytes
    && same_option str_eq a.oidc_client_id b.oidc_client_id
    && same_option str_eq a.oidc_client_secret_file b.oidc_client_secret_file
    && same_list a.oidc_scopes b.oidc_scopes
    && str_eq a.oidc_callback_path b.oidc_callback_path
    && str_eq a.oidc_logout_path b.oidc_logout_path
    && str_eq a.oidc_session_key_file b.oidc_session_key_file
    && a.oidc_session_ttl_seconds == b.oidc_session_ttl_seconds

-- The policy of a rule: a path has its own or none, a host inherits that of the client.
unfoldable pub policy_of : ClientConfig → BackendRule → Option ClientAuthorizationConfig
policy_of config rule =
    if is_some rule.path_prefix
    then rule.authorization
    else or_option rule.authorization config.authorization

-- Two logins with an endpoint in common.
unfoldable pub shares_endpoint : ClientAuthorizationConfig → ClientAuthorizationConfig → Bool
shares_endpoint policy existing =
    oidc_enabled existing
    && (str_eq existing.oidc_callback_path policy.oidc_callback_path
        || str_eq existing.oidc_callback_path policy.oidc_logout_path
        || str_eq existing.oidc_logout_path policy.oidc_callback_path
        || str_eq existing.oidc_logout_path policy.oidc_logout_path)

abbrev acme_domain : Option ClientAcmeConfig → Option Str
acme_domain none = none
acme_domain (some settings) = some settings.domain

module _ {A : Type 0} where
  -- An authorizer for a policy that has none yet.
  unfoldable pub load_policy :
      (ClientAuthorizationConfig → Str → Option A)
      → Option Str
      → List (ClientAuthorizationConfig × A)
      → ClientAuthorizationConfig
      → Result RuntimeError (A × List (ClientAuthorizationConfig × A))
  load_policy load hostname authorizers policy = do
    ensure (not (oidc_enabled policy && any (λ entry. shares_endpoint policy entry.0) authorizers))
        same_endpoint
    host ← ok_or hostname no_acme_hostname
    loaded ← ok_or (load policy host) not_loaded
    ok (loaded, authorizers ++ (policy, loaded) ∷ [])

  -- A policy that was loaded before keeps its authorizer.
  abbrev pub or_existing :
      List (ClientAuthorizationConfig × A)
      → Option (ClientAuthorizationConfig × A)
      → Result RuntimeError (A × List (ClientAuthorizationConfig × A))
      → Result RuntimeError (A × List (ClientAuthorizationConfig × A))
  or_existing authorizers (some (policy, existing)) other = ok (existing, authorizers)
  or_existing authorizers none other = other

  unfoldable pub authorizer_for :
      (ClientAuthorizationConfig → Str → Option A)
      → Option Str
      → List (ClientAuthorizationConfig × A)
      → Option ClientAuthorizationConfig
      → Result RuntimeError (Option A × List (ClientAuthorizationConfig × A))
  authorizer_for load hostname authorizers none = ok (none, authorizers)
  authorizer_for load hostname authorizers (some policy) = do
    (a, after) ←
        or_existing authorizers (find (λ entry. same_policy entry.0 policy) authorizers)
          (load_policy load hostname authorizers policy)
    ok (some a, after)

  unfoldable pub backends_from :
      (ClientAuthorizationConfig → Str → Option A)
      → ClientConfig
      → Option Str
      → List (ClientAuthorizationConfig × A)
      → List BackendRule
      → Result RuntimeError (List (BackendRuntime A))
  backends_from load config hostname authorizers [] = ok []
  backends_from load config hostname authorizers (rule ∷ rules) = do
    (authorization, after) ← authorizer_for load hostname authorizers (policy_of config rule)
    rest ← backends_from load config hostname after rules
    ok (record { rule = rule; authorization = authorization } ∷ rest)

  -- The two checks in front of the automatic certificates.
  unfoldable pub check_acme :
      Option ClientAcmeConfig → List (BackendRuntime A) → Result RuntimeError (Unit {0})
  check_acme none backends = ok tt
  check_acme (some settings) backends = do
    ensure (not (is_empty backends)) no_backends
    ensure (all (λ backend. eq_ignore_ascii_case backend.rule.pattern settings.domain) backends)
        pattern_mismatch
    ok tt

  -- What `process_messages` makes before it handles the first message, but for the start of the
  -- certificates.
  unfoldable pub backends_of :
      (ClientAuthorizationConfig → Str → Option A)
      → ClientConfig
      → Result RuntimeError (List (BackendRuntime A))
  backends_of load config = do
    backends ← backends_from load config (acme_domain config.acme) [] config.backend_rules
    check_acme config.acme backends
    ok backends
