-- ===== src/Config/Authorization.antt =====
-- `ClientAuthorizationConfig`, its defaults and `RoleMatch` (shared/src/config.rs).
use lfp_pipe.Base.{ℕ, ◌*◌, Bool, true, not, Option, none, some, List, [], ◌∷◌, unwrap_or}
use lfp_pipe.Text.{codes}
use lfp_pipe.Text.Ascii.{Str}
use lfp_pipe.Text.White.{is_blank}

pub data RoleMatch : Type 0 where
  any all : RoleMatch

pub record ClientAuthorizationConfig : Type 0 where
  pub bearer : Option Bool
  pub oidc : Option Bool
  pub issuer : Str
  pub audiences : List Str
  pub jwks_uri : Option Str
  pub jwks_cache_file : Str
  pub roles_claim : Str
  pub required_roles : List Str
  pub forward_authorization : Bool
  pub role_match : RoleMatch
  pub algorithms : List Str
  pub leeway_seconds : ℕ
  pub jwks_refresh_seconds : ℕ
  pub jwks_max_stale_seconds : ℕ
  pub header_timeout_ms : ℕ
  pub max_header_bytes : ℕ
  pub oidc_client_id : Option Str
  pub oidc_client_secret_file : Option Str
  pub oidc_scopes : List Str
  pub oidc_callback_path : Str
  pub oidc_logout_path : Str
  pub oidc_session_key_file : Str
  pub oidc_session_ttl_seconds : ℕ

unfoldable pub bearer_enabled : ClientAuthorizationConfig → Bool
bearer_enabled c = unwrap_or c.bearer true

abbrev names_client : Option Str → Bool
names_client none = Bool.false
names_client (some value) = not (is_blank value)

unfoldable pub oidc_enabled : ClientAuthorizationConfig → Bool
oidc_enabled c = unwrap_or c.oidc (names_client c.oidc_client_id)

abbrev pub default_roles_claim : Str
default_roles_claim = codes "groups"

abbrev pub default_jwt_algorithms : List Str
default_jwt_algorithms = codes "RS256" ∷ []

abbrev pub default_jwt_leeway_seconds : ℕ
default_jwt_leeway_seconds = 30

abbrev pub default_jwks_cache_file : Str
default_jwks_cache_file = codes "~/.cache/lfp-pipe/auth/jwks.json"

abbrev pub default_jwks_refresh_seconds : ℕ
default_jwks_refresh_seconds = 3_600

abbrev pub default_jwks_max_stale_seconds : ℕ
default_jwks_max_stale_seconds = 604_800

abbrev pub default_auth_header_timeout_ms : ℕ
default_auth_header_timeout_ms = 5_000

abbrev pub default_auth_max_header_bytes : ℕ
default_auth_max_header_bytes = 32 * 1024

abbrev pub default_browser_oidc_scopes : List Str
default_browser_oidc_scopes = codes "openid" ∷ codes "profile" ∷ codes "email" ∷ codes "groups" ∷ []

abbrev pub default_oidc_callback_path : Str
default_oidc_callback_path = codes "/_lfp/auth/callback"

abbrev pub default_oidc_logout_path : Str
default_oidc_logout_path = codes "/_lfp/auth/logout"

abbrev pub default_oidc_session_key_file : Str
default_oidc_session_key_file = codes "~/.secrets/lfp-pipe/oidc-session-key"

abbrev pub default_oidc_session_ttl_seconds : ℕ
default_oidc_session_ttl_seconds = 8 * 60 * 60
