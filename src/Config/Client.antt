-- ===== src/Config/Client.antt =====
-- `ClientConfig` with its OAuth and ACME parts, the overrides of the command line
-- (shared/src/config.rs).
use lfp_pipe.Base.{ℕ, Bool, not, Option, none, some, List, [], ◌∷◌, unwrap_or, if◌then◌else◌}
use lfp_pipe.Text.{codes}
use lfp_pipe.Text.Ascii.{Str}
use lfp_pipe.Text.White.{is_empty}
use lfp_pipe.Config.Authorization.{ClientAuthorizationConfig}
use lfp_pipe.Config.Backend.{BackendRule}

pub data RelayMode : Type 0 where
  auto buffered splice : RelayMode

pub record ClientOAuthConfig : Type 0 where
  pub token_url : Str
  pub provider_client_id : Str
  pub username : Str
  pub client_secret_file : Str
  pub control_plane_url : Str
  pub hostname : Str
  pub scopes : List Str
  pub renew_before_seconds : ℕ

pub record ClientAcmeConfig : Type 0 where
  pub domain : Str
  pub contacts : List Str
  pub cache_dir : Str
  pub production : Bool
  pub directory_url : Option Str

pub record ClientConfig : Type 0 where
  pub client_id : Str
  pub nats_url : Str
  pub nats_token_file : Option Str
  pub oauth : Option ClientOAuthConfig
  pub acme : Option ClientAcmeConfig
  pub authorization : Option ClientAuthorizationConfig
  pub tcp_passthrough : Bool
  pub relay_mode : RelayMode
  pub request_subject : Str
  pub claim_ack_timeout_ms : ℕ
  pub backend_rules : List BackendRule

pub record ClientOverrides : Type 0 where
  pub client_id : Option Str
  pub nats_url : Option Str
  pub nats_token_file : Option Str
  pub relay_mode : Option RelayMode
  pub request_subject : Option Str
  pub claim_ack_timeout_ms : Option ℕ

abbrev pub default_request_subject : Str
default_request_subject = codes "tunnel.connect.request"

abbrev pub default_claim_ack_timeout_ms : ℕ
default_claim_ack_timeout_ms = 1_500

abbrev pub default_oauth_scopes : List Str
default_oauth_scopes = codes "openid" ∷ codes "profile" ∷ codes "email" ∷ codes "entitlements" ∷ []

abbrev pub default_oauth_renew_before_seconds : ℕ
default_oauth_renew_before_seconds = 60

abbrev pub default_acme_cache_dir : Str
default_acme_cache_dir = codes "~/.cache/lfp-pipe/acme"

-- `(!value.is_empty()).then_some(value)`, over the value of the file: an empty override clears.
abbrev pub clearing : Option Str → Option Str → Option Str
clearing none old = old
clearing (some value) old = if not (is_empty value) then some value else none

unfoldable pub with_overrides : ClientConfig → ClientOverrides → ClientConfig
with_overrides self overrides = record self {
  client_id = unwrap_or overrides.client_id self.client_id;
  nats_url = unwrap_or overrides.nats_url self.nats_url;
  nats_token_file = clearing overrides.nats_token_file self.nats_token_file;
  relay_mode = unwrap_or overrides.relay_mode self.relay_mode;
  request_subject = unwrap_or overrides.request_subject self.request_subject;
  claim_ack_timeout_ms = unwrap_or overrides.claim_ack_timeout_ms self.claim_ack_timeout_ms;
}
