-- ===== src/Config/Ingress.antt =====
-- `IngressConfig`, its overrides and its validation (shared/src/config.rs).
pub mod Routes
use lfp_pipe.Base.{
  ℕ, Bool, true, false, not, ◌||◌, Option, List, [], ◌∷◌, any, unwrap_or, Result, ok, err, ensure,
  ◌>>=◌, ◌>>◌,
}
use lfp_pipe.Text.Ascii.{Str, str_eq, to_ascii_lowercase}
use lfp_pipe.Text.White.{trim, is_empty, is_blank}
use lfp_pipe.Config.Client.{RelayMode, clearing}

pub record SniPassthroughRoute : Type 0 where
  pub hostname : Str
  pub backend_addr : Str

pub record IngressConfig : Type 0 where
  pub public_listen : Str
  pub data_listen : Str
  pub advertised_data_addr : Option Str
  pub nats_url : Str
  pub nats_token_file : Option Str
  pub relay_mode : RelayMode
  pub request_subject : Str
  pub domain_subject_routing : Bool
  pub claim_timeout_ms : ℕ
  pub pending_timeout_ms : ℕ
  pub ingress_handshake_timeout_ms : ℕ
  pub callback_handshake_timeout_ms : ℕ
  pub max_ingress_connections : ℕ
  pub max_callback_handshakes : ℕ
  pub sni_passthrough_routes : List SniPassthroughRoute

pub record IngressOverrides : Type 0 where
  pub public_listen : Option Str
  pub data_listen : Option Str
  pub advertised_data_addr : Option Str
  pub nats_url : Option Str
  pub nats_token_file : Option Str
  pub relay_mode : Option RelayMode
  pub request_subject : Option Str
  pub domain_subject_routing : Option Bool
  pub claim_timeout_ms : Option ℕ
  pub pending_timeout_ms : Option ℕ
  pub ingress_handshake_timeout_ms : Option ℕ
  pub callback_handshake_timeout_ms : Option ℕ
  pub max_ingress_connections : Option ℕ
  pub max_callback_handshakes : Option ℕ

unfoldable pub ingress_callback_addr : IngressConfig → Str
ingress_callback_addr self = unwrap_or self.advertised_data_addr self.data_listen

unfoldable pub with_ingress_overrides : IngressConfig → IngressOverrides → IngressConfig
with_ingress_overrides self overrides = record self {
  public_listen = unwrap_or overrides.public_listen self.public_listen;
  data_listen = unwrap_or overrides.data_listen self.data_listen;
  advertised_data_addr = clearing overrides.advertised_data_addr self.advertised_data_addr;
  nats_url = unwrap_or overrides.nats_url self.nats_url;
  nats_token_file = clearing overrides.nats_token_file self.nats_token_file;
  relay_mode = unwrap_or overrides.relay_mode self.relay_mode;
  request_subject = unwrap_or overrides.request_subject self.request_subject;
  domain_subject_routing = unwrap_or overrides.domain_subject_routing self.domain_subject_routing;
  claim_timeout_ms = unwrap_or overrides.claim_timeout_ms self.claim_timeout_ms;
  pending_timeout_ms = unwrap_or overrides.pending_timeout_ms self.pending_timeout_ms;
  ingress_handshake_timeout_ms =
      unwrap_or overrides.ingress_handshake_timeout_ms self.ingress_handshake_timeout_ms;
  callback_handshake_timeout_ms =
      unwrap_or overrides.callback_handshake_timeout_ms self.callback_handshake_timeout_ms;
  max_ingress_connections =
      unwrap_or overrides.max_ingress_connections self.max_ingress_connections;
  max_callback_handshakes =
      unwrap_or overrides.max_callback_handshakes self.max_callback_handshakes;
}

pub data IngressError : Type 0 where
  empty_hostname empty_backend_addr duplicate_hostname : IngressError

-- The loop over the routes, with the `HashSet` of the names seen so far as a list.
unfoldable pub validate_routes :
    List Str → List SniPassthroughRoute → Result IngressError (Unit {0})
validate_routes hostnames [] = ok tt
validate_routes hostnames (route ∷ routes) = do
  let hostname = to_ascii_lowercase (trim route.hostname)
  ensure (not (is_empty hostname)) empty_hostname
  ensure (not (is_blank route.backend_addr)) empty_backend_addr
  ensure (not (any (str_eq hostname) hostnames)) duplicate_hostname
  validate_routes (hostname ∷ hostnames) routes

unfoldable pub validate_ingress_config : IngressConfig → Result IngressError (Unit {0})
unfolding validate_routes
validate_ingress_config config = validate_routes [] config.sni_passthrough_routes
